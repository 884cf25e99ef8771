-- ===== src/ClhtLbRes/Locked.antt =====
-- OtherTables/src/clht/src/clht_lb_res.c: what `clht_put`, `clht_remove` and `clht_put_seq` do to a
-- table while they have the lock.
use lock_free_hop_scotch.Prelude.{
  ℕ, ◌+◌, ◌≤◌, ◌≡◌, ◌≢◌, Bool, true, false, ◌&&◌, none, some, ◌==◌, if◌then◌else◌, update, u32,
  refl, sym, ap, subst, ◌∙◌, arith,
}
use lock_free_hop_scotch.ClhtLb.Chain.{Chain, scan, put, remove, value_or_0}
use lock_free_hop_scotch.ClhtLb.Table.{Locked}
use lock_free_hop_scotch.ClhtLb.Laws.{is_none, PutSays, put_lem, remove_lem}
use lock_free_hop_scotch.ClhtLbRes.Table.{
  Table, clht_hash, clht_size, count_expand, note_expand, lock_free, put_in, remove_in,
  clht_put_seq, fill, needs_bucket,
}
use lock_free_hop_scotch.ClhtLbRes.Fill.{fill_lem}
use lock_free_hop_scotch.ClhtLbRes.Change.{lookup, IsTable, clht_hash-IsIndex, changed, changed_lem}

-- The new entry is there if `ok`, all else is as it was, and the size counts it.
pub record PutIn (t : Table) (key val : ℕ) (ok : Bool) (t' : Table) : Type 0 where
  pub result : ok ≡ is_none (lookup t key)
  pub lookups : (q : ℕ) → q ≢ 0 → lookup t' q ≡ (if q == key && ok then some val else lookup t q)
  pub valid : IsTable t'
  pub sizes : clht_size t' ≡ clht_size t + (if ok then 1 else 0)
  pub buckets : t'.num_buckets ≡ t.num_buckets
  pub expands : t'.num_expands ≤ t.num_expands + 1

pub record RemoveIn (t : Table) (key : ℕ) (r : ℕ × Table) : Type 0 where
  pub result : r.0 ≡ value_or_0 (lookup t key)
  pub lookups : (q : ℕ) → q ≢ 0 → lookup r.1 q ≡ (if q == key then none else lookup t q)
  pub valid : IsTable r.1
  pub sizes : clht_size t ≡ clht_size r.1 + (if is_none (lookup t key) then 0 else 1)
  pub buckets : r.1.num_buckets ≡ t.num_buckets

-- Only the count of new buckets changes, by one at most.
note_expand_lem :
    (b : Bool) (t : Table)
    → (n : ℕ) × ((note_expand b t).1 ≡ record t { num_expands = n }) × (n ≤ t.num_expands + 1)
unfolding count_expand
note_expand_lem false t = (t.num_expands, refl, omega arith)
note_expand_lem true t = (u32 (t.num_expands + 1), refl, omega arith)

module _ (t : Table) (key val : ℕ) (nz : key ≢ 0) (v : IsTable t) where
  -- A chain that has taken the entry, put back into the table.
  put-changed :
      (n : ℕ) (ok : Bool) (c' : Chain)
      → n ≤ t.num_expands + 1
      → PutSays (t.table (clht_hash t key)).chain key val (ok, c')
      → PutIn t key val ok (changed t n (clht_hash t key) c')
  put-changed n ok c' le says =
      let c =
        changed_lem t key n c' (λ q x. if q == key && ok then some val else x) v says.valid
          says.finds (λ q x other. ap (λ b. if b && ok then some val else x) other) in
      record {
        result = says.result;
        lookups = c.lookups;
        valid = c.valid;
        sizes = omega (arith, c.sizes, says.count);
        buckets = c.buckets;
        expands = le;
      }

  pub put_in_lem :
      (before : ℕ → ℕ)
      → PutIn t key val
          (put_in before t (clht_hash t key) key val).1
          (put_in before t (clht_hash t key) key val).2
  unfolding put_in
  put_in_lem before =
      let bin = clht_hash t key in
      let c = (t.table bin).chain in
      let r = put before c key val in
      let (n, same, le) = note_expand_lem (needs_bucket (scan c key none 0)) t in
      subst (PutIn t key val r.0)
        (sym (
          ap
            (λ (t' : Table). record t' {
              table = update t.table bin (record { lock = lock_free; chain = r.1 });
            })
            same))
        (put-changed n r.0 r.1 le
          (put_lem before key val nz c (v.valid bin (clht_hash-IsIndex t v key))))

  pub clht_put_seq_lem :
      (before : ℕ → ℕ)
      → lookup t key ≡ none
      → PutIn t key val true (clht_put_seq before t key val (clht_hash t key))
  unfolding clht_put_seq
  clht_put_seq_lem before absent =
      let bin = clht_hash t key in
      let index = clht_hash-IsIndex t v key in
      let c = (t.table bin).chain in
      let r = fill before c key val in
      let (n, same, le) = note_expand_lem r.0 t in
      let bucket : Locked = record { lock = lock_free; chain = r.1 } in
      let free : record (t.table bin) { chain = r.1 } ≡ bucket =
        ap (λ (l : ℕ). let b : Locked = record { lock = l; chain = r.1 } in b) (v.free bin index) in
      subst (PutIn t key val true)
        (sym (
          ap
            (λ (t' : Table). record t' {
              table = update t.table bin (record (t.table bin) { chain = r.1 });
            })
            same
          ∙ ap (λ (b : Locked). record t { num_expands = n; table = update t.table bin b }) free))
        (put-changed n true r.1 le (fill_lem before key val c nz (v.valid bin index) absent))

  pub remove_in_lem : RemoveIn t key (remove_in t (clht_hash t key) key)
  unfolding remove_in
  remove_in_lem =
      let bin = clht_hash t key in
      let c = (t.table bin).chain in
      let r = remove c key in
      let says = remove_lem c key nz (v.valid bin (clht_hash-IsIndex t v key)) in
      let ch =
        changed_lem t key t.num_expands r.1 (λ q x. if q == key then none else x) v says.valid
          says.finds (λ q x other. ap (λ b. if b then none else x) other) in
      record {
        result = says.result;
        lookups = ch.lookups;
        valid = ch.valid;
        sizes = omega (arith, ch.sizes, says.count);
        buckets = ch.buckets;
      }
