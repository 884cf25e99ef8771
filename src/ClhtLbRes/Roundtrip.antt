-- ===== src/ClhtLbRes/Roundtrip.antt =====
-- OtherTables/src/clht/src/clht_lb_res.c: a new table, and a put, a get and a remove of one key.
use lock_free_hop_scotch.Prelude.{
  ℕ, suc, ◌+◌, ◌^◌, ◌<◌, ◌≤◌, ◌≡◌, ◌≢◌, true, ◌&&◌, none, some, ◌==◌, ==_iff, Bool-cases, inl, inr,
  [], if◌then◌else◌, refl, sym, ap, ◌∙◌, arith,
}
use lock_free_hop_scotch.Prelude.Options.{◌>>=◌}
use lock_free_hop_scotch.ClhtLb.Chain.{value_or_0, get}
use lock_free_hop_scotch.ClhtLb.Laws.{is_none}
use lock_free_hop_scotch.ClhtLbRes.Table.{Table, clht_size, clht_get, lock_free}
use lock_free_hop_scotch.ClhtLbRes.Status.{Clht, clht_create}
use lock_free_hop_scotch.ClhtLbRes.Ops.{clht_put, clht_remove}
use lock_free_hop_scotch.ClhtLbRes.Change.{lookup}
use lock_free_hop_scotch.ClhtLbRes.Grow.{fresh_table, clht_hashtable_create_lem}
use lock_free_hop_scotch.ClhtLbRes.Refinement.{IsClht, clht_put-PutClht, clht_remove-RemoveClht}

-- `clht_create` with a power of two of buckets gives a table with no lock held, in which no key but
-- 0 has a value, and whose size is 0.
pub clht_create-IsClht :
    (log : ℕ)
    → (h : Clht) × (clht_create (2 ^ log) ≡ some h)
      × IsClht h
      × ((q : ℕ) → q ≢ 0 → lookup h.ht q ≡ none)
      × (clht_size h.ht ≡ 0)
unfolding clht_create
clht_create-IsClht log =
    let (made, fresh) = clht_hashtable_create_lem log (2 ^ log) 0 refl in
    (
      record {
        ht = fresh_table (2 ^ log) 0;
        prev = [];
        released = [];
        resize_lock = lock_free;
        status_lock = lock_free;
      },
      ap
          (λ o. o >>= λ t. some (record {
            ht = t;
            prev = [];
            released = [];
            resize_lock = lock_free;
            status_lock = lock_free;
          }))
          made,
      record { valid = fresh.valid; resizable = refl; settled = refl },
      fresh.absent,
      fresh.sizes,
    )

-- `clht_get` returns the value of a key, or 0.
clht_get_lem : (t : Table) (key : ℕ) → clht_get t key ≡ value_or_0 (lookup t key)
unfolding clht_get get
clht_get_lem t key = refl

-- Of a key that was absent, the removal gives back all lookups and the size.
pub record Restored (h h' : Clht) : Type 0 where
  pub lookups : (q : ℕ) → q ≢ 0 → lookup h'.ht q ≡ lookup h.ht q
  pub sizes : clht_size h'.ht ≡ clht_size h.ht

-- In a table of 2 ^ 30 buckets at most, with no lock held and room for one entry more below
-- 2 ^ 30, let a key other than 0 be absent, and let there be fuel for 30 calls of `ht_status`.
-- Then `clht_put` returns true, also when the table grows; after it, `clht_get` returns the value
-- of the key; `clht_remove` then returns it, too, and leaves all keys but 0 and the size as they
-- were at first.
pub clht_put-clht_remove :
    (before : ℕ → ℕ) (fuel : ℕ) (h : Clht) (key val : ℕ)
    → 29 ≤ fuel
    → IsClht h
    → h.ht.num_buckets ≤ 2 ^ 30
    → clht_size h.ht + 1 < 2 ^ 30
    → key ≢ 0
    → lookup h.ht key ≡ none
    → (h1 : Clht) × (h2 : Clht) × (clht_put (suc fuel) before h key val ≡ some (true, h1))
      × (clht_get h1.ht key ≡ val)
      × (clht_remove h1 key ≡ some (val, h2))
      × Restored h h2
clht_put-clht_remove before fuel h key val le v small few nz absent =
    let (ok, h1, eq, p) = clht_put-PutClht before fuel h key val le v small few nz in
    let (r, eq', q) = clht_remove-RemoveClht h1 key p.valid nz in
    let yes_ok : ok ≡ true = p.result ∙ ap is_none absent in
    let there : lookup h1.ht key ≡ some val =
      p.lookups key nz
      ∙ ap (λ b. if b && ok then some val else lookup h.ht key) ((==_iff key key).1 refl)
      ∙ ap (λ b. if b then some val else lookup h.ht key) yes_ok in
    (
      h1,
      r.1,
      eq ∙ ap (λ b. some (b, h1)) yes_ok,
      clht_get_lem h1.ht key ∙ ap value_or_0 there,
      eq' ∙ ap (λ x. some (x, r.1)) (q.result ∙ ap value_or_0 there),
      record {
        lookups = λ k kz. q.lookups k kz ∙ elim (Bool-cases (k == key)) [
          | inl here ↦
              ap (λ e. if e then none else lookup h1.ht k) here
              ∙ sym (ap (lookup h.ht) ((==_iff k key).0 here) ∙ absent)
          | inr other ↦
              ap (λ e. if e then none else lookup h1.ht k) other
              ∙ p.lookups k kz
              ∙ ap (λ e. if e && ok then some val else lookup h.ht k) other
        ];
        sizes = omega (
          arith,
          p.sizes ∙ ap (λ b. clht_size h.ht + (if b then 1 else 0)) yes_ok,
          q.sizes ∙ ap (λ x. clht_size r.1.ht + (if is_none x then 0 else 1)) there,
        );
      },
    )
