-- ===== src/ClhtLbRes/Move.antt =====
-- OtherTables/src/clht/src/clht_lb_res.c: the loop of `ht_resize_pes` that moves a table into a new
-- one.
use lock_free_hop_scotch.Prelude.{
  ℕ, zero, suc, ◌+◌, ◌<◌, ◌≤◌, ◌≡◌, ◌≢◌, true, false, Option, none, some, if◌then◌else◌, refl, sym,
  ap, subst, ◌∙◌, arith, ltb, update, update_other, ℕ_discrete,
}
use lock_free_hop_scotch.Prelude.Options.{◌>>=◌}
use lock_free_hop_scotch.Buckets.{sum_below}
use lock_free_hop_scotch.ClhtLb.Chain.{find, size, or_else}
use lock_free_hop_scotch.ClhtLb.Table.{Locked}
use lock_free_hop_scotch.ClhtLbRes.Table.{Table, clht_hash, lock_free, lock_resize, lock_acq_resize}
use lock_free_hop_scotch.ClhtLbRes.Status.{copy_chain, bucket_cpy, copy_below}
use lock_free_hop_scotch.ClhtLbRes.Change.{lookup, IsTable}
use lock_free_hop_scotch.ClhtLbRes.Copy.{
  Copied, NoneIn, Copied-same, Copied-trans, or_else-none, copy_chain_lem,
}

-- A bucket whose lock is free is copied, and stays locked.
bucket_cpy-free :
    (before : ℕ → ℕ) (b : Locked) (t : Table)
    → b.lock ≡ lock_free
    → bucket_cpy before b t
      ≡ some (true, record b { lock = lock_resize }, copy_chain before b.chain t)
unfolding bucket_cpy lock_acq_resize
bucket_cpy-free before b t free = rw free refl

module _ (before : ℕ → ℕ) (old : Table) (v : IsTable old) where
  -- The entries of the first `n` buckets.
  abbrev pub moved : ℕ → ℕ → Option ℕ
  moved n q = if ltb (clht_hash old q) n then lookup old q else none

  pub record Moved (n : ℕ) (t : Table) (r : (ℕ → Locked) × Table) : Type 0 where
    pub later : (i : ℕ) → n ≤ i → r.0 i ≡ old.table i
    pub copied : Copied (moved n) (sum_below (λ (b : Locked). size b.chain) old.table n) t r.1

  -- A key of the bucket is not among those before.
  in_bucket :
      (n : ℕ)
      → n < old.num_buckets
      → (q : ℕ) → q ≢ 0
      → find (old.table n).chain q ≢ none
      → (clht_hash old q ≡ n) × (lookup old q ≢ none) × (moved n q ≡ none)
  in_bucket n lt q nz there =
      let at = v.placed n lt q nz there in
      (
        at,
        subst (λ i. find (old.table i).chain q ≢ none) (sym at) there,
        (let above : ltb (clht_hash old q) n ≡ false = ground (arith, at) in
            ap (λ b. if b then lookup old q else none) above),
      )

  moved-suc :
      (n : ℕ)
      → n < old.num_buckets
      → (q : ℕ) → q ≢ 0
      → moved (suc n) q ≡ or_else (find (old.table n).chain q) (moved n q)
  moved-suc n lt q nz = elim (ℕ_discrete (clht_hash old q) n) [
    | yes at ↦
        let above : ltb (clht_hash old q) n ≡ false = ground (arith, at) in
        let below : ltb (clht_hash old q) (suc n) ≡ true = ground (arith, at) in
        ap (λ b. if b then lookup old q else none) below
        ∙ ap (λ i. find (old.table i).chain q) at
        ∙ sym (
            ap (λ b. or_else (find (old.table n).chain q) (if b then lookup old q else none)) above
            ∙ or_else-none (find (old.table n).chain q))
    | no other ↦
        let same : ltb (clht_hash old q) (suc n) ≡ ltb (clht_hash old q) n =
          ground (arith, other) in
        ap (λ b. if b then lookup old q else none) same
        ∙ go (find (old.table n).chain q) (moved n q) (λ there. other (v.placed n lt q nz there))
  ]
    where
      go : (x y : Option ℕ) → ((x ≢ none) → ⊥) → y ≡ or_else x y
      go none y absent = refl
      go (some a) y absent = absurd (absent (λ e. cc e))

  none_below : (i : ℕ) → false ≡ ltb i 0
  none_below i = ground arith

  pub copy_below_lem :
      (n : ℕ)
      → n ≤ old.num_buckets
      → (t : Table) → IsTable t
      → NoneIn (lookup old) t
      → (r : (ℕ → Locked) × Table) × (copy_below before n old.table t ≡ some r) × Moved n t r
  unfolding copy_below sum_below
  copy_below_lem zero le t w apart = (
    (old.table, t),
    refl,
    record {
      later = λ i le. refl;
      copied = record {
        lookups = λ q nz.
            ap (λ b. or_else (if b then lookup old q else none) (lookup t q))
              (none_below (clht_hash old q));
        valid = w;
        sizes = omega arith;
        buckets = refl;
        expands = omega arith;
      };
    },
  )
  copy_below_lem (suc n) le t w apart =
      let ((table', t'), ok, m) = copy_below_lem n (omega (arith, le)) t w apart in
      let lt : n < old.num_buckets = omega (arith, le) in
      let b : Locked = record (old.table n) { lock = lock_resize } in
      let c = (old.table n).chain in
      let step : bucket_cpy before (table' n) t' ≡ some (true, b, copy_chain before c t') =
        ap (λ b. bucket_cpy before b t') (m.later n (omega arith))
        ∙ bucket_cpy-free before (old.table n) t' (v.free n lt) in
      let chain = copy_chain_lem before c t' m.copied.valid (v.valid n lt) (λ q nz there.
        let (at, some_there, none_before) = in_bucket n lt q nz there in
        m.copied.lookups q nz
        ∙ ap (λ x. or_else x (lookup t q)) none_before
        ∙ apart q nz some_there) in
      (
        (update table' n b, copy_chain before c t'),
        ap (λ r. r >>= λ r. bucket_cpy before (r.0 n) r.1 >>= λ s. some (update r.0 n s.1, s.2)) ok
            ∙ ap (λ s. s >>= λ s. some (update table' n s.1, s.2)) step,
        record {
          later = λ i above.
              update_other table' n b (λ e. omega (arith, e, above))
              ∙ m.later i (omega (arith, above));
          copied =
              Copied-same (λ q. or_else (find c q) (moved n q)) (moved (suc n))
                (size c + sum_below (λ (b : Locked). size b.chain) old.table n)
                (sum_below (λ (b : Locked). size b.chain) old.table n + size c) t
                (copy_chain before c t') (moved-suc n lt) (omega arith)
                (Copied-trans (moved n) (find c)
                  (sum_below (λ (b : Locked). size b.chain) old.table n) (size c) t t'
                  (copy_chain before c t') m.copied chain);
        },
      )
