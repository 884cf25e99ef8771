-- ===== src/ClhtLbRes/Errors.antt =====
-- OtherTables/src/clht/src/clht_lb_res.c: a resize to fewer buckets, which may have no new table.
use lock_free_hop_scotch.Prelude.{
  ℕ, zero, suc, ◌+◌, ◌/◌, ◌^◌, ◌<◌, ◌≤◌, ◌≡◌, ◌≢◌, Bool, true, false, not, ◌&&◌, none, some, ◌==◌,
  Bool-cases, inl, inr, if◌then◌else◌, refl, ap, ◌∙◌, arith, leb, u32,
}
use lock_free_hop_scotch.Prelude.Options.{◌>>=◌}
use native.Mathlib.Nat.{pow-suc}
use lock_free_hop_scotch.ClhtLb.Chain.{or_else}
use lock_free_hop_scotch.ClhtLb.Table.{Locked}
use lock_free_hop_scotch.ClhtLbRes.Table.{Table, clht_size, clht_hashtable_create, lock_free}
use lock_free_hop_scotch.ClhtLbRes.Status.{Clht, taken, publish, ht_resize_pes}
use lock_free_hop_scotch.ClhtLbRes.Change.{lookup, IsTable}
use lock_free_hop_scotch.ClhtLbRes.Copy.{or_else-none}
use lock_free_hop_scotch.ClhtLbRes.Move.{Moved, moved, copy_below_lem}
use lock_free_hop_scotch.ClhtLbRes.Factor.{InBounds}
use lock_free_hop_scotch.ClhtLbRes.Settle.{once_more, ht_status_lem}
use lock_free_hop_scotch.ClhtLbRes.Refinement.{enough}
use lock_free_hop_scotch.ClhtLbRes.Grow.{
  IsNew, Grown, one_resize, end_with, resize_into, ht_resize_pes-unlocked, fresh_table, published,
  all_moved, clht_hashtable_create_lem,
}

-- A division by 8 of a power of two.
eighth : (log n : ℕ) → n ≡ 2 ^ log → 8 ≤ n → (k : ℕ) × (n / 8 ≡ 2 ^ k)
eighth zero n e le = absurd (omega (arith, e, le))
eighth (suc zero) n e le = absurd (omega (arith, e, le))
eighth (suc (suc zero)) n e le = absurd (omega (arith, e, le))
eighth (suc (suc (suc k))) n e le =
    (k, omega (arith, e, pow-suc 2 k, pow-suc 2 (suc k), pow-suc 2 (suc (suc k))))

no_table : clht_hashtable_create 0 ≡ none
unfolding clht_hashtable_create
no_table = refl

and-false : (b : Bool) → (b && false) ≡ false
and-false true = refl
and-false false = refl

-- All keys but 0 have kept their values, and no lock is held.
pub record Shrunk (h h' : Clht) : Type 0 where
  pub lookups : (q : ℕ) → q ≢ 0 → lookup h'.ht q ≡ lookup h.ht q
  pub sizes : clht_size h'.ht ≡ clht_size h.ht
  pub valid : IsTable h'.ht
  pub unlocked : h'.resize_lock ≡ lock_free

Shrunk-Grown : (h h' h'' : Clht) → Shrunk h h' → Grown h' h'' → Shrunk h h''
Shrunk-Grown h h' h'' s g = record {
  lookups = λ q nz. g.lookups q nz ∙ s.lookups q nz;
  sizes = g.sizes ∙ s.sizes;
  valid = g.valid;
  unlocked = g.unlocked;
}

module _ (before : ℕ → ℕ) (h : Clht) (v : IsTable h.ht) where
  Moved-Shrunk :
      (n : ℕ) (t : Table) (r : (ℕ → Locked) × Table)
      → IsNew n t
      → Moved before h.ht v h.ht.num_buckets t r
      → Shrunk h (published h v r.0 r.1)
  unfolding clht_size
  Moved-Shrunk n t (table, new) fresh m =
      let here = moved before h.ht v h.ht.num_buckets in
      record {
        lookups = λ q nz.
            m.copied.lookups q nz
            ∙ ap (or_else (here q)) (fresh.absent q nz)
            ∙ or_else-none (here q)
            ∙ all_moved h v before q;
        sizes = omega (arith, m.copied.sizes, fresh.sizes);
        valid = m.copied.valid;
        unlocked = refl;
      }

  -- The end of a resize, with the call of `ht_status` that the new table may ask for.
  publish-Shrunk :
      (fuel : ℕ) (table : ℕ → Locked) (new : Table)
      → 29 ≤ fuel
      → Shrunk h (published h v table new)
      → InBounds new
      → (h' : Clht) × (publish
            (once_more before (suc fuel))
            (record h { resize_lock = taken })
            table
            new
          ≡ some h')
        × Shrunk h h'
  unfolding publish
  publish-Shrunk fuel table new le s b =
      let h' = published h v table new in
      let again = once_more before (suc fuel) in
      elim (Bool-cases (leb new.num_expands_threshold new.num_expands)) [
        | inl full ↦
            let (h'', eq, g, free) =
              ht_status_lem before fuel h' s.valid true false b s.unlocked
                (and-false (not (h'.status_lock == 0))) (enough fuel new s.valid le b.sizes) in
            (
              h'',
              ap (λ b. if b then again h' else some h') full ∙ ap (λ o. o >>= λ r. some r.1) eq,
              Shrunk-Grown h h' h'' s g,
            )
        | inr rest ↦ (h', ap (λ b. if b then again h' else some h') rest, s)
      ]

  -- A table whose lock for a resize is free, and which has less than 2 ^ 31 buckets and less than
  -- 2 ^ 30 entries, is asked to shrink, with fuel for 30 calls of `ht_status` after it. If there are
  -- less than 8 buckets, `ht_resize_pes` reads through NULL. Else it returns 1, leaves the lock free,
  -- and all keys but 0 have the values that they had, and the size is the same.
  pub ht_resize_pes-shrink :
      (fuel by : ℕ)
      → 29 ≤ fuel
      → h.resize_lock ≡ lock_free
      → h.ht.num_buckets < 2 ^ 31
      → clht_size h.ht < 2 ^ 30
      → (h.ht.num_buckets < 8
          → ht_resize_pes (once_more before (suc fuel)) before h false by ≡ none)
        × (8 ≤ h.ht.num_buckets
            → (h' : Clht) × (ht_resize_pes (once_more before (suc fuel)) before h false by
                ≡ some (1, h'))
              × Shrunk h h')
  ht_resize_pes-shrink fuel by le unlocked small sizes =
      let n = h.ht.num_buckets / 8 in
      let again = once_more before (suc fuel) in
      let word : u32 n ≡ n = omega (arith, small) in
      let run =
        ht_resize_pes-unlocked again before h false by unlocked
        ∙ ap (λ n. resize_into again before h (clht_hashtable_create n)) word in
      (
        λ few.
            let none_left : n ≡ 0 = omega (arith, few) in
            run
            ∙ ap (λ n. resize_into again before h (clht_hashtable_create n)) none_left
            ∙ ap (resize_into again before h) no_table,
        λ many.
            let (k, power) = eighth v.log h.ht.num_buckets v.power many in
            let (made, fresh) = clht_hashtable_create_lem k n (h.ht.version + 1) power in
            let t = fresh_table n (h.ht.version + 1) in
            let (r, copied, m) =
              copy_below_lem before h.ht v h.ht.num_buckets (omega arith) t fresh.valid
                (λ q nz there. fresh.absent q nz) in
            let s = Moved-Shrunk n t r fresh m in
            let b : InBounds r.1 = record {
              buckets = omega (arith, m.copied.buckets, fresh.buckets, small);
              sizes = omega (arith, s.sizes, sizes);
            } in
            let (h', eq, done) = publish-Shrunk fuel r.0 r.1 le s b in
            (
              h',
              run
                  ∙ ap (resize_into again before h) made
                  ∙ ap (end_with again h) copied
                  ∙ ap one_resize eq,
              done,
            ),
      )
