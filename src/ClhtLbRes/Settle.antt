-- ===== src/ClhtLbRes/Settle.antt =====
-- OtherTables/src/clht/src/clht_lb_res.c: how `ht_status` makes a table grow, and that it stops.
use lock_free_hop_scotch.Prelude.{
  ℕ, zero, suc, ◌+◌, ◌*◌, ◌^◌, ◌<◌, ◌≤◌, ◌≡◌, Bool, true, false, not, ◌&&◌, [], Option, none, some,
  ◌==◌, if◌then◌else◌, refl, sym, ap, subst, ◌∙◌, arith,
}
use lock_free_hop_scotch.Prelude.Options.{◌>>=◌}
use native.Mathlib.Nat.{one-le-pow, mul-le-mul_right, mul_assoc}
use lock_free_hop_scotch.Prelude.{two_pow-suc}
use lock_free_hop_scotch.ClhtLbRes.Powers.{two_pow-add}
use lock_free_hop_scotch.ClhtLbRes.Table.{Table, clht_size, lock_free}
use lock_free_hop_scotch.ClhtLbRes.Status.{Clht, taken, expands_max, growth, grown, ht_status}
use lock_free_hop_scotch.ClhtLbRes.Change.{IsTable}
use lock_free_hop_scotch.ClhtLbRes.Grow.{Grown, Again, ht_resize_pes_lem}
use lock_free_hop_scotch.ClhtLbRes.Factor.{GrowsBy, Wants, growth_lem, InBounds}

pub one_bucket : (t : Table) → IsTable t → 1 ≤ t.num_buckets
one_bucket t v = subst (λ n. 1 ≤ n) (sym v.power) (one-le-pow v.log 2 (omega arith))

module _ (before : ℕ → ℕ) where
  -- The call of `ht_status` at the end of a resize.
  abbrev pub once_more : ℕ → Clht → Option Clht
  once_more fuel h = ht_status fuel before h true false >>= λ r. some r.1

  -- What `ht_status` leaves.
  abbrev pub Settles : ℕ → Clht → Bool → Bool → Type 0
  Settles fuel h increase print =
      (h' : Clht) × (ht_status fuel before h increase print ≡ some (clht_size h.ht, h'))
      × Grown h h'
      × (h'.status_lock ≡ lock_free)

  -- The lock of `ht_status` does not matter.
  relock :
      (h h' : Clht)
      → Grown (record h { status_lock = taken }) h'
      → Grown h (record h' { status_lock = lock_free })
  relock h h' g = record {
    lookups = g.lookups;
    sizes = g.sizes;
    valid = g.valid;
    unlocked = g.unlocked;
    larger = g.larger;
    replaced = g.replaced;
  }

  grown_lem :
      (again : Clht → Option Clht) (h : Clht) (v : IsTable h.ht) (by : Option ℕ)
      → h.resize_lock ≡ lock_free
      → Wants h.ht.num_buckets by
      → ((by : ℕ) → GrowsBy h.ht.num_buckets by → Again h v before again (by * h.ht.num_buckets))
      → (h' : Clht) × (grown again before h by ≡ some h') × Grown h h'
  unfolding grown
  grown_lem again h v none unlocked g next = (
    h,
    refl,
    record {
      lookups = λ q nz. refl;
      sizes = refl;
      valid = v;
      unlocked = unlocked;
      larger = omega arith;
      replaced = ([], refl, refl);
    },
  )
  grown_lem again h v (some by) unlocked g next =
      let power : by * h.ht.num_buckets ≡ 2 ^ (g.log + v.log) =
        ap (λ a. a * h.ht.num_buckets) g.power
        ∙ ap (λ a. 2 ^ g.log * a) v.power
        ∙ sym (two_pow-add g.log v.log) in
      let le : h.ht.num_buckets ≤ by * h.ht.num_buckets =
        omega (arith, mul-le-mul_right {m = 2} {n = by} h.ht.num_buckets g.twice) in
      let (h', eq, grown) =
        ht_resize_pes_lem h v before again by (g.log + v.log) power g.fits le unlocked
          (next by g) in
      (h', ap (λ o. o >>= λ r. some r.1) eq, grown)

  -- A step of `ht_status`, for an answer to the call at the end of a resize.
  status_step :
      (fuel : ℕ) (h : Clht) (v : IsTable h.ht) (increase print : Bool)
      → InBounds h.ht
      → h.resize_lock ≡ lock_free
      → (not (h.status_lock == 0) && not increase) ≡ false
      → ((by : ℕ)
          → GrowsBy h.ht.num_buckets by
          → Again
              (record h { status_lock = taken })
              v
              before
              (once_more fuel)
              (by * h.ht.num_buckets))
      → Settles (suc fuel) h increase print
  unfolding ht_status
  status_step fuel h v increase print b unlocked test next =
      let size = clht_size h.ht in
      let h1 = record h { status_lock = taken } in
      let by = growth size h.ht.num_buckets (expands_max h.ht.table h.ht.num_buckets) increase in
      let wants =
        growth_lem size h.ht.num_buckets (expands_max h.ht.table h.ht.num_buckets) increase
          (one_bucket h.ht v) b.buckets b.sizes in
      let (h2, eq, g) =
        grown_lem (once_more fuel) h1 v (if print then none else by) unlocked
          (unless print h.ht.num_buckets by wants) next in
      let finish : Option Clht → Option (ℕ × Clht) =
        λ o. o >>= λ h. some (size, record h { status_lock = lock_free }) in
      (
        record h2 { status_lock = lock_free },
        ap
              (λ b.
                if b
                then some (0, h1)
                else finish (grown (once_more fuel) before h1 (if print then none else by)))
              test
            ∙ ap finish eq,
        relock h h2 g,
        refl,
      )
    where
      unless :
          (print : Bool) (n : ℕ) (by : Option ℕ) → Wants n by → Wants n (if print then none else by)
      unless true n by w = tt
      unless false n by w = w

  -- In a table of 2 ^ 30 buckets at most and less than 2 ^ 30 entries, where no bucket is locked, the
  -- lock for resizes is free, and the lock of `ht_status` is free or a growth is asked for,
  -- `ht_status` ends with at most fuel + 1 calls of itself if the size is below the number of
  -- buckets times 2 ^ (fuel + 1), and returns the size. It leaves no lock held, all keys but 0
  -- with their values, the same size, no fewer buckets, and each table that it has replaced once
  -- among the released ones.
  pub ht_status_lem :
      (fuel : ℕ) (h : Clht)
      → IsTable h.ht
      → (increase print : Bool) → InBounds h.ht
      → h.resize_lock ≡ lock_free
      → (not (h.status_lock == 0) && not increase) ≡ false
      → clht_size h.ht < h.ht.num_buckets * 2 ^ suc fuel
      → Settles (suc fuel) h increase print
  ht_status_lem zero h v increase print b unlocked test room =
      status_step zero h v increase print b unlocked test (λ by g h' r full. absurd (
        omega (
          arith,
          full,
          r.kept.sizes,
          room,
          mul-le-mul_right {m = 2} {n = by} h.ht.num_buckets g.twice,
        )))
  ht_status_lem (suc fuel) h v increase print b unlocked test room =
      status_step (suc fuel) h v increase print b unlocked test (λ by g h' r full.
        let n = h.ht.num_buckets in
        let more = r.buckets in
        let same = r.kept.sizes in
        let room' : clht_size h'.ht < h'.ht.num_buckets * 2 ^ suc fuel = omega (
          arith,
          room,
          same,
          two_pow-suc n (suc fuel),
          mul_assoc 2 n (2 ^ suc fuel),
          ap (λ n. n * 2 ^ suc fuel) more,
          mul-le-mul_right {m = 2 * n} {n = by * n} (2 ^ suc fuel)
              (mul-le-mul_right {m = 2} {n = by} n g.twice),
        ) in
        let (h'', eq, g', free) =
          ht_status_lem fuel h' r.kept.valid true false
            (record {
              buckets = omega (arith, full, same, more, b.sizes);
              sizes = omega (arith, same, b.sizes);
            })
            r.kept.unlocked (and-false (not (h'.status_lock == 0))) room' in
        (h'', ap (λ o. o >>= λ r. some r.1) eq, g'))
    where
      and-false : (b : Bool) → (b && false) ≡ false
      and-false true = refl
      and-false false = refl
