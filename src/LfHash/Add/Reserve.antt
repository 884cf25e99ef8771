-- ===== src/LfHash/Add/Reserve.antt =====
-- OurTable/src/LFHash.h: the probing loops of `add`.
use lock_free_hop_scotch.Prelude.{
  ℕ, zero, suc, ◌+◌, ◌≤◌, ◌<◌, ◌&&◌, not, ◌≡◌, ◌≢◌, refl, inl, inr, arith, Bool-cases, ltb, ◌==◌,
  update,
}
use lock_free_hop_scotch.LfHash.Run.{ok, ◌>>=◌}
use lock_free_hop_scotch.LfHash.Table.{add_range, exchange_won, exchange_lost}
use lock_free_hop_scotch.LfHash.Insert.Laws.{FirstFree}
use lock_free_hop_scotch.LfHash.Add.{skip_taken, reserve}

-- What is known at the end of `skip_taken`, started at `trails` and `slot`.
record Skipped (slots : ℕ → ℕ) (trails slot : ℕ) (r : ℕ × ℕ) : Type 0 where
  lower : trails < r.0
  upper : r.0 ≤ add_range + 1
  steps : r.1 + trails + 1 ≡ slot + r.0
  found : r.0 ≤ add_range → slots r.1 ≡ 0
  taken : (l : ℕ) → slot ≤ l → l < r.1 → slots l ≢ 0

skip_taken_lem :
    (slots : ℕ → ℕ) (fuel trails slot : ℕ)
    → trails ≤ add_range
    → add_range < fuel + trails
    → (r : ℕ × ℕ) × (skip_taken slots fuel trails slot ≡ ok r) × Skipped slots trails slot r
unfolding skip_taken
skip_taken_lem slots zero trails slot le enough = absurd (omega arith)
skip_taken_lem slots (suc fuel) trails slot le enough =
    elim (Bool-cases (ltb trails add_range && not (slots slot == 0))) [
      | inl go ↦
          let ne : slots slot ≢ 0 = ground arith in
          let (r, run, s) =
            skip_taken_lem slots fuel (trails + 1) (slot + 1) (ground arith) (omega arith) in
          (
            r,
            rw (go, skip_taken) run,
            record {
              lower = omega (arith, s.lower);
              upper = s.upper;
              steps = omega (arith, s.steps);
              found = s.found;
              taken = λ l a b. ground (arith, s.taken l, ne);
            },
          )
      | inr stop ↦ (
        (trails + 1, slot),
        rw (stop, skip_taken),
        record {
          lower = omega arith;
          upper = omega arith;
          steps = omega arith;
          found = λ h. ground arith;
          taken = λ l a b. absurd (omega arith);
        },
      )
    ]

-- What is known at the end of the probing: `trails`, `SlotIndex` and the array.
pub record Reserves (slots : ℕ → ℕ) (entry base : ℕ) (r : ℕ × ℕ × (ℕ → ℕ)) : Type 0 where
  pub reach : r.1 + 1 ≡ base + r.0
  pub first : r.0 < add_range → FirstFree slots base r.1
  pub after : r.0 < add_range → r.2 ≡ update slots r.1 entry
  pub beyond : add_range ≤ r.0 → (l : ℕ) → base ≤ l → l + 1 < base + add_range → slots l ≢ 0

-- With fuel for at least one round, the probing ends, in one round of its outer loop: before the limit of `trails`, with the first
-- free slot from `base` on reserved; else with the 255 slots from `base` on all taken.
pub reserve_lem :
    (fuel : ℕ) (slots : ℕ → ℕ) (entry base : ℕ)
    → (r : ℕ × ℕ × (ℕ → ℕ)) × (reserve (suc fuel) slots entry 0 0 base ≡ ok r)
      × Reserves slots entry base r
unfolding reserve
reserve_lem fuel slots entry base =
    let (r, run, s) = skip_taken_lem slots (add_range + 1) 0 base (omega arith) (omega arith) in
    at r.0 r.1 run s
  where
    at :
        (trails slot : ℕ)
        → skip_taken slots (add_range + 1) 0 base ≡ ok (trails, slot)
        → Skipped slots 0 base (trails, slot)
        → (r : ℕ × ℕ × (ℕ → ℕ)) × (reserve (suc fuel) slots entry 0 0 base ≡ ok r)
          × Reserves slots entry base r
    at trails slot run s = elim (Bool-cases (slots slot == 0)) [
      | inl e ↦
          let free : slots slot ≡ 0 = ground arith in
          (
            (trails, slot, update slots slot entry),
            rw (run, ◌>>=◌, exchange_won slots slot 0 entry free),
            record {
              reach = omega (arith, s.steps);
              first = λ h. record {
                lower = omega (arith, s.lower, s.steps);
                free = free;
                taken = s.taken;
              };
              after = λ h. refl;
              beyond = λ h l a b. s.taken l a (omega (arith, s.steps));
            },
          )
      | inr e ↦
          let busy : slots slot ≢ 0 = ground arith in
          let last : trails ≡ add_range + 1 = ground (arith, s.found, s.upper) in
          (
            (trails, slot, slots),
            rw (run, ◌>>=◌, exchange_lost slots slot 0 entry busy, last),
            record {
              reach = omega (arith, s.steps);
              first = λ h. absurd (omega arith);
              after = λ h. absurd (omega arith);
              beyond = λ h l a b. s.taken l a (omega (arith, s.steps));
            },
          )
    ]
