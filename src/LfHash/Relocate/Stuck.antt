-- ===== src/LfHash/Relocate/Stuck.antt =====
-- OurTable/src/LFHash.h: the outer loop of `Relocate` at a slot that stays tagged.
use lock_free_hop_scotch.Prelude.{
  ℕ, zero, suc, ◌+◌, ◌-◌, ◌^◌, ◌≤◌, ◌<◌, ◌≡◌, ◌≢◌, refl, ap, ◌⊎◌, inr, arith, ltb, leb, ◌||◌, ◌&&◌,
  false, true, ℕ_discrete, sub32,
}
use lock_free_hop_scotch.LfHash.Run.{out_of_fuel, ok, ◌>>=◌}
use lock_free_hop_scotch.LfHash.Entry.{clear_tag, with_tag, clear_tag_lem}
use lock_free_hop_scotch.LfHash.Table.{hop, exchange_lost, get_bucket}
use lock_free_hop_scotch.LfHash.Relocate.{advance, claim, relocate}

module _ (seed : ℕ) (slots : ℕ → ℕ) (loc r : ℕ) (before : r < loc) (tagged : 2 ^ 62 ≤ slots r)
    (near : sub32 loc (get_bucket seed slots r) < hop)
    (next_near : sub32 loc (get_bucket seed slots (r + 1)) < hop) where
  -- A round from `ind` = `r` or `r + 1` loses its exchange at `r`, and goes on with `r + 1`.
  claim_stuck :
      (fuel ind : ℕ) → (ind ≡ r) ⊎ (ind ≡ r + 1) → claim seed slots loc fuel r ind ≡ out_of_fuel
  unfolding claim advance
  claim_stuck zero ind which = refl
  claim_stuck (suc fuel) ind which =
      let dist = sub32 loc (get_bucket seed slots ind) in
      let close : dist < hop = ground arith in
      let stop : (leb hop dist && ltb r loc) ≡ false = ground arith in
      let go : (ltb hop dist || leb loc r) ≡ false = ground arith in
      let differs : slots r ≢ clear_tag (slots r) = omega (arith, clear_tag_lem (slots r)) in
      let lost =
        exchange_lost slots r (clear_tag (slots r)) (with_tag 1 (clear_tag (slots r))) differs in
      rw (stop, ◌>>=◌, go, lost) (claim_stuck fuel (r + 1) (inr refl))

  advance_far :
      (fuel i : ℕ)
      → i ≤ r
      → r < i + fuel
      → ((j : ℕ) → i ≤ j → j < r → hop ≤ sub32 loc (get_bucket seed slots j))
      → advance seed slots loc fuel i (sub32 loc (get_bucket seed slots i))
        ≡ ok (r, sub32 loc (get_bucket seed slots r))
  unfolding advance
  advance_far zero i le enough far = absurd (omega arith)
  advance_far (suc fuel) i le enough far = elim (ℕ_discrete i r) [
    | yes e ↦
        let stop : (leb hop (sub32 loc (get_bucket seed slots i)) && ltb i loc) ≡ false =
          ground arith in
        rw (advance, stop) (ap (λ (k : ℕ). ok (k, sub32 loc (get_bucket seed slots k))) e)
    | no ne ↦
        let go : (leb hop (sub32 loc (get_bucket seed slots i)) && ltb i loc) ≡ true =
          ground (arith, far i) in
        rw (advance, go)
          (advance_far fuel (i + 1) (omega arith) (omega arith) (λ j a b. far j (omega arith) b))
  ]

  -- The first round comes to `r` from the first slot that it looks at.
  claim_stuck_far :
      (fuel i : ℕ)
      → i ≤ r
      → r ≤ i + hop
      → ((j : ℕ) → i ≤ j → j < r → hop ≤ sub32 loc (get_bucket seed slots j))
      → claim seed slots loc fuel i i ≡ out_of_fuel
  unfolding claim
  claim_stuck_far zero i le enough far = refl
  claim_stuck_far (suc fuel) i le enough far =
      let go : (ltb hop (sub32 loc (get_bucket seed slots r)) || leb loc r) ≡ false =
        ground arith in
      let differs : slots r ≢ clear_tag (slots r) = omega (arith, clear_tag_lem (slots r)) in
      let lost =
        exchange_lost slots r (clear_tag (slots r)) (with_tag 1 (clear_tag (slots r))) differs in
      rw (advance_far (hop + 1) i le (omega arith) far, ◌>>=◌, go, lost)
        (claim_stuck fuel (r + 1) (inr refl))

-- Let `r` be the first of the 16 slots before the reservation at `loc` whose key has its home less
-- than 16 slots before `loc`. If the entry of `r` is tagged, and the key of the next slot is as
-- near, then `relocate`, run alone, comes to no end whatever its fuel: it tries `r` again and
-- again, and waits for the thread that tagged it.
pub relocate_stuck :
    (fuel seed : ℕ) (slots : ℕ → ℕ) (loc r entry : ℕ)
    → hop ≤ loc
    → loc < 2 ^ 32
    → loc ≤ r + hop
    → r < loc
    → ((j : ℕ) → loc - hop ≤ j → j < r → hop ≤ sub32 loc (get_bucket seed slots j))
    → 2 ^ 62 ≤ slots r
    → sub32 loc (get_bucket seed slots r) < hop
    → sub32 loc (get_bucket seed slots (r + 1)) < hop
    → relocate fuel seed slots loc entry ≡ out_of_fuel
unfolding relocate
relocate_stuck fuel seed slots loc r entry lo fits within before far tagged near next_near =
    let from : sub32 loc hop ≡ loc - hop = omega arith in
    rw (
      from,
      claim_stuck_far seed slots loc r before tagged near next_near fuel (loc - hop) (omega arith)
          (omega arith) far,
    )
