-- ===== src/LfHash/Relocate.antt =====
-- OurTable/src/LFHash.h: `Relocate`, which moves a reservation `H` or fewer slots back.
pub mod Laws
pub mod Stuck
use lock_free_hop_scotch.Prelude.{
  ℕ, zero, suc, ◌+◌, true, false, ◌&&◌, ◌||◌, ltb, leb, if◌then◌else◌, sub32,
}
use lock_free_hop_scotch.LfHash.Run.{Run, ok, exited, out_of_fuel, resize, ◌>>=◌}
use lock_free_hop_scotch.LfHash.Entry.{clear_tag, with_tag}
use lock_free_hop_scotch.LfHash.Table.{hop, compare_exchange, get_bucket}

-- The inner loop, while `HopDist >= H && Replace < Loc`, over `Replace` and `HopDist`.
unfoldable pub advance : ℕ → (ℕ → ℕ) → ℕ → ℕ → ℕ → ℕ → Run (ℕ × ℕ)
advance seed slots loc zero replace dist = out_of_fuel
advance seed slots loc (suc fuel) replace dist = elim (leb hop dist && ltb replace loc) [
  | true ↦
      advance seed slots loc fuel (replace + 1) (sub32 loc (get_bucket seed slots (replace + 1)))
  | false ↦ ok (replace, dist)
]

-- The outer loop. It ends with the slot whose key is marked as being moved. `ind` is the slot
-- that is looked at first in a round, which after a lost exchange is not `replace`.
unfoldable pub claim : ℕ → (ℕ → ℕ) → ℕ → ℕ → ℕ → ℕ → Run (ℕ × (ℕ → ℕ))
claim seed slots loc zero replace ind = out_of_fuel
claim seed slots loc (suc fuel) replace ind =
    advance seed slots loc (hop + 1) replace (sub32 loc (get_bucket seed slots ind))
    >>= λ (r, dist).
        let x = compare_exchange slots r (clear_tag (slots r)) (with_tag 1 (clear_tag (slots r))) in
        let rest : Run (ℕ × (ℕ → ℕ)) = claim seed slots loc fuel r (r + 1) in
        if ltb hop dist || leb loc r
        then exited resize
        else (if x.won then ok (r, x.after) else rest)

-- The three exchanges after the loop: the key goes to `loc`, the reservation to `replace`.
unfoldable pub move_key : (ℕ → ℕ) → ℕ → ℕ → ℕ → (ℕ → ℕ)
move_key slots loc replace entry =
    let filled =
      (compare_exchange slots loc (with_tag 3 (slots loc)) (clear_tag (slots replace))).after in
    (compare_exchange filled replace (with_tag 1 (filled replace)) entry).after

unfoldable pub relocate : ℕ → ℕ → (ℕ → ℕ) → ℕ → ℕ → Run (ℕ × (ℕ → ℕ))
relocate fuel seed slots loc entry =
    claim seed slots loc fuel (sub32 loc hop) (sub32 loc hop) >>= λ (replace, claimed).
    ok (replace, move_key claimed loc replace entry)
