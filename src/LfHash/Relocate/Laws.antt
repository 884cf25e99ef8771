-- ===== src/LfHash/Relocate/Laws.antt =====
-- OurTable/src/LFHash.h: what one `Relocate` does to a table in which one slot is reserved.
use lock_free_hop_scotch.Prelude.{
  ℕ, zero, suc, ◌+◌, ◌-◌, ◌*◌, ◌^◌, ◌≤◌, ◌<◌, true, ◌&&◌, ◌||◌, ◌≡◌, ◌≢◌, refl, ◌⊎◌, inl, inr,
  arith, Bool-cases, ltb, leb, update, sub32, fun_ext,
}
use lock_free_hop_scotch.LfHash.Entry.{
  clear_tag, with_tag, clear_tag_lem, with_tag_lem, get_key_lem,
}
use lock_free_hop_scotch.LfHash.Run.{ok, exited, resize, ◌>>=◌}
use lock_free_hop_scotch.LfHash.Table.{hop, compare_exchange, exchange_won, get_bucket}
use lock_free_hop_scotch.LfHash.Table.Contains.{Near}
use lock_free_hop_scotch.LfHash.Relocate.{advance, claim, move_key, relocate}

-- `advance` stops at or before `loc`, and before `loc` only at a slot whose key may go to `loc`.
record Stop (seed : ℕ) (slots : ℕ → ℕ) (loc replace : ℕ) (r : ℕ × ℕ) : Type 0 where
  lower : replace ≤ r.0
  upper : r.0 ≤ loc
  near : r.0 < loc → r.1 < hop
  dist : r.1 ≡ sub32 loc (get_bucket seed slots r.0)

advance_lem :
    (seed : ℕ) (slots : ℕ → ℕ) (loc fuel replace dist : ℕ)
    → replace ≤ loc
    → loc < replace + fuel
    → dist ≡ sub32 loc (get_bucket seed slots replace)
    → (r : ℕ × ℕ) × (advance seed slots loc fuel replace dist ≡ ok r)
      × Stop seed slots loc replace r
unfolding advance
advance_lem seed slots loc zero replace dist lo hi e = absurd (omega arith)
advance_lem seed slots loc (suc fuel) replace dist lo hi e =
    elim (Bool-cases (leb hop dist && ltb replace loc)) [
      | inl go ↦
          let (r, run, s) =
            advance_lem seed slots loc fuel (replace + 1)
              (sub32 loc (get_bucket seed slots (replace + 1))) (ground arith) (omega arith) refl in
          (
            r,
            rw (go, advance) run,
            record {
              lower = omega (arith, s.lower);
              upper = s.upper;
              near = s.near;
              dist = s.dist;
            },
          )
      | inr stop ↦ (
        (replace, dist),
        rw (stop, advance),
        record { lower = omega arith; upper = lo; near = ground arith; dist = e },
      )
    ]

-- One slot holds a reservation; each other is free or holds a plain key near its home.
pub record Reserved (seed : ℕ) (slots : ℕ → ℕ) (loc entry : ℕ) : Type 0 where
  pub holder : slots loc ≡ entry
  pub others : (i : ℕ) → i ≢ loc → (slots i ≡ 0) ⊎ Near seed (slots i) i

-- The array after a move: the key of slot `r` goes to `loc`, the reservation to `r`.
abbrev pub moved : (ℕ → ℕ) → ℕ → ℕ → ℕ → (ℕ → ℕ)
moved slots loc r entry = update (update slots loc (slots r)) r entry

module _ (seed : ℕ) (slots : ℕ → ℕ) (loc key : ℕ) (small : key < 2 ^ 32)
    (res : Reserved seed slots loc (key + 3 * 2 ^ 62)) where
  abbrev entry : ℕ
  entry = key + 3 * 2 ^ 62

  plain : (r : ℕ) → r < loc → slots r < 2 ^ 32
  plain r lt = ground (arith, res.others r)

  -- The exchange of `claim` at a plain key is won.
  claim-won :
      (r : ℕ)
      → r < loc
      → compare_exchange slots r (clear_tag (slots r)) (with_tag 1 (clear_tag (slots r)))
        ≡ record { won = true; after = update slots r (slots r + 2 ^ 62); seen = slots r }
  claim-won r lt =
      let same : clear_tag (slots r) ≡ slots r =
        omega (arith, clear_tag_lem (slots r), plain r lt) in
      let mark : with_tag 1 (slots r) ≡ slots r + 2 ^ 62 =
        omega (arith, with_tag_lem 1 (slots r) (omega arith), plain r lt) in
      rw (same, mark) (exchange_won slots r (slots r) _ refl)

  move_key_lem :
      (r : ℕ)
      → r < loc
      → move_key (update slots r (slots r + 2 ^ 62)) loc r entry ≡ moved slots loc r entry
  unfolding move_key
  move_key_lem r lt =
      let marked = update slots r (slots r + 2 ^ 62) in
      let filled = update marked loc (slots r) in
      let at_loc : marked loc ≡ with_tag 3 (marked loc) =
        ground (arith, with_tag_lem 3 (marked loc), res.holder) in
      let key_of : clear_tag (marked r) ≡ slots r =
        ground (arith, clear_tag_lem (marked r), plain r lt) in
      let at_r : filled r ≡ with_tag 1 (filled r) =
        ground (arith, with_tag_lem 1 (filled r), plain r lt) in
      rw
        (
          move_key,
          key_of,
          exchange_won marked loc (with_tag 3 (marked loc)) (slots r) at_loc,
          exchange_won filled r (with_tag 1 (filled r)) entry at_r,
        )
        (fun_ext λ j. ground arith)

  moved-Reserved :
      (r : ℕ)
      → r < loc
      → sub32 loc (get_bucket seed slots r) < hop
      → loc < 2 ^ 32
      → Reserved seed (moved slots loc r entry) r entry
  unfolding get_bucket
  moved-Reserved r lt near fits = record {
    holder = ground arith;
    others = λ i ne. ground (arith, res.others i, res.others r, get_key_lem (slots r));
  }

-- What `relocate` returns: a slot at most `hop` before `loc`, and the array after the move.
pub record Relocated (seed : ℕ) (slots : ℕ → ℕ) (loc entry r : ℕ) : Type 0 where
  pub back : r < loc
  pub within : loc ≤ r + hop
  pub again : Reserved seed (moved slots loc r entry) r entry

-- The two ends of `relocate`.
abbrev pub RelocateEnds : (fuel seed : ℕ) (slots : ℕ → ℕ) (loc entry : ℕ) → Type 0
RelocateEnds fuel seed slots loc entry =
    (relocate fuel seed slots loc entry ≡ exited resize)
    ⊎ ((r : ℕ) × (relocate fuel seed slots loc entry ≡ ok (r, moved slots loc r entry))
        × Relocated seed slots loc entry r)

relocate_at :
    (fuel seed : ℕ) (slots : ℕ → ℕ) (loc key r dist : ℕ)
    → key < 2 ^ 32
    → hop ≤ loc
    → loc < 2 ^ 32
    → Reserved seed slots loc (key + 3 * 2 ^ 62)
    → advance seed slots loc (hop + 1) (loc - hop) (sub32 loc (get_bucket seed slots (loc - hop)))
      ≡ ok (r, dist)
    → Stop seed slots loc (loc - hop) (r, dist)
    → RelocateEnds (suc fuel) seed slots loc (key + 3 * 2 ^ 62)
unfolding relocate claim
relocate_at fuel seed slots loc key r dist small lo fits res run stop =
    let from : sub32 loc hop ≡ loc - hop = omega arith in
    elim (Bool-cases (ltb hop dist || leb loc r)) [
      | inl out ↦ inl (rw (from, run, out))
      | inr go ↦
          let lt : r < loc = ground arith in
          inr (
            r,
            rw (from, run, ◌>>=◌, go, claim-won seed slots loc key small res r lt)
                (rw (move_key_lem seed slots loc key small res r lt)),
            record {
              back = lt;
              within = omega (arith, stop.lower);
              again =
                  moved-Reserved seed slots loc key small res r lt (rw stop.dist at (stop.near lt))
                    fits;
            },
          )
    ]

-- With fuel for at least one round, and with one slot, not below the first 16, reserved for a 32-bit
-- key while each other slot is free or holds a key near its home, `relocate` ends the program or
-- moves one key into the reserved slot.
pub relocate_lem :
    (fuel seed : ℕ) (slots : ℕ → ℕ) (loc key : ℕ)
    → key < 2 ^ 32
    → hop ≤ loc
    → loc < 2 ^ 32
    → Reserved seed slots loc (key + 3 * 2 ^ 62)
    → RelocateEnds (suc fuel) seed slots loc (key + 3 * 2 ^ 62)
relocate_lem fuel seed slots loc key small lo fits res =
    let (r, run, stop) =
      advance_lem seed slots loc (hop + 1) (loc - hop)
        (sub32 loc (get_bucket seed slots (loc - hop))) (omega arith) (omega arith) refl in
    relocate_at fuel seed slots loc key r.0 r.1 small lo fits res run stop
