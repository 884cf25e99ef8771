-- ===== src/LfHash/Add/Pull.antt =====
-- OurTable/src/LFHash.h: the loop of `add` that pulls its reservation towards the key's home.
use lock_free_hop_scotch.Prelude.{
  ℕ, zero, suc, ◌+◌, ◌*◌, ◌^◌, ◌≤◌, ◌<◌, false, ◌≡◌, ◌≢◌, ◌⊎◌, ◌↔◌, inl, inr, arith, Bool-cases,
  ltb, ◌==◌, sub32,
}
use lock_free_hop_scotch.LfHash.Run.{ok, exited, resize}
use lock_free_hop_scotch.LfHash.Table.{hop}
use lock_free_hop_scotch.LfHash.Table.Contains.{IsKey, Holds}
use lock_free_hop_scotch.LfHash.Relocate.Laws.{Reserved, moved, relocate_lem}
use lock_free_hop_scotch.LfHash.Add.{pull_back}

-- Each key stands in one slot at most.
abbrev pub IsUnique : (ℕ → ℕ) → Type 0
IsUnique slots = (k i j : ℕ) → IsKey k → slots i ≡ k → slots j ≡ k → i ≡ j

-- The same keys, and a key that stood once still does.
pub record SameKeys (slots slots' : ℕ → ℕ) : Type 0 where
  pub holds : (k : ℕ) → IsKey k → Holds slots k ↔ Holds slots' k
  pub unique : IsUnique slots → IsUnique slots'

pub SameKeys-trans : {a b c : ℕ → ℕ} → SameKeys a b → SameKeys b c → SameKeys a c
SameKeys-trans p q = record {
  holds =
      λ k h. (λ x. (q.holds k h).0 ((p.holds k h).0 x), λ x. (p.holds k h).1 ((q.holds k h).1 x));
  unique = λ u. q.unique (p.unique u);
}

module _ (slots : ℕ → ℕ) (loc r entry : ℕ) (big : 2 ^ 62 ≤ entry) (at : slots loc ≡ entry)
    (ne : r ≢ loc) where
  moved_to : (k : ℕ) → IsKey k → Holds slots k → Holds (moved slots loc r entry) k
  moved_to k h (i, e) = elim (Bool-cases (i == r)) [
    | inl same ↦ (loc, ground arith)
    | inr other ↦ (i, ground (arith, h.small))
  ]

  moved_from : (k : ℕ) → IsKey k → Holds (moved slots loc r entry) k → Holds slots k
  moved_from k h (i, e) = elim (Bool-cases (i == loc)) [
    | inl same ↦ (r, ground (arith, h.small))
    | inr other ↦ (i, ground (arith, h.small))
  ]

  moved-SameKeys : SameKeys slots (moved slots loc r entry)
  moved-SameKeys = record {
    holds = λ k h. (moved_to k h, moved_from k h);
    unique = λ u k i j h ei ej. ground (arith, h.small, u k i j h, u k r j h, u k i r h);
  }

-- The two ends of `pull_back`.
pub record Pulled (seed : ℕ) (slots : ℕ → ℕ) (base entry : ℕ) (r : ℕ × (ℕ → ℕ)) : Type 0 where
  pub above : base ≤ r.0
  pub within : r.0 ≤ base + hop
  pub reserved : Reserved seed r.1 r.0 entry
  pub same : SameKeys slots r.1

abbrev pub PullEnds : (fuel seed : ℕ) (slots : ℕ → ℕ) (base entry slot : ℕ) → Type 0
PullEnds fuel seed slots base entry slot =
    (pull_back fuel seed slots base entry slot ≡ exited resize)
    ⊎ ((r : ℕ × (ℕ → ℕ)) × (pull_back fuel seed slots base entry slot ≡ ok r)
        × Pulled seed slots base entry r)

-- The loop ends, since each round takes the reservation further down, and not below `base`.
pub pull_back_lem :
    (fuel seed : ℕ) (slots : ℕ → ℕ) (base key slot : ℕ)
    → key < 2 ^ 32
    → base + hop < slot
    → slot ≤ base + fuel
    → slot < 2 ^ 32
    → Reserved seed slots slot (key + 3 * 2 ^ 62)
    → PullEnds fuel seed slots base (key + 3 * 2 ^ 62) slot
unfolding pull_back
pull_back_lem zero seed slots base key slot small far enough fits res = absurd (omega arith)
pull_back_lem (suc fuel) seed slots base key slot small far enough fits res =
    elim (relocate_lem fuel seed slots slot key small (omega arith) fits res) [
      | inl out ↦ inl (rw out)
      | inr (r, run, moved_r) ↦
          let next = moved slots slot r (key + 3 * 2 ^ 62) in
          let same : SameKeys slots next =
            moved-SameKeys slots slot r (key + 3 * 2 ^ 62) (omega arith) res.holder
              (omega (arith, moved_r.back)) in
          let moved_on : (slot == r) ≡ false = ground (arith, moved_r.back) in
          elim (Bool-cases (ltb hop (sub32 r base))) [
            | inr near ↦ inr (
              (r, next),
              rw (run, moved_on, near),
              record {
                above = omega (arith, moved_r.within);
                within = ground (arith, moved_r.within, moved_r.back);
                reserved = moved_r.again;
                same = same;
              },
            )
            | inl again ↦
                let ih =
                  pull_back_lem fuel seed next base key r small
                    (ground (arith, moved_r.within, moved_r.back)) (omega (arith, moved_r.back))
                    (omega (arith, moved_r.back)) moved_r.again in
                elim ih [
                  | inl out ↦ inl (rw (run, moved_on, again) out)
                  | inr (p, run', pulled) ↦ inr (
                    p,
                    rw (run, moved_on, again) run',
                    record {
                      above = pulled.above;
                      within = pulled.within;
                      reserved = pulled.reserved;
                      same = SameKeys-trans same pulled.same;
                    },
                  )
                ]
          ]
    ]
