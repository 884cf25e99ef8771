-- ===== src/LfHash/Threads/WaitFree.antt =====
-- OurTable/src/LFHash.h: `contains` and `Remove` end, whatever the other threads do.
use lock_free_hop_scotch.Prelude.{
  ℕ, ◌+◌, ◌-◌, ◌*◌, ◌≤◌, ◌<◌, ◌≡◌, ◌⊎◌, inl, inr, Bool, arith, refl, ◌^◌, bit_or, shr, ℕ_discrete,
}
use native.Mathlib.Decide.{dec_le}
use lock_free_hop_scotch.LfHash.Entry.{with_tag}
use lock_free_hop_scotch.LfHash.Table.{hop, Table}
use lock_free_hop_scotch.LfHash.Threads.{Pc, Move, user}
use lock_free_hop_scotch.LfHash.Threads as Thread
use lock_free_hop_scotch.LfHash.Threads.System.{System}
use lock_free_hop_scotch.LfHash.Threads.Calls.{Calling, Stays, Stays_keeps}

-- At least so many steps are left of a call of `contains` or of `Remove`.
abbrev Left : ℕ → Pc → Type 0
Left n (Pc.ended r) = Unit
Left n (Pc.look Thread.user k b p found) = (n + p ≡ 18) × (p ≤ 17)
Left n (Pc.stamp k) = n ≡ 90
Left n (Pc.mark k b final p bits) = (n + 2 * p ≡ 89) × (p ≤ 17)
Left n (Pc.mark_again k b final p bits) = (n + 2 * p ≡ 88) × (p ≤ 16)
Left n (Pc.first_cas k b final i1 i2) = n ≡ 54
Left n (Pc.second_cas k b final i2 won) = n ≡ 53
Left n (Pc.sweep k b p won) = (n + 3 * p ≡ 52) × (p ≤ 17)
Left n (Pc.sweep_test k b p slot won) = (n + 3 * p ≡ 51) × (p ≤ 16)
Left n (Pc.sweep_cas k b p slot won) = (n + 3 * p ≡ 50) × (p ≤ 16)
Left n _ = ⊥

-- One step less.
Less : ℕ → Pc → Type 0
Less n p = (j : ℕ) × (j < n) × Left j p

Move-Left : (n : ℕ) {m m' : Table} {p p' : Pc} → Move m p m' p' → Calling p → Left n p → Less n p'
unfolding Less
Move-Left n (Thread.call_contains k lt) call l = absurd call
Move-Left n (Thread.call_add k lt) call l = absurd call
Move-Left n (Thread.call_remove k lt) call l = absurd call
Move-Left n (Thread.look_slot {c = Thread.user} {k} {b} {p} {f} le) call (e, bound) =
    (17 - p, omega (arith, e, le), (omega (arith, le), omega (arith, le)))
Move-Left n (Thread.look_slot {c = Thread.adder} {k} {b} {p} {f} le) call l = absurd l
Move-Left n (Thread.look_end {c = Thread.user} {k} {b} {p} {f} lt) call (e, bound) =
    (0, omega (arith, e, bound), tt)
Move-Left n (Thread.look_end {c = Thread.adder} {k} {b} {p} {f} lt) call l = absurd l
Move-Left n Thread.take_stamp call l = (89, omega (arith, l), (omega arith, omega arith))
Move-Left n (Thread.mark_plain {p} le same) call (e, bound) =
    (87 - 2 * p, omega (arith, e, le), (omega (arith, le), omega (arith, le)))
Move-Left n (Thread.mark_other {p} le ne) call (e, bound) =
    (88 - 2 * p, omega (arith, e, le), (omega (arith, le), le))
Move-Left n (Thread.mark_moved {p} same) call (e, bound) =
    (87 - 2 * p, omega (arith, e, bound), (omega (arith, bound), omega (arith, bound)))
Move-Left n (Thread.mark_none {p} ne) call (e, bound) =
    (87 - 2 * p, omega (arith, e, bound), (omega (arith, bound), omega (arith, bound)))
Move-Left n (Thread.mark_end {p} lt) call (e, bound) = (54, omega (arith, e, bound), refl)
Move-Left n (Thread.first_win same) call l = (53, omega (arith, l), refl)
Move-Left n (Thread.first_lose ne) call l = (53, omega (arith, l), refl)
Move-Left n (Thread.second_win same) call l = (52, omega (arith, l), (omega arith, omega arith))
Move-Left n (Thread.second_lose ne) call l = (52, omega (arith, l), (omega arith, omega arith))
Move-Left n (Thread.sweep_load {p} le) call (e, bound) =
    (51 - 3 * p, omega (arith, e, le), (omega (arith, le), le))
Move-Left n (Thread.sweep_skip {p} ne) call (e, bound) =
    (49 - 3 * p, omega (arith, e, bound), (omega (arith, bound), omega (arith, bound)))
Move-Left n (Thread.sweep_reserved {p} same) call (e, bound) =
    (50 - 3 * p, omega (arith, e, bound), (omega (arith, bound), bound))
Move-Left n (Thread.sweep_win {p} same) call (e, bound) =
    (49 - 3 * p, omega (arith, e, bound), (omega (arith, bound), omega (arith, bound)))
Move-Left n (Thread.sweep_lose {p}) call (e, bound) =
    (49 - 3 * p, omega (arith, e, bound), (omega (arith, bound), omega (arith, bound)))
Move-Left n (Thread.sweep_end {p} lt) call (e, bound) = (0, omega (arith, e, bound), tt)
Move-Left n _ call l = absurd l

-- The thread can take a step.
abbrev CanMove : Table → Pc → Type 0
CanMove m p = (m' : Table) × (p' : Pc) × Move m p m' p'

Left-CanMove :
    (n : ℕ) (m : Table) (p : Pc) → Left n p → ((r : Bool) × (p ≡ Pc.ended r)) ⊎ CanMove m p
Left-CanMove n m (Pc.ended r) l = inl (r, refl)
Left-CanMove n m (Pc.look Thread.user k b p f) l = inr (elim (dec_le p hop) [
  | yes le ↦ (_, _, Thread.look_slot le)
  | no gt ↦ (_, _, Thread.look_end (omega (arith, gt)))
])
Left-CanMove n m (Pc.stamp k) l = inr (_, _, Thread.take_stamp)
Left-CanMove n m (Pc.mark k b final p bits) l = inr (elim (dec_le p hop) [
  | yes le ↦ elim (ℕ_discrete (m.slots (b + p)) k) [
    | yes same ↦ (_, _, Thread.mark_plain le same)
    | no ne ↦ (_, _, Thread.mark_other le ne)
  ]
  | no gt ↦ (_, _, Thread.mark_end (omega (arith, gt)))
])
Left-CanMove n m (Pc.mark_again k b final p bits) l =
    inr (elim (ℕ_discrete (m.slots (b + p)) (with_tag 1 k)) [
      | yes same ↦ (_, _, Thread.mark_moved same)
      | no ne ↦ (_, _, Thread.mark_none ne)
    ])
Left-CanMove n m (Pc.first_cas k b final i1 i2) l = inr (elim (ℕ_discrete (m.slots (b + i1)) k) [
  | yes same ↦ (_, _, Thread.first_win same)
  | no ne ↦ (_, _, Thread.first_lose ne)
])
Left-CanMove n m (Pc.second_cas k b final i2 won) l =
    inr (elim (ℕ_discrete (m.slots (b + i2)) (bit_or k (2 ^ 62))) [
      | yes same ↦ (_, _, Thread.second_win same)
      | no ne ↦ (_, _, Thread.second_lose ne)
    ])
Left-CanMove n m (Pc.sweep k b p won) l = inr (elim (dec_le p hop) [
  | yes le ↦ (_, _, Thread.sweep_load le)
  | no gt ↦ (_, _, Thread.sweep_end (omega (arith, gt)))
])
Left-CanMove n m (Pc.sweep_test k b p slot won) l =
    inr (elim (ℕ_discrete (shr (m.slots (b + p)) 62) 3) [
      | yes same ↦ (_, _, Thread.sweep_reserved same)
      | no ne ↦ (_, _, Thread.sweep_skip ne)
    ])
Left-CanMove n m (Pc.sweep_cas k b p slot won) l = inr (_, _, Thread.sweep_lose)
Left-CanMove n m _ l = absurd l

-- A call of `contains` that begins, and one of `Remove`, with a bound on its steps.
abbrev pub Begins : ℕ → Pc → Type 0
Begins n (Pc.look Thread.user k b p found) = (n ≡ 18) × (p ≡ 0)
Begins n (Pc.stamp k) = n ≡ 90
Begins n _ = ⊥

Begins-Left : (n : ℕ) (p : Pc) → Begins n p → Left n p
Begins-Left n (Pc.look Thread.user k b p found) (e, z) = (omega (arith, e, z), omega (arith, z))
Begins-Left n (Pc.stamp k) e = e
Begins-Left n _ l = absurd l

-- Whatever the other threads do, a call of `contains` takes at most 18 steps of its thread and a
-- call of `Remove` at most 90, and at any time it has returned or can take its next step.
pub Stays_bounded :
    {n t c bound : ℕ} {s u : System}
    → Begins bound (s.pc t)
    → Stays n t (λ m. Unit {0}) s c u
    → (c ≤ bound)
      × (((r : Bool) × (u.pc t ≡ Pc.ended r)) ⊎ ((m : Table) × (p : Pc) × Move u.mem (u.pc t) m p))
unfolding Less
Stays_bounded {n} {t} {c} {bound} {s} {u} begins run =
    let (kept, q) =
      Stays_keeps (λ d p. (j : ℕ) × (d + j ≤ bound) × Left j p)
        (λ d m m' p p' q (j, le, l) calling mv.
          let (i, lt, l') = Move-Left j mv calling l in (i, omega (arith, le, lt), l'))
        (bound, omega arith, Begins-Left bound (s.pc t) begins) run in
    let (j, le, l) = kept in (omega (arith, le), Left-CanMove j u.mem (u.pc t) l)
