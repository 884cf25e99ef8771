-- ===== src/LfHash/Threads/Calls.antt =====
-- OurTable/src/LFHash.h: one call of a thread, with the steps of other threads between its own.
use lock_free_hop_scotch.Prelude.{
  ℕ, ◌+◌, ◌<◌, ◌≡◌, ◌≢◌, update, sym, subst, update_same, update_other,
}
use lock_free_hop_scotch.LfHash.Table.{Table}
use lock_free_hop_scotch.LfHash.Threads.{Pc, Move}
use lock_free_hop_scotch.LfHash.Threads.System.{System}

-- A thread in a call.
abbrev pub Calling : Pc → Type 0
Calling (Pc.ended r) = ⊥
Calling Pc.stopped = ⊥
Calling _ = Unit

-- The states after any steps of `n` threads from `s` on in which thread `t` begins no call; `Q`
-- holds of the table all the time, and `c` of the steps are the thread's own.
pub data Stays (n t : ℕ) (Q : Table → Type 0) (s : System) : ℕ → System → Type 0 where
  here : {c : ℕ} → c ≡ 0 → Q s.mem → Stays n t Q s c s
  own :
      {c d : ℕ} {u : System} {m : Table} {p : Pc}
      → Stays n t Q s c u
      → Calling (u.pc t)
      → Move u.mem (u.pc t) m p
      → d ≡ c + 1
      → Q m
      → Stays n t Q s d (record { mem = m; pc = update u.pc t p })
  other :
      {c : ℕ} {u : System} {m : Table} {p : Pc}
      → Stays n t Q s c u
      → (v : ℕ) → v < n
      → v ≢ t
      → Move u.mem (u.pc v) m p
      → Q m
      → Stays n t Q s c (record { mem = m; pc = update u.pc v p })

-- What each own step keeps, in a table of which `Q` holds, is so at the end.
pub Stays_keeps :
    {n t : ℕ} {Q : Table → Type 0} {s : System} (P : ℕ → Pc → Type 0)
    → ((d : ℕ) (m m' : Table) (p p' : Pc) → Q m → P d p → Calling p → Move m p m' p' → P (d + 1) p')
    → P 0 (s.pc t)
    → {c : ℕ} {u : System} → Stays n t Q s c u
    → P c (u.pc t) × Q u.mem
Stays_keeps {t} {s} P step first (here z q) = (subst (λ c. P c (s.pc t)) (sym z) first, q)
Stays_keeps {t} P step first (own {c} {d} {u} {m} {p} r calling mv e q) =
    let (old, was) = Stays_keeps P step first r in
    (
      subst (P d) (sym (update_same u.pc t p))
          (subst (λ d. P d p) (sym e) (step c u.mem m (u.pc t) p was old calling mv)),
      q,
    )
Stays_keeps {t} P step first (other {c} {u} {m} {p} r v lt ne mv q) =
    let (old, was) = Stays_keeps P step first r in
    (subst (P c) (sym (update_other u.pc v p (λ e. ne (sym e)))) old, q)
