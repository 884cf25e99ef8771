-- ===== src/LfHash/Threads/Found.antt =====
-- OurTable/src/LFHash.h: what a call of `contains` may find while other threads are at work.
use lock_free_hop_scotch.Prelude.{
  ℕ, ◌+◌, ◌%◌, ◌^◌, ◌-◌, ◌≤◌, ◌<◌, ◌≡◌, ◌≢◌, ◌⊎◌, inl, inr, Bool, true, false, ltb, leb, ◌||◌, ◌==◌,
  if◌then◌else◌, update, update_same, update_other, u64, u32, sub32, arith, refl, sym, subst,
  ℕ_discrete,
}
use lock_free_hop_scotch.LfHash.Entry.{with_tag_lem}
use lock_free_hop_scotch.LfHash.Table.{hop, add_range, Table, new_table, is_entry_of}
use lock_free_hop_scotch.LfHash.Remove.{final_entry}
use lock_free_hop_scotch.LfHash.Threads.{
  Caller, user, adder, Pc, Move, pull, reserved, pulled, looked,
}
use lock_free_hop_scotch.LfHash.Threads as Thread
use lock_free_hop_scotch.LfHash.Threads.System.{
  System, Step, pick, Calls, StepCalls, stamps, stamps_of, init, Reach, start, later,
}
use lock_free_hop_scotch.LfHash.Threads.Words.{
  Source, Word, Key, Asks, Local, same-Source, clear_tag-Word, final_entry-Word, Local-mono,
  Move-Word,
}

module _ (A : ℕ → Type 0) where
  if-Local :
      (c : ℕ) (t : Bool) (p q : Pc) → Local A c p → Local A c q → Local A c (if t then p else q)
  if-Local c true p q l r = l
  if-Local c false p q l r = r

  pull-Local : (c k b slot : ℕ) → Key A k → Local A c (pull k b slot)
  pull-Local c k b slot key =
      if-Local c (ltb hop (sub32 slot b)) (Pc.measure k b slot (sub32 slot hop) (sub32 slot hop))
        (Pc.release k b slot) key key

  looked-Local : (c : ℕ) (w : Caller) (k b : ℕ) (f : Bool) → Asks A w k → Local A c (looked w k b f)
  looked-Local c user k b f l = tt
  looked-Local c adder k b true l = tt
  looked-Local c adder k b false l = l

  -- A slot that counts for the key has the key.
  entry-Source : (c k w : ℕ) → k < 2 ^ 32 → Word A c w → is_entry_of k w ≡ true → Source A c k
  unfolding is_entry_of
  entry-Source c k w lt word e =
      same-Source A c (w % 2 ^ 62) k (ground (arith, e, with_tag_lem 1 k (omega arith))) word

  look-Source :
      (c k w : ℕ) (f : Bool)
      → k < 2 ^ 32
      → (f ≡ true → Source A c k)
      → Word A c w
      → (f || is_entry_of k w) ≡ true
      → Source A c k
  look-Source c k w true lt h word e = h refl
  look-Source c k w false lt h word e = entry-Source c k w lt word e

  -- What the thread knows after its own step.
  Move-Local :
      (c : ℕ) {m m' : Table} {p p' : Pc} (mv : Move m p m' p')
      → Calls A mv
      → Local A c p
      → m.time_stamp ≡ u64 c
      → ((i : ℕ) → Word A c (m.slots i))
      → Local A (stamps mv c) p'
  Move-Local c (Thread.call_contains k lt) call l time old = (tt, lt, λ e. absurd (cc e))
  Move-Local c (Thread.call_add k lt) call l time old = ((call, lt), lt, λ e. absurd (cc e))
  Move-Local c {m} (Thread.look_slot {k} {b} {p} {f} le) call (asks, lt, h) time old =
      (asks, lt, λ e. look-Source c k (m.slots (b + p)) f lt h (old (b + p)) e)
  Move-Local c (Thread.call_remove k lt) call l time old = tt
  Move-Local c (Thread.look_end {c = w} {k} {b} {f} end) call l time old =
      looked-Local c w k b f l.0
  Move-Local c (Thread.reserve_win {k} {b} {trails} {slot} same) call key time old =
      if-Local c (leb add_range trails) Pc.stopped (pull k b slot) tt (pull-Local c k b slot key)
  Move-Local c (Thread.reserve_fail le) call l time old = tt
  Move-Local c (Thread.advance_fail le) call l time old = tt
  Move-Local c {m} (Thread.move_load {replace}) call key time old =
      (key, clear_tag-Word A c (m.slots replace) (old replace))
  Move-Local c (Thread.move_win same) call (key, w) time old = key
  Move-Local c Thread.move_lose call (key, w) time old = key
  Move-Local c (Thread.give_win {k} {b} {loc} {replace} same) call key time old =
      if-Local c (loc == replace) Pc.stopped (pull k b replace) tt (pull-Local c k b replace key)
  Move-Local c (Thread.give_lose {k} {b} {loc} {replace}) call key time old =
      if-Local c (loc == replace) Pc.stopped (pull k b replace) tt (pull-Local c k b replace key)
  Move-Local c (Thread.insert_win same) call l time old = tt
  Move-Local c (Thread.reuse_end end) call l time old = tt
  Move-Local c (Thread.reuse_win same) call l time old = tt
  Move-Local c Thread.take_stamp call l time old =
      subst (λ t. Word A (c + 1) (final_entry (u32 t))) (sym time) (final_entry-Word A c)
  Move-Local c (Thread.second_win same) call l time old = tt
  Move-Local c (Thread.second_lose ne) call l time old = tt
  Move-Local c _ call l time old = l

  -- The invariant of the table and all its threads.
  record Inv (c : ℕ) (s : System) : Type 0 where
    time : s.mem.time_stamp ≡ u64 c
    words : (i : ℕ) → Word A c (s.mem.slots i)
    local : (t : ℕ) → Local A c (s.pc t)

  init-Inv : (random : ℕ) → Inv 0 (init random)
  unfolding new_table
  init-Inv random = record {
    time = refl;
    words = λ i. same-Source A 0 0 _ (ground arith) (inl refl);
    local = λ t. tt;
  }

  stamps-le : {m m' : Table} {p p' : Pc} (mv : Move m p m' p') (c : ℕ) → c ≤ stamps mv c
  stamps-le Thread.take_stamp c = omega arith
  stamps-le _ c = omega arith

  Move-time :
      {m m' : Table} {p p' : Pc} (mv : Move m p m' p') (c : ℕ)
      → m.time_stamp ≡ u64 c
      → m'.time_stamp ≡ u64 (stamps mv c)
  Move-time Thread.take_stamp c time = omega (arith, time)
  Move-time _ c time = time

  Step-Inv :
      {c n : ℕ} {s u : System} (st : Step n s u) → StepCalls A st → Inv c s → Inv (stamps_of st c) u
  Step-Inv {c} {n} {s} (pick t {m} {p} lt mv) call inv =
      let l = inv.local t in
      record {
        time = Move-time mv c inv.time;
        words = Move-Word A c mv l inv.time inv.words;
        local = λ u. elim (ℕ_discrete u t) [
          | yes here ↦
              subst (λ v. Local A (stamps mv c) (update s.pc t p v)) (sym here)
                (subst (Local A (stamps mv c)) (sym (update_same s.pc t p))
                  (Move-Local c mv call l inv.time inv.words))
          | no ne ↦
              subst (Local A (stamps mv c)) (sym (update_other s.pc t p ne))
                (Local-mono A c (stamps mv c) (s.pc u) (stamps-le mv c) (inv.local u))
        ];
      }

  Reach-Inv : {n c : ℕ} {s : System} → Reach A n c s → Inv c s
  Reach-Inv (start random z) = subst (λ c. Inv c (init random)) (sym z) (init-Inv random)
  Reach-Inv {s} (later r st call e) = subst (λ d. Inv d s) (sym e) (Step-Inv st call (Reach-Inv r))

-- In every state that any number of threads reach from a new table whose array and the words behind
-- it are 0, after `add` has been called with keys of `A` only: a call of `contains` that has found
-- its key, which is not 0, has found a key of `A`, the low 30 bits of a stamp that some call of
-- `Remove` has taken, or `INT_MAX`.
pub Reach_found :
    (A : ℕ → Type 0) {n c : ℕ} {s : System}
    → Reach A n c s
    → (t : ℕ) {w : Caller} {k b p : ℕ} → s.pc t ≡ Pc.look w k b p true
    → k ≢ 0
    → (A k) ⊎ (((i : ℕ) × (i < c) × (k ≡ i % 2 ^ 30)) ⊎ (k ≡ 2 ^ 31 - 1))
Reach_found A {c} r t {w} {k} {b} {p} at nz =
    let (asks, lt, found) = subst (Local A c) at ((Reach-Inv A r).local t) in
    elim (found refl) [ inl z ↦ absurd (nz z) | inr source ↦ source ]
