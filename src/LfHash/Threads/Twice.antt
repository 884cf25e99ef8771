-- ===== src/LfHash/Threads/Twice.antt =====
-- OurTable/src/LFHash.h: two calls of `add` of one key at the same time.
use lock_free_hop_scotch.Prelude.{
  ℕ, zero, suc, ◌+◌, ◌^◌, ◌≤◌, ◌<◌, ◌≡◌, ◌≢◌, true, false, update, update_same, sub32, arith, refl,
  sym, ap, subst, ◌∙◌,
}
use lock_free_hop_scotch.LfHash.Hash.{home, home-lt}
use lock_free_hop_scotch.LfHash.Entry.{with_tag_lem, bucket_entry}
use lock_free_hop_scotch.LfHash.Table.{hop, add_range, Table, new_table, is_entry_of}
use lock_free_hop_scotch.LfHash.Threads.{Pc, Move, adder, write, reserved}
use lock_free_hop_scotch.LfHash.Threads as Thread
use lock_free_hop_scotch.LfHash.Threads.System.{
  System, pick, Calls, stamps, init, Reach, start, later,
}

-- A state of two threads, by the table and where they stand.
abbrev pub At : (ℕ → Type 0) → Table → Pc → Pc → Type 0
At A m p q = (s : System) × Reach A 2 0 s × (s.mem ≡ m) × (s.pc 0 ≡ p) × (s.pc 1 ≡ q)

module _ (A : ℕ → Type 0) {m m' : Table} {p q r : Pc} where
  pub first_step : At A m p q → (mv : Move m p m' r) → Calls A mv → stamps mv 0 ≡ 0 → At A m' r q
  first_step (s, reach, mem, at, other) =
      subst (λ m. (mv : Move m p m' r) → Calls A mv → stamps mv 0 ≡ 0 → At A m' r q) mem
        (subst (λ p. (mv : Move s.mem p m' r) → Calls A mv → stamps mv 0 ≡ 0 → At A m' r q) at
          (λ mv call none_taken. (
            record { mem = m'; pc = update s.pc 0 r },
            later reach (pick 0 (omega arith) mv) call (sym none_taken),
            refl,
            refl,
            other,
          )))

  second_step : At A m p q → (mv : Move m q m' r) → Calls A mv → stamps mv 0 ≡ 0 → At A m' p r
  second_step (s, reach, mem, other, at) =
      subst (λ m. (mv : Move m q m' r) → Calls A mv → stamps mv 0 ≡ 0 → At A m' p r) mem
        (subst (λ q. (mv : Move s.mem q m' r) → Calls A mv → stamps mv 0 ≡ 0 → At A m' p r) at
          (λ mv call none_taken. (
            record { mem = m'; pc = update s.pc 1 r },
            later reach (pick 1 (omega arith) mv) call (sym none_taken),
            refl,
            other,
            refl,
          )))

-- A reservation near the home is given up at once.
reserved_near :
    (k b trails d : ℕ)
    → trails < add_range
    → d ≤ hop
    → b + d < 2 ^ 32
    → reserved k b trails (b + d) ≡ Pc.release k b (b + d)
reserved_near k b trails d few near small =
    let dist : sub32 (b + d) b ≡ d = omega (arith, near, small) in ground (arith, few, near, dist)

not_entry : (k : ℕ) → k ≢ 0 → is_entry_of k 0 ≡ false
unfolding is_entry_of
not_entry k nz = ground (arith, nz, with_tag_lem 1 k (omega arith))

-- The search of an empty neighbourhood, by the thread whose place `F` is about.
module _ (A : ℕ → Type 0) (m : Table) (F : Pc → Type 0)
    (step : (p r : Pc) → F p → (mv : Move m p m r) → Calls A mv → stamps mv 0 ≡ 0 → F r) (k b : ℕ)
    (nz : k ≢ 0) (empty : (i : ℕ) → m.slots i ≡ 0) where
  looks : (n p : ℕ) → n + p ≡ 17 → F (Pc.look adder k b p false) → F (Pc.look adder k b 17 false)
  looks zero p e at =
      let there : p ≡ 17 = omega (arith, e) in subst (λ p. F (Pc.look adder k b p false)) there at
  looks (suc n) p e at =
      let none_there : is_entry_of k (m.slots (b + p)) ≡ false =
        ap (is_entry_of k) (empty (b + p)) ∙ not_entry k nz in
      looks n (p + 1) (omega (arith, e)) (
        subst (λ f. F (Pc.look adder k b (p + 1) f)) none_there
          (step _ _ at (Thread.look_slot (omega (arith, e))) tt refl))

  -- It goes on with the probing.
  looks_all : F (Pc.look adder k b 0 false) → F (Pc.probe k b 0 b 0)
  looks_all at = step _ _ (looks 17 0 refl at) (Thread.look_end (omega arith)) tt refl

-- The array with the reservation of the first thread, without it, and so on.
module _ (A : ℕ → Type 0) (m0 : Table) (k b : ℕ) (called : A k) (lt : k < 2 ^ 32) (nz : k ≢ 0)
    (home_b : home m0.seed k ≡ b) (empty : (i : ℕ) → m0.slots i ≡ 0) where
  -- Both have called `add` and found that the key is not there.
  both_probing :
      At A m0 (Pc.ended true) (Pc.ended true) → At A m0 (Pc.probe k b 0 b 0) (Pc.probe k b 0 b 0)
  both_probing at =
      let called0 = first_step A at (Thread.call_add k lt) called refl in
      let called1 = second_step A called0 (Thread.call_add k lt) called refl in
      let home0 : Pc.look adder k (home m0.seed k) 0 false ≡ Pc.look adder k b 0 false =
        ap (λ b. Pc.look adder k b 0 false) home_b in
      let asking = subst (λ p. At A m0 p p) home0 called1 in
      looks_all A m0 (λ p. At A m0 (Pc.probe k b 0 b 0) p)
        (λ p r at mv call none_taken. second_step A at mv call none_taken) k b nz empty
        (looks_all A m0 (λ p. At A m0 p (Pc.look adder k b 0 false))
          (λ p r at mv call none_taken. first_step A at mv call none_taken) k b nz empty asking)

-- A thread that finds slot `b + d` free reserves it, gives it up, and writes its key to the first
-- free slot, slot `b + d` again.
module _ (k b d : ℕ) (m : Table) where
  abbrev claimed : Table
  claimed = write m (b + d) (bucket_entry k 0)

  abbrev freed : Table
  freed = write claimed (b + d) 0

  abbrev filled : Table
  filled = write freed (b + d) k

module _ (A : ℕ → Type 0) (m0 : Table) (k b : ℕ) (small : b < 2 ^ 31)
    (empty : (i : ℕ) → m0.slots i ≡ 0) where
  -- The first thread has added the key.
  first_done :
      At A m0 (Pc.probe k b 0 (b + 0) 0) (Pc.probe k b 0 b 0)
      → At A (filled k b 0 m0) (Pc.ended true) (Pc.probe k b 0 b 0)
  first_done at =
      let a1 = first_step A at (Thread.probe_free (omega arith) (empty (b + 0))) tt refl in
      let a2 : At A (claimed k b 0 m0) (reserved k b (0 + 1) (b + 0)) (Pc.probe k b 0 b 0) =
        first_step A a1 (Thread.reserve_win (empty (b + 0))) tt refl in
      let near = reserved_near k b 1 0 (omega arith) (omega arith) (omega (arith, small)) in
      let a3 = subst (λ p. At A (claimed k b 0 m0) p (Pc.probe k b 0 b 0)) near a2 in
      let a4 = first_step A a3 Thread.release_load tt refl in
      let a5 = first_step A a4 (Thread.release_win 0 refl) tt refl in
      let free = update_same (claimed k b 0 m0).slots (b + 0) 0 in
      let a6 = first_step A a5 (Thread.insert_free (omega arith) free) tt refl in
      first_step A a6 (Thread.insert_win free) tt refl

  -- The second has added it too.
  second_done :
      k ≢ 0
      → At A (filled k b 0 m0) (Pc.ended true) (Pc.probe k b 0 b 0)
      → At A (filled k b 1 (filled k b 0 m0)) (Pc.ended true) (Pc.ended true)
  second_done nz at =
      let m = filled k b 0 m0 in
      let taken : m.slots b ≢ 0 = λ e. absurd (ground (arith, nz, e)) in
      let next : m.slots (b + 1) ≡ 0 = ground (arith, empty (b + 1)) in
      let s1 = second_step A at (Thread.probe_taken (omega arith) taken) tt refl in
      let s2 = second_step A s1 (Thread.probe_free (omega arith) next) tt refl in
      let s3 : At A (claimed k b 1 m) (Pc.ended true) (reserved k b (0 + 1 + 1) (b + 1)) =
        second_step A s2 (Thread.reserve_win next) tt refl in
      let near = reserved_near k b 2 1 (omega arith) (omega arith) (omega (arith, small)) in
      let s4 = subst (λ p. At A (claimed k b 1 m) (Pc.ended true) p) near s3 in
      let s5 = second_step A s4 Thread.release_load tt refl in
      let s6 = second_step A s5 (Thread.release_win 0 refl) tt refl in
      let still : (freed k b 1 m).slots (b + 0) ≢ 0 = λ e. absurd (ground (arith, nz, e)) in
      let s7 = second_step A s6 (Thread.insert_taken (omega arith) still) tt refl in
      let free = update_same (claimed k b 1 m).slots (b + 1) 0 in
      let s8 = second_step A s7 (Thread.insert_free (omega arith) free) tt refl in
      second_step A s8 (Thread.insert_win free) tt refl

-- Two threads add the same key to a new table, for any key but 0: the calls can interleave so that
-- both return true, and then both the home slot of the key and the slot after it have the key.
pub Reach_twice :
    (random k : ℕ)
    → k < 2 ^ 32
    → k ≢ 0
    → (s : System) × Reach (λ key. key ≡ k) 2 0 s
      × (s.pc 0 ≡ Pc.ended true)
      × (s.pc 1 ≡ Pc.ended true)
      × (s.mem.slots (home s.mem.seed k) ≡ k)
      × (s.mem.slots (home s.mem.seed k + 1) ≡ k)
unfolding new_table
Reach_twice random k lt nz =
    let A : ℕ → Type 0 = λ key. key ≡ k in
    let m0 = (init random).mem in
    let b = home m0.seed k in
    let empty : (i : ℕ) → m0.slots i ≡ 0 = λ i. ground arith in
    let small : b < 2 ^ 31 = omega (arith, home-lt m0.seed k) in
    let begun =
      both_probing A m0 k b refl lt nz refl empty
        (init random, start random refl, refl, refl, refl) in
    let there : b + 0 ≡ b = omega arith in
    let at = subst (λ x. At A m0 (Pc.probe k b 0 x 0) (Pc.probe k b 0 b 0)) (sym there) begun in
    let (s, reach, mem, first, second) =
      second_done A m0 k b small empty nz (first_done A m0 k b small empty at) in
    let full : Table = filled k b 1 (filled k b 0 m0) in
    (
      s,
      reach,
      first,
      second,
      subst (λ m. m.slots (home m.seed k) ≡ k) (sym mem) (ground arith),
      subst (λ m. m.slots (home m.seed k + 1) ≡ k) (sym mem) (ground arith),
    )
