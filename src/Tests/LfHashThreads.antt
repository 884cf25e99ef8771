-- ===== src/Tests/LfHashThreads.antt =====
-- Runs of the lock-free hopscotch table of OurTable/src/LFHash.h with several threads.
use lock_free_hop_scotch.Prelude.{
  bit_or, [], ◌≢◌, subst, sym, zero, suc, List, ◌∷◌, ◌++◌, ℕ, ◌+◌, ◌-◌, ◌%◌, ◌^◌, ◌≤◌, ◌<◌, ◌≡◌,
  ◌⊎◌, Bool, true, false, ◌||◌, update, arith, refl, ap, ◌∙◌,
}
use lock_free_hop_scotch.LfHash.Hash.{home}
use lock_free_hop_scotch.LfHash.Table.{Table, is_entry_of}
use lock_free_hop_scotch.LfHash.Threads.{
  Pc, Move, user, call_contains, look_slot, look_end, take_stamp, mark_plain, mark_other, mark_none,
  mark_end, first_lose, second_lose, sweep_load, sweep_skip, sweep_end,
}
use lock_free_hop_scotch.LfHash.Threads.System.{System, Reach}
use lock_free_hop_scotch.LfHash.Threads.Found.{Reach_found}
use lock_free_hop_scotch.LfHash.Threads.Calls.{Calling, Stays, here, own, other}
use lock_free_hop_scotch.LfHash.Threads.WaitFree.{Stays_bounded}
use lock_free_hop_scotch.LfHash.Threads.Answer.{Shows, Stays-Shows}
use lock_free_hop_scotch.LfHash.Threads.Absent.{Stays-Remove}
use lock_free_hop_scotch.LfHash.Entry.{with_tag, clear_tag}
use lock_free_hop_scotch.LfHash.Threads.Twice.{At, first_step, Reach_twice}

Twice : ℕ → ℕ → Type 0
Twice random k =
    (s : System) × Reach (λ key. key ≡ k) 2 0 s
    × (s.pc 0 ≡ Pc.ended true)
    × (s.pc 1 ≡ Pc.ended true)
    × (s.mem.slots (home s.mem.seed k) ≡ k)
    × (s.mem.slots (home s.mem.seed k + 1) ≡ k)

Reach_twice_example : Twice 7 42
unfolding Twice
Reach_twice_example = Reach_twice 7 42 (omega arith) (omega arith)

own_entry : (k e : ℕ) → e ≡ k → (false || is_entry_of k e) ≡ true
unfolding is_entry_of
own_entry k e same = ground (arith, same)

-- After that run the first thread looks up the key, and has found it in the first slot.
abbrev found :
    (s : System) × Reach (λ key. key ≡ 42) 2 0 s × (b : ℕ) × (s.pc 0 ≡ Pc.look user 42 b 1 true)
found =
    let A : ℕ → Type 0 = λ key. key ≡ 42 in
    let (s, reach, first, second, at, next) = Reach_twice 7 42 (omega arith) (omega arith) in
    let b = home s.mem.seed 42 in
    let begun : At A s.mem (Pc.ended true) (Pc.ended true) = (s, reach, refl, first, second) in
    let asked = first_step A begun (call_contains 42 (omega arith)) tt refl in
    let (u, reach', mem, pc, rest) = first_step A asked (look_slot (omega arith)) tt refl in
    (
      u,
      reach',
      b,
      pc
          ∙ ap (Pc.look user 42 b 1) (
              own_entry 42 (s.mem.slots (b + 0))
                (ap s.mem.slots {x = b + 0} {y = b} (omega arith) ∙ at)),
    )

Reach_found_example :
    (◌≡◌ {A = ℕ} 42 42) ⊎ (((i : ℕ) × (i < 0) × (42 ≡ i % 2 ^ 30)) ⊎ (42 ≡ 2 ^ 31 - 1))
Reach_found_example = Reach_found (λ key. key ≡ 42) found.1 0 {k = 42} found.3 (omega arith)

-- A table in which every slot has the key 5, and the first thread about to remove it.
abbrev crowded : Table
crowded = record { slots = λ i. 5; time_stamp = 3; seed = 1 }

abbrev removing : System
removing = record { mem = crowded; pc = update (λ t. Pc.ended false) 0 (Pc.stamp 5) }

abbrev stamped : Table
stamped = record crowded { time_stamp = 4 }

-- It takes its stamp and looks at a slot, and the second thread begins a call.
abbrev remove_run : (u : System) × Stays 2 0 (λ m. Unit {0}) removing 2 u
remove_run =
    let r0 : Stays 2 0 (λ m. Unit {0}) removing 0 removing = here refl tt in
    let r1 = own r0 tt take_stamp refl tt in
    let r2 = other r1 1 (omega arith) (omega arith) (call_contains 9 (omega arith)) tt in
    (_, own r2 tt (mark_plain (omega arith) refl) refl tt)

Stays_bounded_example :
    (2 ≤ 90)
    × (((r : Bool) × (remove_run.0.pc 0 ≡ Pc.ended r))
        ⊎ ((m : Table) × (p : Pc) × Move remove_run.0.mem (remove_run.0.pc 0) m p))
Stays_bounded_example = Stays_bounded refl remove_run.1

abbrev asking : System
asking = record { mem = crowded; pc = update (λ t. Pc.ended false) 0 (Pc.look user 5 100 0 false) }

own_entry_5 : is_entry_of 5 5 ≡ true
unfolding is_entry_of
own_entry_5 = refl

-- The second thread begins a call, and the first looks at all its slots.
abbrev contains_run : (u : System) × Stays 2 0 (Shows 5 100 4 true) asking 18 u
unfolding is_entry_of
contains_run =
    let q0 : Stays 2 0 (Shows 5 100 4 true) asking 0 asking = here refl refl in
    let r0 = other q0 1 (omega arith) (omega arith) (call_contains 9 (omega arith)) refl in
    let r1 = own r0 tt (look_slot (omega arith)) refl refl in
    let r2 = own r1 tt (look_slot (omega arith)) refl refl in
    let r3 = own r2 tt (look_slot (omega arith)) refl refl in
    let r4 = own r3 tt (look_slot (omega arith)) refl refl in
    let r5 = own r4 tt (look_slot (omega arith)) refl refl in
    let r6 = own r5 tt (look_slot (omega arith)) refl refl in
    let r7 = own r6 tt (look_slot (omega arith)) refl refl in
    let r8 = own r7 tt (look_slot (omega arith)) refl refl in
    let r9 = own r8 tt (look_slot (omega arith)) refl refl in
    let r10 = own r9 tt (look_slot (omega arith)) refl refl in
    let r11 = own r10 tt (look_slot (omega arith)) refl refl in
    let r12 = own r11 tt (look_slot (omega arith)) refl refl in
    let r13 = own r12 tt (look_slot (omega arith)) refl refl in
    let r14 = own r13 tt (look_slot (omega arith)) refl refl in
    let r15 = own r14 tt (look_slot (omega arith)) refl refl in
    let r16 = own r15 tt (look_slot (omega arith)) refl refl in
    let r17 = own r16 tt (look_slot (omega arith)) refl refl in
    (_, own r17 tt (look_end (omega arith)) refl refl)

Stays-Shows_example : true ≡ true
unfolding is_entry_of
Stays-Shows_example = Stays-Shows 5 100 4 true {r = true} (omega arith) refl contains_run.1 refl

-- The first thread has taken its stamp to remove the key 7 with home 200.
abbrev missing : System
missing = record { mem = crowded; pc = update (λ t. Pc.ended true) 0 (Pc.mark 7 200 3 0 []) }

no_seven : Shows 7 200 0 false crowded
unfolding is_entry_of with_tag clear_tag
no_seven = λ j le. refl

differ : ◌≢◌ {A = ℕ} 5 (with_tag 1 7)
unfolding with_tag clear_tag
differ = omega arith

high : ◌≢◌ {A = ℕ} 5 (bit_or 7 (2 ^ 62))
high = omega arith

-- The call, after some of its steps.
abbrev Place : Pc → Type 0
Place p =
    (c : ℕ) × (u : System) × Stays 2 0 (Shows 7 200 0 false) missing c u
    × (u.mem ≡ crowded)
    × (u.pc 0 ≡ p)

next_step : (p r : Pc) → Place p → Calling p → Move crowded p crowded r → Place r
next_step p r (c, u, run, mem, at) calling mv = (
  c + 1,
  record { mem = crowded; pc = update u.pc 0 r },
  own run (subst Calling (sym at) calling)
      (subst (λ m. Move m (u.pc 0) crowded r) (sym mem)
        (subst (λ p. Move crowded p crowded r) (sym at) mv))
      refl no_seven,
  refl,
  refl,
)

all_marks :
    (n p : ℕ) (bits : List Bool)
    → n + p ≡ 17
    → Place (Pc.mark 7 200 3 p bits)
    → (bits' : List Bool) × Place (Pc.mark 7 200 3 17 bits')
all_marks zero p bits e at =
    let there : p ≡ 17 = omega (arith, e) in
    (bits, subst (λ p. Place (Pc.mark 7 200 3 p bits)) there at)
all_marks (suc n) p bits e at =
    let again = next_step _ _ at tt (mark_other (omega (arith, e)) (omega arith)) in
    all_marks n (p + 1) (bits ++ false ∷ []) (omega (arith, e))
      (next_step _ _ again tt (mark_none differ))

all_sweeps :
    (n p : ℕ) → n + p ≡ 17 → Place (Pc.sweep 7 200 p false) → Place (Pc.sweep 7 200 17 false)
all_sweeps zero p e at =
    let there : p ≡ 17 = omega (arith, e) in subst (λ p. Place (Pc.sweep 7 200 p false)) there at
all_sweeps (suc n) p e at =
    let test = next_step _ _ at tt (sweep_load (omega (arith, e))) in
    all_sweeps n (p + 1) (omega (arith, e)) (next_step _ _ test tt (sweep_skip (omega arith)))

-- It ends.
remove_missing : Place (Pc.ended false)
remove_missing =
    let (bits, marked) = all_marks 17 0 [] refl (0, missing, here refl no_seven, refl, refl) in
    let first = next_step _ _ marked tt (mark_end (omega arith)) in
    let second = next_step _ _ first tt (first_lose (omega arith)) in
    let swept = all_sweeps 17 0 refl (next_step _ _ second tt (second_lose high)) in
    next_step _ _ swept tt (sweep_end (omega arith))

Stays-Remove_example : false ≡ false
Stays-Remove_example =
    Stays-Remove 7 200 {r = false} (omega arith) refl remove_missing.2 remove_missing.4
