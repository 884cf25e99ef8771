-- ===== src/LfHash/Threads/System.antt =====
-- OurTable/src/LFHash.h: `n` threads on one table, interleaved in any order.
use lock_free_hop_scotch.Prelude.{ℕ, ◌+◌, ◌<◌, ◌≡◌, true, update}
use lock_free_hop_scotch.LfHash.Table.{Table, new_table}
use lock_free_hop_scotch.LfHash.Threads.{Pc, Move, call_add, take_stamp}

pub record System : Type 0 where
  pub mem : Table
  pub pc : ℕ → Pc

pub data Step (n : ℕ) (s : System) : System → Type 0 where
  pick :
      (t : ℕ) {m : Table} {p : Pc}
      → t < n
      → Move s.mem (s.pc t) m p
      → Step n s (record { mem = m; pc = update s.pc t p })

-- The key of a call of `add` is one of `A`.
abbrev pub Calls : (ℕ → Type 0) → {m m' : Table} {p p' : Pc} → Move m p m' p' → Type 0
Calls A (call_add k lt) = A k
Calls A _ = Unit

abbrev pub StepCalls : (ℕ → Type 0) → {n : ℕ} {s t : System} → Step n s t → Type 0
StepCalls A (pick t lt mv) = Calls A mv

-- How many stamps have been taken after the step, of `c` before it.
abbrev pub stamps : {m m' : Table} {p p' : Pc} → Move m p m' p' → ℕ → ℕ
stamps take_stamp c = c + 1
stamps _ c = c

abbrev pub stamps_of : {n : ℕ} {s t : System} → Step n s t → ℕ → ℕ
stamps_of (pick t lt mv) c = stamps mv c

-- A new table; the words behind the array are 0.
abbrev pub init : ℕ → System
init random = record { mem = new_table (λ i. 0) random; pc = λ t. Pc.ended true }

-- The states after any steps in which `add` is called with keys of `A` only, and which take `c`
-- stamps.
pub data Reach (A : ℕ → Type 0) (n : ℕ) : ℕ → System → Type 0 where
  start : {c : ℕ} (random : ℕ) → c ≡ 0 → Reach A n c (init random)
  later :
      {c d : ℕ} {s t : System}
      → Reach A n c s
      → (st : Step n s t) → StepCalls A st
      → d ≡ stamps_of st c
      → Reach A n d t
