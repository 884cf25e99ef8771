-- ===== src/ClhtLf/System.antt =====
-- OtherTables/src/clht/src/clht_lf.c: `n` threads on one bucket, interleaved in any order.
use lock_free_hop_scotch.Prelude.{ℕ, ◌+◌, ◌<◌, ◌≡◌, update}
use lock_free_hop_scotch.ClhtLf.Bucket.{Bucket}
use lock_free_hop_scotch.ClhtLf.Worker.{Pc, Values, Move, commits}

pub record System : Type 0 where
  pub mem : Bucket
  pub pc : ℕ → Pc

pub data Step (P : Values) (n : ℕ) (s : System) : System → Type 0 where
  pick :
      (t : ℕ) {m : Bucket} {p : Pc}
      → t < n
      → Move P s.mem (s.pc t) m p
      → Step P n s (record { mem = m; pc = update s.pc t p })

-- How many entries the step puts into the bucket.
abbrev pub added : {P : Values} {n : ℕ} {s t : System} → Step P n s t → ℕ
added (pick t lt mv) = commits mv

-- A bucket of a new table: `map` and `key` are 0, and `val` is zeroed memory.
abbrev pub init : System
init = record {
  mem = record { version = 0; map = λ i. 0; key = λ i. 0; val = λ i. 0 };
  pc = λ t. Pc.idle;
}

-- The states after any steps, of which `c` put an entry into the bucket.
pub data Reach (P : Values) (n : ℕ) : ℕ → System → Type 0 where
  start : {c : ℕ} → c ≡ 0 → Reach P n c init
  later :
      {c d : ℕ} {s t : System}
      → Reach P n c s
      → (st : Step P n s t) → d ≡ c + added st
      → Reach P n d t
