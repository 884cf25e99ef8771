-- ===== src/ClhtLf/Table/Threads.antt =====
-- OtherTables/src/clht/src/clht_lf.c: `n` threads on one table, interleaved in any order. A call
-- chooses the bucket of its key, and then works on that bucket alone.
use lock_free_hop_scotch.Prelude.{ℕ, ◌+◌, ◌<◌, ◌≡◌, ◌≢◌, some, true, update}
use lock_free_hop_scotch.ClhtLf.Bucket.{Bucket}
use lock_free_hop_scotch.ClhtLf.Worker.{
  key_of, Pc, idle, retry, scan, at_map, at_key, at_val, release, missed, write_val, write_key,
  commit, remove_retry, remove_scan, remove_val, remove_cas, Values, Move, commits,
}
use lock_free_hop_scotch.ClhtLf.Refinement.{Label, label}
use lock_free_hop_scotch.ClhtLf.Table.{Table, clht_hashtable_create, clht_hash}

-- The key that a thread's call is about; 0 between calls.
abbrev pub key_at : Pc → ℕ
key_at idle = 0
key_at (retry k v e) = k
key_at (scan c i) = key_of c
key_at (at_map c i w) = key_of c
key_at (at_key c i w) = key_of c
key_at (at_val c i w) = key_of c
key_at (release k v e) = k
key_at (missed k v e s) = k
key_at (write_val k v e s) = k
key_at (write_key k v e s) = k
key_at (commit k v e s) = k
key_at (remove_retry k) = k
key_at (remove_scan k s i) = k
key_at (remove_val k s i) = k
key_at (remove_cas k s i w) = k

-- `bin` is each thread's local of that name.
pub record Threads : Type 0 where
  pub ht : Table
  pub pc : ℕ → Pc
  pub bin : ℕ → ℕ

-- A write of bucket `bin`.
abbrev pub store : Table → ℕ → Bucket → Table
store t bin m = record t { table = update t.table bin m }

-- A thread starts a call, and computes `bin`; or it takes a step of its call in that bucket.
pub data TableStep (P : Values) (n : ℕ) (s : Threads) : Threads → Type 0 where
  enter :
      (t : ℕ) {p : Pc} {m : Bucket}
      → t < n
      → s.pc t ≡ idle
      → m ≡ s.ht.table (clht_hash s.ht (key_at p))
      → Move P m (s.pc t) m p
      → TableStep P n s
          (record s { pc = update s.pc t p; bin = update s.bin t (clht_hash s.ht (key_at p)) })
  act :
      (t : ℕ) {p : Pc} {m : Bucket}
      → t < n
      → s.pc t ≢ idle
      → Move P (s.ht.table (s.bin t)) (s.pc t) m p
      → TableStep P n s (record s { ht = store s.ht (s.bin t) m; pc = update s.pc t p })

abbrev pub label_of : {P : Values} {n : ℕ} {s t : Threads} → TableStep P n s t → Label
label_of (enter t lt quiet here mv) = Label.silent
label_of (act t lt busy mv) = label mv

abbrev pub added : {P : Values} {n : ℕ} {s t : Threads} → TableStep P n s t → ℕ
added (enter t lt quiet here mv) = 0
added (act t lt busy mv) = commits mv

-- The states after any steps on a new table of `num_buckets` buckets, of which `c` put an entry in.
pub data TableReach (P : Values) (n num_buckets : ℕ) : ℕ → Threads → Type 0 where
  start :
      {c : ℕ} {s : Threads}
      → c ≡ 0
      → clht_hashtable_create true true num_buckets ≡ some s.ht
      → ((t : ℕ) → s.pc t ≡ idle)
      → TableReach P n num_buckets c s
  later :
      {c d : ℕ} {s t : Threads}
      → TableReach P n num_buckets c s
      → (st : TableStep P n s t) → d ≡ c + added st
      → TableReach P n num_buckets d t
