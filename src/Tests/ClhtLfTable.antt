-- ===== src/Tests/ClhtLfTable.antt =====
-- Runs of the lock-free hash table of OtherTables/src/clht/src/clht_lf.c: two threads on a table of
-- four buckets.
use lock_free_hop_scotch.Prelude.{ℕ, ◌+◌, ◌≡◌, ◌≢◌, some, arith, refl, true, update, subst}
use lock_free_hop_scotch.ClhtLf.Bucket.{Bucket, snapshot, snap_get_empty_index, empty_from}
use lock_free_hop_scotch.ClhtLf.Worker.{
  Pc, nonzero, Move, call_put, call_remove, read_snapshot, read_val, scan_end, map_skip, claim_win,
  store_val, store_key, commit_win, remove_snapshot, remove_match, remove_read, remove_win,
}
use lock_free_hop_scotch.ClhtLf.Refinement.{Label, Spec}
use lock_free_hop_scotch.ClhtLf.Table.{
  zero_bucket, zero_table, clht_hashtable_create, clht_hash, clht_size, total,
}
use lock_free_hop_scotch.ClhtLf.Table.Threads.{
  Threads, store, TableStep, enter, act, added, TableReach, start, later,
}
use lock_free_hop_scotch.ClhtLf.Table.Refinement.{TableHolds, TableStep-Spec}
use lock_free_hop_scotch.ClhtLf.Table.Place.{TableReach-Unique}
use lock_free_hop_scotch.ClhtLf.Table.Size.{TableReach-clht_size}

abbrev Run : ℕ → Type 0
Run c = (s : Threads) × TableReach nonzero 2 4 c s

-- One more step.
abbrev go :
    {c : ℕ} {s t : Threads}
    → TableReach nonzero 2 4 c s
    → (st : TableStep nonzero 2 s t) → TableReach nonzero 2 4 (c + added st) t
go r st = later r st refl

abbrev new : Threads
new = record { ht = zero_table 4; pc = λ t. Pc.idle; bin = λ t. 0 }

created : clht_hashtable_create true true 4 ≡ some (zero_table 4)
unfolding clht_hashtable_create
created = refl

empty_slots : snap_get_empty_index (snapshot zero_bucket) ≡ some 0
unfolding snap_get_empty_index empty_from
empty_slots = refl

-- A thread that is in a call.
abbrev Busy : Pc → Type 0
Busy Pc.idle = ⊥
Busy _ = Unit

Busy-ne-idle : (p : Pc) → Busy p → p ≢ Pc.idle
Busy-ne-idle p busy e = subst Busy e busy

-- A step of the first thread in its call, and of the second.
abbrev zeroth :
    {s : Threads} {m : Bucket} {p : Pc}
    → Busy (s.pc 0)
    → Move nonzero (s.ht.table (s.bin 0)) (s.pc 0) m p
    → TableStep nonzero 2 s (record s { ht = store s.ht (s.bin 0) m; pc = update s.pc 0 p })
zeroth {s} busy mv = act 0 (omega arith) (Busy-ne-idle (s.pc 0) busy) mv

abbrev first :
    {s : Threads} {m : Bucket} {p : Pc}
    → Busy (s.pc 1)
    → Move nonzero (s.ht.table (s.bin 1)) (s.pc 1) m p
    → TableStep nonzero 2 s (record s { ht = store s.ht (s.bin 1) m; pc = update s.pc 1 p })
first {s} busy mv = act 1 (omega arith) (Busy-ne-idle (s.pc 1) busy) mv

-- The first thread is in `clht_put` of the key 6, and has read the snapshot of bucket 2.
abbrev begun : Run 0
unfolding clht_hash
begun =
    let r0 =
      go (start {s = new} refl created (λ t. refl))
        (enter 0 (omega arith) refl refl (call_put 6 5 (omega arith))) in
    (_, go r0 (zeroth tt read_snapshot))

-- It has looked at the slots.
abbrev searched : Run 0
unfolding clht_hash
searched =
    let r2 =
      go (go begun.1 (zeroth tt (read_val (omega arith)))) (zeroth tt (map_skip (omega arith))) in
    let r3 = go (go r2 (zeroth tt (read_val (omega arith)))) (zeroth tt (map_skip (omega arith))) in
    let r4 = go (go r3 (zeroth tt (read_val (omega arith)))) (zeroth tt (map_skip (omega arith))) in
    (_, go r4 (zeroth tt (scan_end (omega arith))))

-- It has claimed slot 0 and filled it.
abbrev filled : Run 0
unfolding clht_hash
filled =
    let r1 =
      go searched.1 (
        zeroth tt
          (claim_win {e = 0} empty_slots (record { version = refl; map = λ i lt. refl }))) in
    (_, go (go r1 (zeroth tt store_val)) (zeroth tt store_key))

abbrev ended : Run 1
unfolding clht_hash
ended = (_, go filled.1 (zeroth tt (commit_win (record { version = refl; map = λ i lt. refl }))))

-- The second thread is about to remove the key.
abbrev looked : Run 1
unfolding clht_hash
looked =
    let r0 = go ended.1 (enter 1 (omega arith) refl refl (call_remove 6)) in
    let r1 = go r0 (first tt remove_snapshot) in
    (_, go (go r1 (first tt (remove_match {i = 0} (omega arith) refl refl))) (first tt remove_read))

abbrev removed : Run 1
unfolding clht_hash
removed = (_, go looked.1 (first tt (remove_win (record { version = refl; map = λ i lt. refl }))))

TableStep-Spec_example : Spec (Label.removes 6 5) (TableHolds looked.0.ht) (TableHolds removed.0.ht)
unfolding clht_hash
TableStep-Spec_example =
    TableStep-Spec (λ v nz. nz) looked.1
      (first tt (remove_win (record { version = refl; map = λ i lt. refl }))) (omega arith)

TableReach-Unique_example :
    (2 ≡ clht_hash looked.0.ht 6)
    × (2 ≡ clht_hash looked.0.ht 6)
    × (◌≡◌ {A = ℕ} 0 0)
    × (◌≡◌ {A = ℕ} 5 5)
unfolding clht_hash
TableReach-Unique_example =
    TableReach-Unique (λ v nz. nz) looked.1 (omega arith) 2 2 {k = 6} {v = 5} {w = 5}
      (0, omega arith, refl, refl, refl) (0, omega arith, refl, refl, refl)

TableReach-clht_size_example : clht_size removed.0.ht + 1 ≡ 1
unfolding clht_hash
TableReach-clht_size_example = TableReach-clht_size removed.1 (omega arith)

-- The entry is there, and then the table is empty again.
sizes : (clht_size looked.0.ht ≡ 1) × (clht_size removed.0.ht ≡ 0)
unfolding clht_size total clht_hash
sizes = (refl, refl)
