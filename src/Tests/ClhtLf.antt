-- ===== src/Tests/ClhtLf.antt =====
-- Runs of the lock-free hash table of OtherTables/src/clht/src/clht_lf.c: two threads, each in
-- `clht_put` of the key 7.
use lock_free_hop_scotch.Prelude.{ℕ, ◌≡◌, ◌≢◌, some, arith, refl, update, ◌+◌}
use lock_free_hop_scotch.ClhtLf.Bucket.{
  Bucket, snapshot, invalid, inserting, snap_get_empty_index, empty_from,
}
use lock_free_hop_scotch.ClhtLf.Worker.{
  Pc, nonzero, Move, call_put, call_remove, read_snapshot, read_val, scan_end, map_skip, map_valid,
  key_match, val_hit, claim_win, store_val, store_key, commit_win, remove_snapshot, remove_match,
  remove_read, remove_win,
}
use lock_free_hop_scotch.ClhtLf.System.{System, Step, pick, added, init, Reach, start, later}
use lock_free_hop_scotch.ClhtLf.Refinement.{
  Label, Holds, Spec, Step-Spec, Reach-Unique, Reach-Claims,
}

-- One more step.
abbrev go :
    {c : ℕ} {s t : System}
    → Reach nonzero 2 c s
    → (st : Step nonzero 2 s t) → Reach nonzero 2 (c + added st) t
go r st = later r st refl

-- A step of the first thread, and of the second.
abbrev zeroth :
    {s : System} {m : Bucket} {p : Pc}
    → Move nonzero s.mem (s.pc 0) m p
    → Step nonzero 2 s (record { mem = m; pc = update s.pc 0 p })
zeroth mv = pick 0 (omega arith) mv

abbrev first :
    {s : System} {m : Bucket} {p : Pc}
    → Move nonzero s.mem (s.pc 1) m p
    → Step nonzero 2 s (record { mem = m; pc = update s.pc 1 p })
first mv = pick 1 (omega arith) mv

abbrev Run : ℕ → Type 0
Run c = (s : System) × Reach nonzero 2 c s

-- Both threads have read the snapshot of the empty bucket.
abbrev begun : Run 0
begun =
    let r1 = go (start refl) (zeroth (call_put 7 5 (omega arith))) in
    let r2 = go r1 (first (call_put 7 9 (omega arith))) in
    (_, go (go r2 (zeroth read_snapshot)) (first read_snapshot))

-- The first thread has looked at the slots, and found none.
abbrev searched : Run 0
searched =
    let r1 = go (go begun.1 (zeroth (read_val (omega arith)))) (zeroth (map_skip (omega arith))) in
    let r2 = go (go r1 (zeroth (read_val (omega arith)))) (zeroth (map_skip (omega arith))) in
    let r3 = go (go r2 (zeroth (read_val (omega arith)))) (zeroth (map_skip (omega arith))) in
    (_, go r3 (zeroth (scan_end (omega arith))))

empty_init : snap_get_empty_index (snapshot init.mem) ≡ some 0
unfolding snap_get_empty_index empty_from
empty_init = refl

-- It has claimed slot 0 and filled it.
abbrev filled : Run 0
filled =
    let r1 =
      go searched.1
        (zeroth (claim_win {e = 0} empty_init (record { version = refl; map = λ i lt. refl }))) in
    (_, go (go r1 (zeroth store_val)) (zeroth store_key))

-- It ends its call.
abbrev ended : Run 1
ended = (_, go filled.1 (zeroth (commit_win (record { version = refl; map = λ i lt. refl }))))

-- The second thread finds the key, and its call returns false; then it removes the key.
abbrev refused : Run 1
refused =
    let r1 = go (go ended.1 (first (read_val (omega arith)))) (first (map_valid refl)) in
    (_, go (go r1 (first (key_match refl))) (first (val_hit refl (omega arith))))

abbrev looked : Run 1
looked =
    let r1 = go (go refused.1 (first (call_remove 7))) (first remove_snapshot) in
    (_, go (go r1 (first (remove_match {i = 0} (omega arith) refl refl))) (first remove_read))

abbrev removed : Run 1
removed = (_, go looked.1 (first (remove_win (record { version = refl; map = λ i lt. refl }))))

Step-Spec_at : Spec (Label.removes 7 5) (Holds looked.0.mem) (Holds removed.0.mem)
Step-Spec_at =
    Step-Spec (λ v nz. nz) looked.1
      (first (remove_win (record { version = refl; map = λ i lt. refl }))) (omega arith)

-- The second CAS of the first thread, with the second thread on its way to the same key.
put_example : Spec (Label.puts 7 5) (Holds filled.0.mem) (Holds ended.0.mem)
put_example =
    Step-Spec (λ v nz. nz) filled.1
      (zeroth (commit_win (record { version = refl; map = λ i lt. refl }))) (omega arith)

Reach-Unique_at : (◌≡◌ {A = ℕ} 0 0) × (◌≡◌ {A = ℕ} 5 5) × (◌≢◌ {A = ℕ} 5 0)
Reach-Unique_at =
    Reach-Unique (λ v nz. nz) looked.1 (omega arith) {k = 7} {v = 5} {w = 5}
      (0, omega arith, refl, refl, refl) (0, omega arith, refl, refl, refl)

Reach-Claims_example : (◌≡◌ {A = ℕ} 0 0) × (filled.0.mem.map 0 ≡ inserting)
Reach-Claims_example = Reach-Claims filled.1 (omega arith) 0 0 0 refl refl

-- The calls have ended, and the bucket is empty again.
removed_end :
    (removed.0.mem.map 0 ≡ invalid) × (removed.0.pc 0 ≡ Pc.idle) × (removed.0.pc 1 ≡ Pc.idle)
removed_end = (refl, refl, refl)
