-- ===== src/ClhtLf/Zero.antt =====
-- OtherTables/src/clht/src/clht_lf.c: the value 0 in `clht_put`.
use lock_free_hop_scotch.Prelude.{ℕ, ◌+◌, ◌≡◌, some, arith, refl, update}
use lock_free_hop_scotch.ClhtLf.Bucket.{Bucket, snapshot, snap_get_empty_index, empty_from}
use lock_free_hop_scotch.ClhtLf.Worker.{
  Pc, any, Move, call_put, read_snapshot, read_val, scan_end, map_skip, map_valid, key_match,
  val_zero, claim_win, store_val, store_key, commit_win, commits,
}
use lock_free_hop_scotch.ClhtLf.System.{System, pick, init, Reach, start, later}

abbrev Run : ℕ → Type 0
Run c = (s : System) × Reach any 1 c s

-- One more step of the thread.
abbrev go :
    {c : ℕ} {s : System} {m : Bucket} {p : Pc}
    → Reach any 1 c s
    → (mv : Move any s.mem (s.pc 0) m p)
    → Reach any 1 (c + commits mv) (record { mem = m; pc = update s.pc 0 p })
go r mv = later r (pick 0 (omega arith) mv) refl

first_empty : snap_get_empty_index (snapshot init.mem) ≡ some 0
unfolding snap_get_empty_index empty_from
first_empty = refl

module _ (k : ℕ) where
  -- The first call has looked at the slots.
  abbrev searched : Run 0
  searched =
      let r0 = go (go (start refl) (call_put k 0 tt)) read_snapshot in
      let r1 = go (go r0 (read_val (omega arith))) (map_skip (omega arith)) in
      let r2 = go (go r1 (read_val (omega arith))) (map_skip (omega arith)) in
      let r3 = go (go r2 (read_val (omega arith))) (map_skip (omega arith)) in
      (_, go r3 (scan_end (omega arith)))

  -- It has put its entry in.
  abbrev once : Run 1
  once =
      let r0 =
        go searched.1
          (claim_win {e = 0} first_empty (record { version = refl; map = λ i lt. refl })) in
      let r1 = go (go r0 store_val) store_key in
      (_, go r1 (commit_win (record { version = refl; map = λ i lt. refl })))

  second_empty : snap_get_empty_index (snapshot once.0.mem) ≡ some 1
  unfolding snap_get_empty_index empty_from
  second_empty = refl

  -- The second call meets the entry, and reads 0.
  abbrev missed_again : Run 1
  missed_again =
      let r0 = go (go once.1 (call_put k 0 tt)) read_snapshot in
      let r1 = go (go r0 (read_val (omega arith))) (map_valid refl) in
      (_, go (go r1 (key_match refl)) (val_zero refl refl))

  abbrev twice : Run 2
  twice =
      let r0 =
        go missed_again.1
          (claim_win {e = 1} second_empty (record { version = refl; map = λ i lt. refl })) in
      let r1 = go (go r0 store_val) store_key in
      (_, go r1 (commit_win (record { version = refl; map = λ i lt. refl })))
