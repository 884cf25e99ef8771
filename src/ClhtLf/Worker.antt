-- ===== src/ClhtLf/Worker.antt =====
-- OtherTables/src/clht/src/clht_lf.c: one thread in `clht_get`, `clht_put` or `clht_remove` on a
-- bucket, one access to shared memory at a time.
use lock_free_hop_scotch.Prelude.{ℕ, ◌+◌, ◌≤◌, ◌<◌, ◌≡◌, ◌≢◌, Option, none, some, update}
use lock_free_hop_scotch.ClhtLf.Bucket.{
  invalid, valid, inserting, entries, Bucket, Snapshot, snapshot, Same, snap_get_empty_index,
  snap_set_map, snap_set_map_and_inc_version, store_snapshot,
}

-- The caller of `clht_bucket_search`. For `clht_put` with its locals: `empty_index`, which is
-- negative as `none`, and `s`.
pub data Call : Type 0 where
  get : (k : ℕ) → Call
  put : (k v : ℕ) (e : Option ℕ) (s : Snapshot) → Call

abbrev pub key_of : Call → ℕ
key_of (get k) = k
key_of (put k v e s) = k

-- Where a thread stands, with the locals that are live there.
pub data Pc : Type 0 where
  idle : Pc
  retry : (k v : ℕ) (e : Option ℕ) → Pc  -- the label `retry` of `clht_put`
  scan : (c : Call) (i : ℕ) → Pc  -- head of the loop of `clht_bucket_search`
  at_map : (c : Call) (i w : ℕ) → Pc  -- before the read of `map[i]`, `w` is `val`
  at_key : (c : Call) (i w : ℕ) → Pc
  at_val : (c : Call) (i w : ℕ) → Pc  -- before the second read of `val[i]`
  release : (k v e : ℕ) → Pc  -- before `bucket->map[empty_index] = MAP_INVLD`
  missed : (k v : ℕ) (e : Option ℕ) (s : Snapshot) → Pc  -- the search returned 0
  write_val : (k v e : ℕ) (s : Snapshot) → Pc
  write_key : (k v e : ℕ) (s : Snapshot) → Pc
  commit : (k v e : ℕ) (s : Snapshot) → Pc  -- before the second CAS
  remove_retry : (k : ℕ) → Pc  -- the label `retry` of `clht_remove`
  remove_scan : (k : ℕ) (s : Snapshot) (i : ℕ) → Pc
  remove_val : (k : ℕ) (s : Snapshot) (i : ℕ) → Pc
  remove_cas : (k : ℕ) (s : Snapshot) (i w : ℕ) → Pc

-- The search returns a value other than 0.
abbrev pub hit : Call → Pc
hit (get k) = idle
hit (put k v none s) = idle
hit (put k v (some e) s) = release k v e

-- The search returns 0.
abbrev pub miss : Call → Pc
miss (get k) = idle
miss (put k v e s) = missed k v e s

-- The values that the callers of `clht_put` put: any, or all but 0, which stands for "absent".
abbrev pub Values : Type 1
Values = ℕ → Type 0

abbrev pub any : Values
any v = Unit

abbrev pub nonzero : Values
nonzero v = v ≢ 0

abbrev pub AllNonzero : Values → Type 0
AllNonzero P = (v : ℕ) → P v → v ≢ 0

-- One step of a thread, where the callers put the values `P`.
pub data Move (P : Values) (m : Bucket) : Pc → Bucket → Pc → Type 0 where
  call_get : (k : ℕ) → Move P m idle m (scan (get k) 0)
  call_put : (k v : ℕ) → P v → Move P m idle m (retry k v none)
  call_remove : (k : ℕ) → Move P m idle m (remove_retry k)
  read_snapshot :
      {k v : ℕ} {e : Option ℕ} → Move P m (retry k v e) m (scan (put k v e (snapshot m)) 0)
  read_val : {c : Call} {i : ℕ} → i < entries → Move P m (scan c i) m (at_map c i (m.val i))
  scan_end : {c : Call} {i : ℕ} → entries ≤ i → Move P m (scan c i) m (miss c)
  map_skip : {c : Call} {i w : ℕ} → m.map i ≢ valid → Move P m (at_map c i w) m (scan c (i + 1))
  map_valid : {c : Call} {i w : ℕ} → m.map i ≡ valid → Move P m (at_map c i w) m (at_key c i w)
  key_skip : {c : Call} {i w : ℕ} → m.key i ≢ key_of c → Move P m (at_key c i w) m (scan c (i + 1))
  key_match : {c : Call} {i w : ℕ} → m.key i ≡ key_of c → Move P m (at_key c i w) m (at_val c i w)
  val_hit : {c : Call} {i w : ℕ} → m.val i ≡ w → w ≢ 0 → Move P m (at_val c i w) m (hit c)
  val_zero : {c : Call} {i w : ℕ} → m.val i ≡ w → w ≡ 0 → Move P m (at_val c i w) m (miss c)
  val_changed : {c : Call} {i w : ℕ} → m.val i ≢ w → Move P m (at_val c i w) m (miss c)
  give_up : {k v e : ℕ} → Move P m (release k v e) (record m { map = update m.map e invalid }) idle
  no_room :
      {k v : ℕ} {s : Snapshot}
      → snap_get_empty_index s ≡ none
      → Move P m (missed k v none s) m (retry k v none)
  claim_win :
      {k v e : ℕ} {s : Snapshot}
      → snap_get_empty_index s ≡ some e
      → Same s m
      → Move P m
          (missed k v none s)
          (store_snapshot m (snap_set_map s e inserting))
          (write_val k v e s)
  claim_lose :
      {k v e : ℕ} {s : Snapshot}
      → snap_get_empty_index s ≡ some e
      → ¬ (Same s m)
      → Move P m (missed k v none s) m (retry k v none)
  keep_claim : {k v e : ℕ} {s : Snapshot} → Move P m (missed k v (some e) s) m (commit k v e s)
  store_val :
      {k v e : ℕ} {s : Snapshot}
      → Move P m (write_val k v e s) (record m { val = update m.val e v }) (write_key k v e s)
  store_key :
      {k v e : ℕ} {s : Snapshot}
      → Move P m (write_key k v e s) (record m { key = update m.key e k }) (commit k v e s)
  commit_win :
      {k v e : ℕ} {s : Snapshot}
      → Same (snap_set_map s e inserting) m
      → Move P m
          (commit k v e s)
          (store_snapshot m (snap_set_map_and_inc_version (snap_set_map s e inserting) e valid))
          idle
  commit_lose :
      {k v e : ℕ} {s : Snapshot}
      → ¬ (Same (snap_set_map s e inserting) m)
      → Move P m (commit k v e s) m (retry k v (some e))
  remove_snapshot : {k : ℕ} → Move P m (remove_retry k) m (remove_scan k (snapshot m) 0)
  remove_end : {k i : ℕ} {s : Snapshot} → entries ≤ i → Move P m (remove_scan k s i) m idle
  remove_skip :
      {k i : ℕ} {s : Snapshot}
      → i < entries
      → ¬ ((m.key i ≡ k) × (s.map i ≡ valid))
      → Move P m (remove_scan k s i) m (remove_scan k s (i + 1))
  remove_match :
      {k i : ℕ} {s : Snapshot}
      → i < entries
      → m.key i ≡ k
      → s.map i ≡ valid
      → Move P m (remove_scan k s i) m (remove_val k s i)
  remove_read :
      {k i : ℕ} {s : Snapshot} → Move P m (remove_val k s i) m (remove_cas k s i (m.val i))
  remove_win :
      {k i w : ℕ} {s : Snapshot}
      → Same s m
      → Move P m (remove_cas k s i w) (store_snapshot m (snap_set_map s i invalid)) idle
  remove_lose :
      {k i w : ℕ} {s : Snapshot} → ¬ (Same s m) → Move P m (remove_cas k s i w) m (remove_retry k)

-- The steps that put an entry into the bucket.
abbrev pub commits : {P : Values} {m m' : Bucket} {p p' : Pc} → Move P m p m' p' → ℕ
commits (commit_win same) = 1
commits _ = 0
