-- ===== src/ClhtLf/Invariant/Local.antt =====
-- OtherTables/src/clht/src/clht_lf.c: what a thread's locals say about the bucket.
use lock_free_hop_scotch.Prelude.{ℕ, ◌≤◌, ◌<◌, ◌≡◌, ◌≢◌, Option, none, some}
use lock_free_hop_scotch.ClhtLf.Bucket.{valid, inserting, entries, Bucket, Snapshot}
use lock_free_hop_scotch.ClhtLf.Worker.{
  Call, get, put, Pc, idle, retry, scan, at_map, at_key, at_val, release, missed, write_val,
  write_key, commit, remove_retry, remove_scan, remove_val, remove_cas, Values, AllNonzero,
}

-- No entry has been put in since the snapshot, and none of those that it shows has been removed.
pub record Fresh (s : Snapshot) (m : Bucket) : Type 0 where
  pub version : m.version ≡ s.version
  pub shown : (j : ℕ) → j < entries → s.map j ≡ valid → m.map j ≡ valid

-- A snapshot taken from this bucket: until an entry is put in, it shows all that are there.
pub record Past (s : Snapshot) (m : Bucket) : Type 0 where
  pub version : s.version ≤ m.version
  pub shows : m.version ≡ s.version → (j : ℕ) → j < entries → m.map j ≡ valid → s.map j ≡ valid

-- While the snapshot is fresh, none of the first `i` slots has a valid entry of the key.
abbrev pub Clear : Snapshot → Bucket → ℕ → ℕ → Type 0
Clear s m k i = Fresh s m → (j : ℕ) → j < i → j < entries → m.map j ≡ valid → m.key j ≢ k

-- A slot claimed for the key and filled.
pub record Filled (m : Bucket) (k v e : ℕ) : Type 0 where
  pub bound : e < entries
  pub held : m.map e ≡ inserting
  pub key : m.key e ≡ k
  pub val : m.val e ≡ v

abbrev pub FilledAt : Bucket → ℕ → ℕ → Option ℕ → Type 0
FilledAt m k v none = Unit
FilledAt m k v (some e) = Filled m k v e

abbrev pub NotShown : Snapshot → Option ℕ → Type 0
NotShown s none = Unit
NotShown s (some e) = s.map e ≢ valid

-- A `clht_put` that has looked at the first `i` slots.
pub record Puts (P : Values) (m : Bucket) (k v : ℕ) (e : Option ℕ) (s : Snapshot) (i : ℕ)
    : Type 0 where
  pub allowed : P v
  pub filled : FilledAt m k v e
  pub hidden : NotShown s e
  pub past : Past s m
  pub clear : AllNonzero P → Clear s m k i

abbrev pub Searches : Values → Bucket → Call → ℕ → Type 0
Searches P m (get k) i = Unit
Searches P m (put k v e s) i = Puts P m k v e s i

-- `w` is the value of slot `i`, if the snapshot is fresh and shows the slot.
abbrev pub Saw : Bucket → Call → ℕ → ℕ → Type 0
Saw m (get k) i w = Unit
Saw m (put k v e s) i w = Fresh s m → s.map i ≡ valid → m.val i ≡ w

-- The same, for a slot that was seen to be valid.
abbrev pub SawValid : Bucket → Call → ℕ → ℕ → Type 0
SawValid m (get k) i w = Unit
SawValid m (put k v e s) i w = Fresh s m → (s.map i ≡ valid) × (m.val i ≡ w)

-- A claimed slot, with the search that came before the claim.
pub record Claimed (P : Values) (m : Bucket) (k v e : ℕ) (s : Snapshot) : Type 0 where
  pub allowed : P v
  pub bound : e < entries
  pub held : m.map e ≡ inserting
  pub hidden : s.map e ≢ valid
  pub past : Past s m
  pub clear : AllNonzero P → Clear s m k entries

-- A slot that `clht_remove` found in its snapshot.
pub record Found (m : Bucket) (k : ℕ) (s : Snapshot) (i : ℕ) : Type 0 where
  pub bound : i < entries
  pub shown : s.map i ≡ valid
  pub past : Past s m
  pub key : Fresh s m → m.key i ≡ k

abbrev pub Local : Values → Bucket → Pc → Type 0
Local P m idle = Unit
Local P m (retry k v e) = (P v) × FilledAt m k v e
Local P m (scan c i) = Searches P m c i
Local P m (at_map c i w) = (i < entries) × Searches P m c i × Saw m c i w
Local P m (at_key c i w) = (i < entries) × Searches P m c i × SawValid m c i w
Local P m (at_val c i w) = (i < entries) × Searches P m c i × SawValid m c i w
Local P m (release k v e) = Filled m k v e
Local P m (missed k v e s) = Puts P m k v e s entries
Local P m (write_val k v e s) = Claimed P m k v e s
Local P m (write_key k v e s) = Claimed P m k v e s × (m.val e ≡ v)
Local P m (commit k v e s) = Claimed P m k v e s × (m.val e ≡ v) × (m.key e ≡ k)
Local P m (remove_retry k) = Unit
Local P m (remove_scan k s i) = Past s m
Local P m (remove_val k s i) = Found m k s i
Local P m (remove_cas k s i w) = Found m k s i × (Fresh s m → m.val i ≡ w)

-- The slot that a thread has claimed.
abbrev pub claim_of_call : Call → Option ℕ
claim_of_call (get k) = none
claim_of_call (put k v e s) = e

abbrev pub claim_of : Pc → Option ℕ
claim_of idle = none
claim_of (retry k v e) = e
claim_of (scan c i) = claim_of_call c
claim_of (at_map c i w) = claim_of_call c
claim_of (at_key c i w) = claim_of_call c
claim_of (at_val c i w) = claim_of_call c
claim_of (release k v e) = some e
claim_of (missed k v e s) = e
claim_of (write_val k v e s) = some e
claim_of (write_key k v e s) = some e
claim_of (commit k v e s) = some e
claim_of (remove_retry k) = none
claim_of (remove_scan k s i) = none
claim_of (remove_val k s i) = none
claim_of (remove_cas k s i w) = none
