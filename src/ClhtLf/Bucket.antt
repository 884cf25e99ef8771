-- ===== src/ClhtLf/Bucket.antt =====
-- OtherTables/src/clht/include/clht_lf.h: a bucket, its snapshot word, and the operations on a
-- snapshot. The word is 8 bytes: the version, a byte of `map` for each slot, and a byte that stays 0.
use lock_free_hop_scotch.Prelude.{
  ℕ, zero, suc, ◌+◌, ◌<◌, ◌≡◌, Option, none, some, ◌==◌, if◌then◌else◌, update, u32, Bool, not,
  ◌&&◌,
}

-- `MAP_INVLD`, `MAP_VALID`, `MAP_INSRT`
abbrev pub invalid : ℕ
invalid = 0

abbrev pub valid : ℕ
valid = 1

abbrev pub inserting : ℕ
inserting = 2

-- `KEY_BUCKT`, also `ENTRIES_PER_BUCKET`
abbrev pub entries : ℕ
entries = 3

-- `map`, `key` and `val` are arrays of `entries` elements, by index.
pub record Bucket : Type 0 where
  pub version : ℕ
  pub map : ℕ → ℕ
  pub key : ℕ → ℕ
  pub val : ℕ → ℕ

pub record Snapshot : Type 0 where
  pub version : ℕ
  pub map : ℕ → ℕ

abbrev pub snapshot : Bucket → Snapshot
snapshot b = record { version = b.version; map = b.map }

-- The snapshot word of the bucket is `s`: the test of `CAS_U64(&bucket->snapshot, s, ...)`.
pub record Same (s : Snapshot) (b : Bucket) : Type 0 where
  pub version : b.version ≡ s.version
  pub map : (i : ℕ) → i < entries → b.map i ≡ s.map i

-- The loop of `snap_get_empty_index`: `n` slots from slot `i` on; `none` is -1.
unfoldable pub empty_from : Snapshot → ℕ → ℕ → Option ℕ
empty_from s zero i = none
empty_from s (suc n) i =
    let rest = empty_from s n (i + 1) in if s.map i == invalid then some i else rest

unfoldable pub snap_get_empty_index : Snapshot → Option ℕ
unfolding empty_from
snap_get_empty_index s = empty_from s entries 0

-- The loops of the other searches: the first of `n` slots from slot `i` on that passes the test.
unfoldable pub slot_from : (ℕ → Bool) → ℕ → ℕ → Option ℕ
slot_from test zero i = none
slot_from test (suc n) i = let rest = slot_from test n (i + 1) in if test i then some i else rest

unfoldable pub keys_get_empty_index : (ℕ → ℕ) → Option ℕ
unfolding slot_from
keys_get_empty_index keys = slot_from (λ i. keys i == 0) entries 0

unfoldable pub buck_get_empty_index : Bucket → Snapshot → Option ℕ
unfolding slot_from
buck_get_empty_index b s = slot_from (λ i. b.key i == 0 && not (s.map i == inserting)) entries 0

unfoldable pub vals_get_empty_index : (ℕ → ℕ) → Snapshot → Option ℕ
unfolding slot_from
vals_get_empty_index vals s = slot_from (λ i. vals i == 0 && not (s.map i == inserting)) entries 0

abbrev pub snap_set_map : Snapshot → ℕ → ℕ → Snapshot
snap_set_map s index v = record s { map = update s.map index v }

abbrev pub snap_set_map_and_inc_version : Snapshot → ℕ → ℕ → Snapshot
snap_set_map_and_inc_version s index v = record {
  version = u32 (s.version + 1);
  map = update s.map index v;
}

-- A write of the snapshot word.
abbrev pub store_snapshot : Bucket → Snapshot → Bucket
store_snapshot b s = record b { version = s.version; map = s.map }
