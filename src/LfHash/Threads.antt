-- ===== src/LfHash/Threads.antt =====
-- OurTable/src/LFHash.h: one thread in `contains`, `add` or `Remove` while other threads are at
-- work, one access to the array at a time.
pub mod System
pub mod Words
pub mod Found
pub mod Calls
pub mod WaitFree
pub mod Answer
pub mod Absent
pub mod Twice
use lock_free_hop_scotch.Prelude.{
  ℕ, ◌+◌, ◌^◌, ◌≤◌, ◌<◌, ◌≡◌, ◌≢◌, Bool, true, false, ◌||◌, List, [], ◌∷◌, ◌++◌, ltb, leb, ◌==◌,
  if◌then◌else◌, update, sub32, shr, u64, u32, bit_or,
}
use lock_free_hop_scotch.LfHash.Hash.{home}
use lock_free_hop_scotch.LfHash.Entry.{clear_tag, with_tag, is_deleted, bucket_entry}
use lock_free_hop_scotch.LfHash.Table.{hop, add_range, Table, get_bucket, is_entry_of}
use lock_free_hop_scotch.LfHash.Remove.{find_first, find_next, final_entry, random_entry}

-- Who has called `contains`: the user, or `add`.
pub data Caller : Type 0 where
  user : Caller
  adder : Caller

-- Where a thread stands, with the locals that are live there: `k` is the key, `b` its home slot.
pub data Pc : Type 0 where
  ended : (result : Bool) → Pc  -- between two calls
  stopped : Pc  -- after `exit(0)`
  look : (c : Caller) (k b p : ℕ) (found : Bool) → Pc  -- head of the loop of `contains`
  probe : (k b trails slot tag : ℕ) → Pc  -- head of the inner loop of `add`
  reserving : (k b trails slot tag : ℕ) → Pc  -- before the first exchange of `add`
  measure : (k b loc replace ind : ℕ) → Pc  -- before `getBucket(Ind)` in `Relocate`
  advancing : (k b loc replace dist : ℕ) → Pc  -- head of the inner loop of `Relocate`
  claiming : (k b loc replace : ℕ) → Pc  -- before `Exp = Buckets[Replace]`
  claim_cas : (k b loc replace exp : ℕ) → Pc
  moving : (k b loc replace : ℕ) → Pc  -- before `Dest = Buckets[Loc]`
  move_from : (k b loc replace dest : ℕ) → Pc  -- before `Fin = Buckets[Replace]`
  move_cas : (k b loc replace dest fin : ℕ) → Pc
  giving : (k b loc replace : ℕ) → Pc  -- before the last load of `Relocate`
  give_cas : (k b loc replace exp : ℕ) → Pc
  release : (k b slot : ℕ) → Pc  -- before `Exp = Buckets[SlotIndex]` in `add`
  release_cas : (k b slot exp : ℕ) → Pc
  insert : (k b p tag cached : ℕ) → Pc  -- head of the first loop of `BucketInsert`
  insert_cas : (k b p tag cached : ℕ) → Pc
  reuse : (k b p cached : ℕ) → Pc  -- head of its second loop
  reuse_cas : (k b p e : ℕ) → Pc
  stamp : (k : ℕ) → Pc  -- before `TimeStamp()` in `Remove`
  mark : (k b final p : ℕ) (bits : List Bool) → Pc  -- head of its first loop
  mark_again : (k b final p : ℕ) (bits : List Bool) → Pc  -- before the second read of a slot
  first_cas : (k b final i1 i2 : ℕ) → Pc
  second_cas : (k b final i2 : ℕ) (won : Bool) → Pc
  sweep : (k b p : ℕ) (won : Bool) → Pc  -- head of its last loop
  sweep_test : (k b p slot : ℕ) (won : Bool) → Pc
  sweep_cas : (k b p slot : ℕ) (won : Bool) → Pc

-- A write of one slot.
abbrev pub write : Table → ℕ → ℕ → Table
write m i v = record m { slots = update m.slots i v }

-- The rest of `add`, when the reservation is at `slot`: `(SlotIndex - BaseBucket) > H`.
abbrev pub pull : ℕ → ℕ → ℕ → Pc
pull k b slot =
    if ltb hop (sub32 slot b)
    then measure k b slot (sub32 slot hop) (sub32 slot hop)
    else release k b slot

-- The reservation is made.
abbrev pub reserved : ℕ → ℕ → ℕ → ℕ → Pc
reserved k b trails slot = if leb add_range trails then stopped else pull k b slot

-- `Relocate` has returned `replace`.
abbrev pub pulled : ℕ → ℕ → ℕ → ℕ → Pc
pulled k b loc replace = if loc == replace then stopped else pull k b replace

-- `contains` has returned.
abbrev pub looked : Caller → ℕ → ℕ → Bool → Pc
looked user k b found = ended found
looked adder k b true = ended true
looked adder k b false = probe k b 0 b 0

-- One step of a thread. A weak exchange may fail at any time. `TimeStamp()` is one step.
pub data Move (m : Table) : Pc → Table → Pc → Type 0 where
  call_contains :
      {r : Bool} (k : ℕ) → k < 2 ^ 32 → Move m (ended r) m (look user k (home m.seed k) 0 false)
  call_add :
      {r : Bool} (k : ℕ) → k < 2 ^ 32 → Move m (ended r) m (look adder k (home m.seed k) 0 false)
  call_remove : {r : Bool} (k : ℕ) → k < 2 ^ 32 → Move m (ended r) m (stamp k)
  look_slot :
      {c : Caller} {k b p : ℕ} {f : Bool}
      → p ≤ hop
      → Move m (look c k b p f) m (look c k b (p + 1) (f || is_entry_of k (m.slots (b + p))))
  look_end :
      {c : Caller} {k b p : ℕ} {f : Bool} → hop < p → Move m (look c k b p f) m (looked c k b f)
  probe_taken :
      {k b trails slot tag : ℕ}
      → trails < add_range
      → m.slots slot ≢ 0
      → Move m (probe k b trails slot tag) m (probe k b (trails + 1) (slot + 1) tag)
  probe_free :
      {k b trails slot tag : ℕ}
      → trails < add_range
      → m.slots slot ≡ 0
      → Move m (probe k b trails slot tag) m (reserving k b (trails + 1) slot tag)
  probe_limit :
      {k b trails slot tag : ℕ}
      → add_range ≤ trails
      → Move m (probe k b trails slot tag) m (reserving k b (trails + 1) slot tag)
  reserve_win :
      {k b trails slot tag : ℕ}
      → m.slots slot ≡ tag
      → Move m
          (reserving k b trails slot tag)
          (write m slot (bucket_entry k 0))
          (reserved k b trails slot)
  reserve_lose :
      {k b trails slot tag : ℕ}
      → trails < add_range
      → Move m (reserving k b trails slot tag) m (probe k b trails slot (m.slots slot))
  reserve_fail :
      {k b trails slot tag : ℕ}
      → add_range ≤ trails
      → Move m (reserving k b trails slot tag) m stopped
  measure_slot :
      {k b loc replace ind : ℕ}
      → Move m
          (measure k b loc replace ind)
          m
          (advancing k b loc replace (sub32 loc (get_bucket m.seed m.slots ind)))
  advance_slot :
      {k b loc replace dist : ℕ}
      → hop ≤ dist
      → replace < loc
      → Move m
          (advancing k b loc replace dist)
          m
          (advancing k b loc (replace + 1) (sub32 loc (get_bucket m.seed m.slots (replace + 1))))
  advance_found :
      {k b loc replace dist : ℕ}
      → dist < hop
      → replace < loc
      → Move m (advancing k b loc replace dist) m (claiming k b loc replace)
  advance_fail :
      {k b loc replace dist : ℕ} → loc ≤ replace → Move m (advancing k b loc replace dist) m stopped
  claim_load :
      {k b loc replace : ℕ}
      → Move m
          (claiming k b loc replace)
          m
          (claim_cas k b loc replace (clear_tag (m.slots replace)))
  claim_win :
      {k b loc replace exp : ℕ}
      → m.slots replace ≡ exp
      → Move m
          (claim_cas k b loc replace exp)
          (write m replace (with_tag 1 exp))
          (moving k b loc replace)
  claim_lose :
      {k b loc replace exp : ℕ}
      → Move m (claim_cas k b loc replace exp) m (measure k b loc replace (replace + 1))
  move_dest :
      {k b loc replace : ℕ}
      → Move m (moving k b loc replace) m (move_from k b loc replace (with_tag 3 (m.slots loc)))
  move_load :
      {k b loc replace dest : ℕ}
      → Move m
          (move_from k b loc replace dest)
          m
          (move_cas k b loc replace dest (clear_tag (m.slots replace)))
  move_win :
      {k b loc replace dest fin : ℕ}
      → m.slots loc ≡ dest
      → Move m (move_cas k b loc replace dest fin) (write m loc fin) (giving k b loc replace)
  move_lose :
      {k b loc replace dest fin : ℕ}
      → Move m (move_cas k b loc replace dest fin) m (giving k b loc replace)
  give_load :
      {k b loc replace : ℕ}
      → Move m (giving k b loc replace) m (give_cas k b loc replace (with_tag 1 (m.slots replace)))
  give_win :
      {k b loc replace exp : ℕ}
      → m.slots replace ≡ exp
      → Move m
          (give_cas k b loc replace exp)
          (write m replace (bucket_entry k 0))
          (pulled k b loc replace)
  give_lose :
      {k b loc replace exp : ℕ} → Move m (give_cas k b loc replace exp) m (pulled k b loc replace)
  release_load : {k b slot : ℕ} → Move m (release k b slot) m (release_cas k b slot (m.slots slot))
  release_win :
      {k b slot exp : ℕ} (cached : ℕ)
      → m.slots slot ≡ exp
      → Move m (release_cas k b slot exp) (write m slot 0) (insert k b 0 0 cached)
  release_lose :
      {k b slot exp : ℕ} (cached : ℕ) → Move m (release_cas k b slot exp) m (insert k b 0 0 cached)
  insert_free :
      {k b p tag cached : ℕ}
      → p ≤ hop
      → m.slots (b + p) ≡ 0
      → Move m (insert k b p tag cached) m (insert_cas k b p tag cached)
  insert_taken :
      {k b p tag cached : ℕ}
      → p ≤ hop
      → m.slots (b + p) ≢ 0
      → Move m (insert k b p tag cached) m (
          insert k b (p + 1) tag (if is_deleted (m.slots (b + p)) then m.slots (b + p) else cached))
  insert_end :
      {k b p tag cached : ℕ} → hop < p → Move m (insert k b p tag cached) m (reuse k b 0 cached)
  insert_win :
      {k b p tag cached : ℕ}
      → m.slots (b + p) ≡ tag
      → Move m (insert_cas k b p tag cached) (write m (b + p) k) (ended true)
  insert_lose :
      {k b p tag cached : ℕ}
      → Move m (insert_cas k b p tag cached) m (insert k b (p + 1) (m.slots (b + p)) cached)
  reuse_skip :
      {k b p cached : ℕ}
      → p ≤ hop
      → is_deleted (m.slots (b + p)) ≡ false
      → Move m (reuse k b p cached) m (reuse k b (p + 1) cached)
  reuse_other :
      {k b p cached : ℕ} (fresh : ℕ)
      → p ≤ hop
      → is_deleted (m.slots (b + p)) ≡ true
      → m.slots (b + p) ≢ cached
      → Move m (reuse k b p cached) m (insert k b 0 0 fresh)
  reuse_found :
      {k b p cached : ℕ}
      → p ≤ hop
      → is_deleted (m.slots (b + p)) ≡ true
      → m.slots (b + p) ≡ cached
      → Move m (reuse k b p cached) m (reuse_cas k b p cached)
  reuse_end : {k b p cached : ℕ} → hop < p → Move m (reuse k b p cached) m stopped
  reuse_win :
      {k b p e : ℕ}
      → m.slots (b + p) ≡ e
      → Move m (reuse_cas k b p e) (write m (b + p) k) (ended true)
  reuse_lose : {k b p e : ℕ} (fresh : ℕ) → Move m (reuse_cas k b p e) m (insert k b 0 0 fresh)
  take_stamp :
      {k : ℕ}
      → Move m
          (stamp k)
          (record m { time_stamp = u64 (m.time_stamp + 1) })
          (mark k (home m.seed k) (final_entry (u32 m.time_stamp)) 0 [])
  mark_plain :
      {k b final p : ℕ} {bits : List Bool}
      → p ≤ hop
      → m.slots (b + p) ≡ k
      → Move m (mark k b final p bits) m (mark k b final (p + 1) (bits ++ true ∷ []))
  mark_other :
      {k b final p : ℕ} {bits : List Bool}
      → p ≤ hop
      → m.slots (b + p) ≢ k
      → Move m (mark k b final p bits) m (mark_again k b final p bits)
  mark_moved :
      {k b final p : ℕ} {bits : List Bool}
      → m.slots (b + p) ≡ with_tag 1 k
      → Move m (mark_again k b final p bits) m (mark k b final (p + 1) (bits ++ true ∷ []))
  mark_none :
      {k b final p : ℕ} {bits : List Bool}
      → m.slots (b + p) ≢ with_tag 1 k
      → Move m (mark_again k b final p bits) m (mark k b final (p + 1) (bits ++ false ∷ []))
  mark_end :
      {k b final p : ℕ} {bits : List Bool}
      → hop < p
      → Move m
          (mark k b final p bits)
          m
          (first_cas k b final (find_first bits) (find_next bits (find_first bits)))
  first_win :
      {k b final i1 i2 : ℕ}
      → m.slots (b + i1) ≡ k
      → Move m (first_cas k b final i1 i2) (write m (b + i1) final) (second_cas k b final i2 true)
  first_lose :
      {k b final i1 i2 : ℕ}
      → m.slots (b + i1) ≢ k
      → Move m (first_cas k b final i1 i2) m (second_cas k b final i2 false)
  second_win :
      {k b final i2 : ℕ} {won : Bool}
      → m.slots (b + i2) ≡ bit_or k (2 ^ 62)
      → Move m (second_cas k b final i2 won) (write m (b + i2) final) (sweep k b 0 true)
  second_lose :
      {k b final i2 : ℕ} {won : Bool}
      → m.slots (b + i2) ≢ bit_or k (2 ^ 62)
      → Move m (second_cas k b final i2 won) m (sweep k b 0 won)
  sweep_load :
      {k b p : ℕ} {won : Bool}
      → p ≤ hop
      → Move m (sweep k b p won) m (sweep_test k b p (with_tag 3 (m.slots (b + p))) won)
  sweep_skip :
      {k b p slot : ℕ} {won : Bool}
      → shr (m.slots (b + p)) 62 ≢ 3
      → Move m (sweep_test k b p slot won) m (sweep k b (p + 1) won)
  sweep_reserved :
      {k b p slot : ℕ} {won : Bool}
      → shr (m.slots (b + p)) 62 ≡ 3
      → Move m (sweep_test k b p slot won) m (sweep_cas k b p slot won)
  sweep_win :
      {k b p slot : ℕ} {won : Bool}
      → m.slots (b + p) ≡ slot
      → Move m (sweep_cas k b p slot won) (write m (b + p) random_entry) (sweep k b (p + 1) won)
  sweep_lose :
      {k b p slot : ℕ} {won : Bool} → Move m (sweep_cas k b p slot won) m (sweep k b (p + 1) won)
  sweep_end : {k b p : ℕ} {won : Bool} → hop < p → Move m (sweep k b p won) m (ended won)
