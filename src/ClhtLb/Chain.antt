-- ===== src/ClhtLb/Chain.antt =====
-- OtherTables/src/clht/src/clht_lb.c: the chain of buckets of one hash value, and the code that runs
-- on it while its lock is held. The key 0 marks an empty slot.
use lock_free_hop_scotch.Prelude.{
  ℕ, zero, suc, ◌+◌, ◌-◌, Bool, true, false, List, [], ◌∷◌, ◌++◌, length, Option, none, some, ltb,
  ◌==◌, if◌then◌else◌,
}

pub record Slot : Type 0 where
  pub key : ℕ
  pub val : ℕ

-- The slots of a bucket, and what `next` points to, which is NULL in the last one.
pub data Chain : Type 0 where
  last : List Slot → Chain
  link : List Slot → Chain → Chain

-- `before j` is the word at `val[j]` in the memory that `memalign` returns.
unfoldable pub clht_bucket_create : (ℕ → ℕ) → List Slot
clht_bucket_create before =
    record { key = 0; val = before 0 }
    ∷ record { key = 0; val = before 1 }
    ∷ record { key = 0; val = before 2 }
    ∷ []

-- The loop over the slots of one bucket in `clht_get`.
unfoldable pub find_slot : List Slot → ℕ → Option ℕ
find_slot [] key = none
find_slot (s ∷ ss) key = let rest = find_slot ss key in if s.key == key then some s.val else rest

abbrev pub or_else : Option ℕ → Option ℕ → Option ℕ
or_else none b = b
or_else (some a) b = some a

unfoldable pub find : Chain → ℕ → Option ℕ
unfolding find_slot
find (last ss) key = find_slot ss key
find (link ss next) key = let rest = find next key in or_else (find_slot ss key) rest

abbrev pub value_or_0 : Option ℕ → ℕ
value_or_0 none = 0
value_or_0 (some v) = v

unfoldable pub get : Chain → ℕ → ℕ
unfolding find
get c key = value_or_0 (find c key)

-- The loop over the slots of one bucket in `bucket_exists`.
unfoldable pub exists_slot : List Slot → ℕ → Bool
exists_slot [] key = false
exists_slot (s ∷ ss) key = let rest = exists_slot ss key in if s.key == key then true else rest

unfoldable pub bucket_exists : Chain → ℕ → Bool
unfolding exists_slot
bucket_exists (last ss) key = exists_slot ss key
bucket_exists (link ss next) key =
    let rest = bucket_exists next key in if exists_slot ss key then true else rest

-- `empty`, as the index of a slot in the chain, after one more slot.
abbrev pub note_empty : Slot → Option ℕ → ℕ → Option ℕ
note_empty s (some e) i = some e
note_empty s none i = if s.key == 0 then some i else none

-- The search of `clht_put` in one bucket, whose first slot has the index `i`: `none` if the key is
-- there, and else `empty`.
unfoldable pub scan_slots : List Slot → ℕ → Option ℕ → ℕ → Option (Option ℕ)
scan_slots [] key empty i = some empty
scan_slots (s ∷ ss) key empty i =
    let rest = scan_slots ss key (note_empty s empty i) (i + 1) in
    if s.key == key then none else rest

unfoldable pub scan : Chain → ℕ → Option ℕ → ℕ → Option (Option ℕ)
unfolding scan_slots
scan (last ss) key empty i = scan_slots ss key empty i
scan (link ss next) key empty i = elim (scan_slots ss key empty i) [
  | none ↦ none
  | some empty' ↦ scan next key empty' (i + length ss)
]

-- A write through `empty` and `empty_v`.
unfoldable pub write_slot : List Slot → ℕ → Slot → List Slot
write_slot [] i new = []
write_slot (s ∷ ss) zero new = new ∷ ss
write_slot (s ∷ ss) (suc i) new = s ∷ write_slot ss i new

unfoldable pub write : Chain → ℕ → Slot → Chain
unfolding write_slot
write (last ss) i new = last (write_slot ss i new)
write (link ss next) i new =
    let rest = write next (i - length ss) new in
    if ltb i (length ss) then link (write_slot ss i new) next else link ss rest

-- A new bucket after the last one.
unfoldable pub append : Chain → List Slot → Chain
append (last ss) new = link ss (last new)
append (link ss next) new = link ss (append next new)

-- `bucket->next` with the key in its first slot.
unfoldable pub new_bucket : (ℕ → ℕ) → ℕ → ℕ → List Slot
unfolding clht_bucket_create write_slot
new_bucket before key val =
    write_slot (clht_bucket_create before) 0 (record { key = key; val = val })

-- What `clht_put` does after its search.
unfoldable pub store : (ℕ → ℕ) → Chain → ℕ → ℕ → Option (Option ℕ) → Bool × Chain
unfolding write append new_bucket
store before c key val none = (false, c)
store before c key val (some none) = (true, append c (new_bucket before key val))
store before c key val (some (some e)) = (true, write c e (record { key = key; val = val }))

unfoldable pub put : (ℕ → ℕ) → Chain → ℕ → ℕ → Bool × Chain
unfolding scan store
put before c key val = store before c key val (scan c key none 0)

-- A slot that is not the key's stays.
abbrev pub keep_slot : Slot → Option (ℕ × List Slot) → Option (ℕ × List Slot)
keep_slot s none = none
keep_slot s (some (val, ss')) = some (val, s ∷ ss')

-- The loop over the slots of one bucket in `clht_remove`.
unfoldable pub remove_slot : List Slot → ℕ → Option (ℕ × List Slot)
remove_slot [] key = none
remove_slot (s ∷ ss) key =
    let rest = remove_slot ss key in
    if s.key == key then some (s.val, record s { key = 0 } ∷ ss) else keep_slot s rest

-- The chain after the removal in this bucket, or else in the next ones.
abbrev pub remove_here :
    List Slot → Chain → Option (ℕ × List Slot) → Option (ℕ × Chain) → Option (ℕ × Chain)
remove_here ss next (some (val, ss')) rest = some (val, link ss' next)
remove_here ss next none (some (val, next')) = some (val, link ss next')
remove_here ss next none none = none

abbrev pub remove_last : Option (ℕ × List Slot) → Option (ℕ × Chain)
remove_last none = none
remove_last (some (val, ss')) = some (val, last ss')

unfoldable pub remove_from : Chain → ℕ → Option (ℕ × Chain)
unfolding remove_slot
remove_from (last ss) key = remove_last (remove_slot ss key)
remove_from (link ss next) key =
    let rest = remove_from next key in remove_here ss next (remove_slot ss key) rest

-- What `clht_remove` returns: `false`, which is 0, if the key is not there.
abbrev pub removed : Chain → Option (ℕ × Chain) → ℕ × Chain
removed c none = (0, c)
removed c (some (val, c')) = (val, c')

unfoldable pub remove : Chain → ℕ → ℕ × Chain
unfolding remove_from
remove c key = removed c (remove_from c key)

-- The slots with a key, in `clht_size`.
unfoldable pub count : List Slot → ℕ
count [] = 0
count (s ∷ ss) = if ltb 0 s.key then count ss + 1 else count ss

unfoldable pub size : Chain → ℕ
unfolding count
size (last ss) = count ss
size (link ss next) = count ss + size next

-- All slots of the chain, in the order of the loops.
unfoldable pub slots : Chain → List Slot
slots (last ss) = ss
slots (link ss next) = ss ++ slots next
