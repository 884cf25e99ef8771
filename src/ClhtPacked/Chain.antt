-- ===== src/ClhtPacked/Chain.antt =====
-- OtherTables/src/clht/src/clht_lb_packed.c: the operations on the chain of a hash value.
use lock_free_hop_scotch.Prelude.{
  ℕ, zero, suc, ◌+◌, ◌-◌, Bool, true, false, List, [], ◌∷◌, Option, none, some, ltb, ◌==◌,
  if◌then◌else◌, u32,
}
use lock_free_hop_scotch.ClhtLb.Chain.{Slot, or_else, value_or_0, write_slot, new_bucket}

-- The first `last` slots of a bucket are in use; `ENTRIES_PER_BUCKET` is 3.
pub record Bucket : Type 0 where
  pub last : ℕ
  pub slots : List Slot

pub data Chain : Type 0 where
  single : Bucket → Chain
  more : Bucket → Chain → Chain

-- Slot `j`, which is there whenever the code reads it.
unfoldable pub at : List Slot → ℕ → Slot
at [] j = record { key = 0; val = 0 }
at (s ∷ ss) zero = s
at (s ∷ ss) (suc j) = at ss j

-- The loop of `clht_get` over a bucket, from slot `j - 1` down.
unfoldable pub find_down : List Slot → ℕ → ℕ → Option ℕ
unfolding at
find_down ss key zero = none
find_down ss key (suc j) =
    let rest = find_down ss key j in if (at ss j).key == key then some (at ss j).val else rest

-- The loop of `clht_get` over the buckets ends at one that is not full.
unfoldable pub search : Chain → ℕ → Option ℕ
unfolding find_down
search (single b) key = find_down b.slots key b.last
search (more b next) key =
    let rest = search next key in
    or_else (find_down b.slots key b.last) (if ltb b.last 3 then none else rest)

unfoldable pub get : Chain → ℕ → ℕ
unfolding search
get c key = value_or_0 (search c key)

-- The loops of `bucket_exists`.
unfoldable pub exists_down : List Slot → ℕ → ℕ → Bool
unfolding at
exists_down ss key zero = false
exists_down ss key (suc j) =
    let rest = exists_down ss key j in if (at ss j).key == key then true else rest

unfoldable pub bucket_exists : Chain → ℕ → Bool
unfolding exists_down
bucket_exists (single b) key = exists_down b.slots key b.last
bucket_exists (more b next) key =
    let rest = bucket_exists next key in
    if exists_down b.slots key b.last then true else if ltb b.last 3 then false else rest

-- The place of a slot, one further on.
abbrev pub one_on : Option ℕ → Option ℕ
one_on none = none
one_on (some j) = some (suc j)

-- The loop of `clht_put` and of `clht_remove` over the first `n` slots of a bucket: where the key is.
unfoldable pub first_at : List Slot → ℕ → ℕ → Option ℕ
first_at [] key n = none
first_at (s ∷ ss) key zero = none
first_at (s ∷ ss) key (suc n) =
    let rest = first_at ss key n in if s.key == key then some 0 else one_on rest

-- A new entry after those of a bucket.
unfoldable pub push : Bucket → ℕ → ℕ → Bucket
unfolding write_slot
push b key val = record {
  last = u32 (b.last + 1);
  slots = write_slot b.slots b.last (record { key = key; val = val });
}

-- A new bucket with one entry; `before j` is what its memory held as value `j`.
unfoldable pub first_entry : (ℕ → ℕ) → ℕ → ℕ → Bucket
unfolding new_bucket
first_entry before key val = record { last = 1; slots = new_bucket before key val }

-- The end of the search of `clht_put` in a bucket: the key is there; the bucket has room; it is full.
abbrev pub put_last : (ℕ → ℕ) → Bucket → ℕ → ℕ → Option ℕ → Bool × Chain
put_last before b key val (some j) = (false, single b)
put_last before b key val none =
    if ltb b.last 3
    then (true, single (push b key val))
    else (true, more b (single (first_entry before key val)))

abbrev pub put_more : Bucket → Chain → ℕ → ℕ → Option ℕ → Bool × Chain → Bool × Chain
put_more b next key val (some j) rest = (false, more b next)
put_more b next key val none rest =
    if ltb b.last 3 then (true, more (push b key val) next) else (rest.0, more b rest.1)

-- The loop of `clht_put`.
unfoldable pub put : (ℕ → ℕ) → Chain → ℕ → ℕ → Bool × Chain
unfolding first_at push first_entry
put before (single b) key val = put_last before b key val (first_at b.slots key b.last)
put before (more b next) key val =
    let rest = put before next key val in put_more b next key val (first_at b.slots key b.last) rest

abbrev pub head : Chain → Bucket
head (single b) = b
head (more b next) = b

-- A write to a slot of the first bucket.
unfoldable pub set : Chain → ℕ → Slot → Chain
unfolding write_slot
set (single b) j s = single (record b { slots = write_slot b.slots j s })
set (more b next) j s = more (record b { slots = write_slot b.slots j s }) next

-- The last entry of a bucket, and the bucket without it.
abbrev pub pop : Bucket → Slot × Bucket
pop b = (at b.slots (b.last - 1), record b { last = b.last - 1 })

-- The loop of `clht_remove` for `blast`, the last bucket that is in use, and its last entry.
unfoldable pub take_last : Chain → Slot × Chain
unfolding at
take_last (single b) = let r = pop b in (r.0, single r.1)
take_last (more b next) =
    let rest = take_last next in
    let r = pop b in if (head next).last == 0 then (r.0, more r.1 next) else (rest.0, more b rest.1)

-- The removal of the entry in slot `j` of the first bucket: its key is 0 while the last entry is
-- read, which then takes its place.
unfoldable pub remove_at : Chain → ℕ → ℕ × Chain
unfolding set take_last at
remove_at c j =
    let s = at (head c).slots j in
    let r = take_last (set c j (record { key = 0; val = s.val })) in (s.val, set r.1 j r.0)

-- The end of the search of `clht_remove` in a bucket.
abbrev pub found_or : Chain → Option ℕ → Option (ℕ × Chain) → Option (ℕ × Chain)
found_or c (some j) rest = some (remove_at c j)
found_or c none rest = rest

abbrev pub behind : Bucket → Option (ℕ × Chain) → Option (ℕ × Chain)
behind b none = none
behind b (some (val, next)) = some (val, more b next)

-- The loop of `clht_remove`; `none` if the key is not found.
unfoldable pub remove_from : Chain → ℕ → Option (ℕ × Chain)
unfolding first_at remove_at
remove_from (single b) key = found_or (single b) (first_at b.slots key b.last) none
remove_from (more b next) key =
    let rest = remove_from next key in
    found_or (more b next) (first_at b.slots key b.last)
      (if ltb b.last 3 then none else behind b rest)

abbrev pub removed : Chain → Option (ℕ × Chain) → ℕ × Chain
removed c none = (0, c)
removed c (some r) = r

unfoldable pub remove : Chain → ℕ → ℕ × Chain
unfolding remove_from
remove c key = removed c (remove_from c key)

-- The loop of `clht_size` over the buckets of a chain.
unfoldable pub size : Chain → ℕ
size (single b) = b.last
size (more b next) = let rest = size next in b.last + (if ltb b.last 3 then 0 else rest)
