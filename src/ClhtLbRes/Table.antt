-- ===== src/ClhtLbRes/Table.antt =====
-- OtherTables/src/clht/src/clht_lb_res.c: a table and its operations under the lock of a bucket, for
-- one thread. The chain of a hash value is as in clht_lb.c.
use lock_free_hop_scotch.Prelude.{
  ℕ, ◌+◌, ◌-◌, Bool, true, false, List, [], ◌∷◌, Option, none, some, ◌==◌, ◌&&◌, if◌then◌else◌,
  update, u32, bit_and,
}
use lock_free_hop_scotch.Buckets.{sum_below}
use lock_free_hop_scotch.ClhtLb.Chain.{
  Slot, Chain, last, link, new_bucket, get, scan, put, remove, size,
}
use lock_free_hop_scotch.ClhtLb.Table.{Locked}

-- `LOCK_FREE`, `LOCK_UPDATE` and `LOCK_RESIZE`
abbrev pub lock_free : ℕ
lock_free = 0

abbrev pub lock_update : ℕ
lock_update = 1

abbrev pub lock_resize : ℕ
lock_resize = 2

-- `clht_hashtable_t`. Its pointers to the tables before and after it are places in the list `prev`
-- of a `Clht`.
pub record Table : Type 0 where
  pub num_buckets : ℕ
  pub table : ℕ → Locked
  pub hash : ℕ
  pub version : ℕ
  pub num_expands : ℕ
  pub num_expands_threshold : ℕ

abbrev pub zero_slot : Slot
zero_slot = record { key = 0; val = 0 }

abbrev pub zero_bucket : Locked
zero_bucket = record { lock = lock_free; chain = last (zero_slot ∷ zero_slot ∷ zero_slot ∷ []) }

-- The parameter is a `uint32_t`; `CLHT_PERC_EXPANSIONS` is 1. `none` is NULL.
unfoldable pub clht_hashtable_create : ℕ → Option Table
clht_hashtable_create num_buckets =
    if num_buckets == 0
    then none
    else some (record {
      num_buckets = num_buckets;
      table = λ i. zero_bucket;
      hash = num_buckets - 1;
      version = 0;
      num_expands = 0;
      num_expands_threshold = if num_buckets == 0 then 1 else num_buckets;
    })

unfoldable pub clht_hash : Table → ℕ → ℕ
clht_hash t key = u32 (bit_and key t.hash)

unfoldable pub clht_get : Table → ℕ → ℕ
unfolding clht_hash get
clht_get t key = get (t.table (clht_hash t key)).chain key

-- The result of `lock_acq_chk_resize`: 0 if the lock is held for a resize and `table_new` is there,
-- which is the first argument. With one thread, a lock that is held for an update is never released,
-- and a `table_new` that is NULL stays so: the code spins, which is `none`.
unfoldable pub lock_acq_chk_resize : Bool → Locked → Option (Bool × Locked)
lock_acq_chk_resize table_new b =
    if b.lock == lock_free
    then some (true, record b { lock = lock_update })
    else if b.lock == lock_resize && table_new
    then some (false, b)
    else none

-- The result of `lock_acq_resize`: 0 if the lock is held for a resize; with one thread, a lock that
-- is held for an update is never released.
unfoldable pub lock_acq_resize : Locked → Option (Bool × Locked)
lock_acq_resize b =
    if b.lock == lock_free
    then some (true, record b { lock = lock_resize })
    else if b.lock == lock_resize
    then some (false, b)
    else none

-- `clht_bucket_create_stats`: the count of new buckets, and whether it has met the threshold.
unfoldable pub count_expand : Table → Bool × Table
count_expand t =
    let n = u32 (t.num_expands + 1) in (n == t.num_expands_threshold, record t { num_expands = n })

-- Whether `clht_put` needs a new bucket, from its search.
abbrev pub needs_bucket : Option (Option ℕ) → Bool
needs_bucket none = false
needs_bucket (some none) = true
needs_bucket (some (some e)) = false

-- The count of a new bucket, if there is one.
abbrev pub note_expand : Bool → Table → Bool × Table
note_expand false t = (false, t)
note_expand true t = count_expand t

-- The body of `clht_put` while it has the lock, which it gives back: `resize`, and the result.
unfoldable pub put_in : (ℕ → ℕ) → Table → ℕ → ℕ → ℕ → Bool × Bool × Table
unfolding put scan count_expand
put_in before t bin key val =
    let c = (t.table bin).chain in
    let r = put before c key val in
    let (resize, t') = note_expand (needs_bucket (scan c key none 0)) t in
    (
      resize,
      r.0,
      record t' { table = update t.table bin (record { lock = lock_free; chain = r.1 }) },
    )

-- The body of `clht_remove` while it has the lock.
unfoldable pub remove_in : Table → ℕ → ℕ → ℕ × Table
unfolding remove
remove_in t bin key =
    let r = remove (t.table bin).chain key in
    (r.0, record t { table = update t.table bin (record { lock = lock_free; chain = r.1 }) })

unfoldable pub clht_size : Table → ℕ
unfolding sum_below
clht_size t = sum_below (λ b. size b.chain) t.table t.num_buckets

-- A slot that is taken stays.
abbrev pub keep_taken : Slot → Option (List Slot) → Option (List Slot)
keep_taken s none = none
keep_taken s (some ss) = some (s ∷ ss)

-- A new entry in the first empty slot of a bucket.
unfoldable pub fill_slot : List Slot → Slot → Option (List Slot)
fill_slot [] new = none
fill_slot (s ∷ ss) new =
    let rest = fill_slot ss new in if s.key == 0 then some (new ∷ ss) else keep_taken s rest

-- The last bucket of a chain, and a bucket with a next one, after the search in it.
abbrev pub fill_last : List Slot → List Slot → Option (List Slot) → Bool × Chain
fill_last ss new none = (true, link ss (last new))
fill_last ss new (some ss') = (false, last ss')

abbrev pub fill_link : List Slot → Chain → Option (List Slot) → Bool × Chain → Bool × Chain
fill_link ss next none rest = (rest.0, link ss rest.1)
fill_link ss next (some ss') rest = (false, link ss' next)

-- The loop of `clht_put_seq` over a chain, and whether it has made a bucket.
unfoldable pub fill : (ℕ → ℕ) → Chain → ℕ → ℕ → Bool × Chain
unfolding fill_slot new_bucket
fill before (last ss) key val =
    fill_last ss (new_bucket before key val) (fill_slot ss (record { key = key; val = val }))
fill before (link ss next) key val =
    let rest = fill before next key val in
    fill_link ss next (fill_slot ss (record { key = key; val = val })) rest

unfoldable pub clht_put_seq : (ℕ → ℕ) → Table → ℕ → ℕ → ℕ → Table
unfolding fill count_expand
clht_put_seq before t key val bin =
    let r = fill before (t.table bin).chain key val in
    let t' = (note_expand r.0 t).1 in
    record t' { table = update t.table bin (record (t.table bin) { chain = r.1 }) }
