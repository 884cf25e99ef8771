-- ===== src/ClhtPacked/Table.antt =====
-- OtherTables/src/clht/src/clht_lb_packed.c: the table, for one thread. A lock that is held makes it
-- spin for ever, which is `none`.
use lock_free_hop_scotch.Prelude.{
  ℕ, ◌-◌, Bool, false, not, [], ◌∷◌, Option, none, some, ◌==◌, if◌then◌else◌, update, u32, bit_and,
}
use lock_free_hop_scotch.Prelude.Options.{◌>>=◌}
use lock_free_hop_scotch.Buckets.{sum_below}
use lock_free_hop_scotch.ClhtPacked.Chain.{
  Bucket, Chain, single, get, bucket_exists, put, remove, size,
}

-- The first bucket of a chain has the lock of the chain.
pub record Locked : Type 0 where
  pub lock : ℕ
  pub chain : Chain

pub record Table : Type 0 where
  pub num_buckets : ℕ
  pub table : ℕ → Locked

abbrev pub empty_bucket : Bucket
empty_bucket = record {
  last = 0;
  slots =
      record { key = 0; val = 0 } ∷ record { key = 0; val = 0 } ∷ record { key = 0; val = 0 } ∷ [];
}

-- `none` is NULL.
unfoldable pub clht_hashtable_create : ℕ → Option Table
clht_hashtable_create num_buckets =
    if num_buckets == 0
    then none
    else some (record {
      num_buckets = num_buckets;
      table = λ i. record { lock = 0; chain = single empty_bucket };
    })

unfoldable pub clht_hash : Table → ℕ → ℕ
clht_hash t key = u32 (bit_and key (t.num_buckets - 1))

-- `LOCK_ACQ`
unfoldable pub lock_acq : Locked → Option Locked
lock_acq b = if b.lock == 0 then some (record b { lock = 0xff }) else none

unfoldable pub clht_get : Table → ℕ → ℕ
unfolding clht_hash get
clht_get t key = get (t.table (clht_hash t key)).chain key

-- `READ_ONLY_FAIL` is defined: the search for the key comes first, without the lock.
unfoldable pub clht_put : (ℕ → ℕ) → Table → ℕ → ℕ → Option (Bool × Table)
unfolding clht_hash lock_acq put bucket_exists
clht_put before t key val =
    let bin = clht_hash t key in
    let locked : Option (Bool × Table) = (do
      b ← lock_acq (t.table bin)
      let r = put before b.chain key val
      some (r.0, record t { table = update t.table bin (record { lock = 0; chain = r.1 }) })) in
    if bucket_exists (t.table bin).chain key then some (false, t) else locked

unfoldable pub clht_remove : Table → ℕ → Option (ℕ × Table)
unfolding clht_hash lock_acq remove bucket_exists
clht_remove t key =
    let bin = clht_hash t key in
    let locked : Option (ℕ × Table) = (do
      b ← lock_acq (t.table bin)
      let r = remove b.chain key
      some (r.0, record t { table = update t.table bin (record { lock = 0; chain = r.1 }) })) in
    if not (bucket_exists (t.table bin).chain key) then some (0, t) else locked

unfoldable pub clht_size : Table → ℕ
unfolding sum_below size
clht_size t = u32 (sum_below (λ b. size b.chain) t.table t.num_buckets)
