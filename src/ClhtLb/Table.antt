-- ===== src/ClhtLb/Table.antt =====
-- OtherTables/src/clht/src/clht_lb.c: the table, with a lock and a chain for each hash value. One
-- thread: a lock that is held makes it spin for ever, which is `none`.
use lock_free_hop_scotch.Prelude.{
  ℕ, zero, suc, ◌+◌, ◌-◌, Bool, false, not, [], ◌∷◌, Option, none, some, ◌==◌, if◌then◌else◌,
  update, u32, bit_and,
}
use lock_free_hop_scotch.ClhtLb.Chain.{Chain, last, bucket_exists, get, put, remove, size}

-- The first bucket of a chain has the lock of the chain.
pub record Locked : Type 0 where
  pub lock : ℕ
  pub chain : Chain

-- `table` is an array of `num_buckets` buckets.
pub record Table : Type 0 where
  pub num_buckets : ℕ
  pub table : ℕ → Locked

-- `memset` and the loops: all words are 0.
unfoldable pub clht_hashtable_create : ℕ → Option Table
clht_hashtable_create num_buckets =
    if num_buckets == 0
    then none
    else some (record {
      num_buckets = num_buckets;
      table = λ i. record {
        lock = 0;
        chain = last (
            record { key = 0; val = 0 }
            ∷ record { key = 0; val = 0 }
            ∷ record { key = 0; val = 0 }
            ∷ []);
      };
    })

-- `&` on the key and the mask, as a `uint32_t`
unfoldable pub clht_hash : Table → ℕ → ℕ
clht_hash t key = u32 (bit_and key (t.num_buckets - 1))

-- `LOCK_ACQ` and `LOCK_RLS`
unfoldable pub lock_acq : Locked → Option Locked
lock_acq b = if b.lock == 0 then some (record b { lock = 1 }) else none

abbrev pub lock_rls : Locked → Locked
lock_rls b = record b { lock = 0 }

-- Neither of them takes the lock.
unfoldable pub clht_get : Table → ℕ → ℕ
unfolding clht_hash get
clht_get t key = get (t.table (clht_hash t key)).chain key

abbrev pub put_locked : (ℕ → ℕ) → Table → ℕ → ℕ → ℕ → Option Locked → Option (Bool × Table)
put_locked before t bin key val none = none
put_locked before t bin key val (some b) =
    let r = put before b.chain key val in
    some (r.0, record t { table = update t.table bin (lock_rls (record b { chain = r.1 })) })

-- `READ_ONLY_FAIL` is defined: the search for the key comes first, without the lock.
unfoldable pub clht_put : (ℕ → ℕ) → Table → ℕ → ℕ → Option (Bool × Table)
unfolding clht_hash lock_acq put bucket_exists
clht_put before t key val =
    let bin = clht_hash t key in
    let locked = put_locked before t bin key val (lock_acq (t.table bin)) in
    if bucket_exists (t.table bin).chain key then some (false, t) else locked

abbrev pub remove_locked : Table → ℕ → ℕ → Option Locked → Option (ℕ × Table)
remove_locked t bin key none = none
remove_locked t bin key (some b) =
    let r = remove b.chain key in
    some (r.0, record t { table = update t.table bin (lock_rls (record b { chain = r.1 })) })

unfoldable pub clht_remove : Table → ℕ → Option (ℕ × Table)
unfolding clht_hash lock_acq remove bucket_exists
clht_remove t key =
    let bin = clht_hash t key in
    let locked = remove_locked t bin key (lock_acq (t.table bin)) in
    if not (bucket_exists (t.table bin).chain key) then some (0, t) else locked

-- The loop of `clht_size` over the first `n` buckets.
unfoldable pub size_below : (ℕ → Locked) → ℕ → ℕ
unfolding size
size_below table zero = 0
size_below table (suc n) = size_below table n + size (table n).chain

unfoldable pub clht_size : Table → ℕ
unfolding size_below
clht_size t = size_below t.table t.num_buckets
