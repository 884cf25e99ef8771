-- ===== src/ClhtLf/Table.antt =====
-- OtherTables/src/clht/src/clht_lf.c: a table of buckets, its creation, its hash and its size.
pub mod Threads
pub mod Bins
pub mod Keys
pub mod Refinement
pub mod Place
pub mod Count
pub mod Size
use lock_free_hop_scotch.Prelude.{
  ℕ, zero, suc, ◌+◌, ◌-◌, Bool, true, false, not, ◌&&◌, Option, none, some, ◌==◌, if◌then◌else◌,
  u32, bit_and,
}
use lock_free_hop_scotch.ClhtLf.Bucket.{valid, entries, Bucket}

-- A new bucket in the block that `memalign` hands out, which is NULL as `none`. What the block
-- held stays in `val`.
unfoldable pub clht_bucket_create : Option Bucket → Option Bucket
clht_bucket_create none = none
clht_bucket_create (some raw) = some (record raw { version = 0; map = λ i. 0; key = λ i. 0 })

-- `table` is an array of `num_buckets` buckets, `hash` the mask for a key.
pub record Table : Type 0 where
  pub num_buckets : ℕ
  pub table : ℕ → Bucket
  pub hash : ℕ

-- After `memset` and the loops all words are 0.
abbrev pub zero_bucket : Bucket
zero_bucket = record { version = 0; map = λ i. 0; key = λ i. 0; val = λ i. 0 }

abbrev pub zero_table : ℕ → Table
zero_table num_buckets = record {
  num_buckets = num_buckets;
  table = λ i. zero_bucket;
  hash = num_buckets - 1;
}

-- The two tests are whether `memalign` has given the table and its array.
unfoldable pub clht_hashtable_create : Bool → Bool → ℕ → Option Table
clht_hashtable_create given array num_buckets =
    if num_buckets == 0
    then none
    else if not given
    then none
    else if not array
    then none
    else some (zero_table num_buckets)

-- `clht_t`; `ht` is NULL as `none`.
pub record Clht : Type 0 where
  pub ht : Option Table

unfoldable pub clht_create : Bool → Bool → Bool → ℕ → Option Clht
unfolding clht_hashtable_create
clht_create wrapper given array num_buckets =
    if not wrapper
    then none
    else some (record { ht = clht_hashtable_create given array num_buckets })

-- `&` on the key and the mask, as a `uint32_t`
unfoldable pub clht_hash : Table → ℕ → ℕ
clht_hash t key = u32 (bit_and key t.hash)

-- `for (i = 0; i < n; i++) size += f(i)`
unfoldable pub total : (ℕ → ℕ) → ℕ → ℕ
total f zero = 0
total f (suc n) = total f n + f n

-- Whether `clht_size` counts slot `i`.
abbrev pub counted : Bucket → ℕ → ℕ
counted b i = if not (b.key i == 0) && b.map i == valid then 1 else 0

abbrev pub bucket_size : Bucket → ℕ
bucket_size b = total (counted b) entries

unfoldable pub clht_size : Table → ℕ
unfolding total
clht_size t = total (λ bin. bucket_size (t.table bin)) t.num_buckets
