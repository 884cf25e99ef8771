-- ===== src/ClhtLbRes/Ops.antt =====
-- OtherTables/src/clht/src/clht_lb_res.c: `clht_put` and `clht_remove`, for one thread. The table
-- that they lock is `h->ht`, whose `table_new` is NULL: only `ht_resize_pes` sets it, on the table
-- that it has replaced. A retry would lock the same bucket of the same table, and spin: `none`.
use lock_free_hop_scotch.Prelude.{
  ℕ, ◌+◌, ◌*◌, ◌∷◌, Bool, true, false, not, List, [], Option, none, some, if◌then◌else◌,
}
use lock_free_hop_scotch.Prelude.Options.{◌>>=◌}
use lock_free_hop_scotch.ClhtLb.Chain.{bucket_exists}
use lock_free_hop_scotch.ClhtLbRes.Table.{Table, clht_hash, lock_acq_chk_resize, put_in, remove_in}
use lock_free_hop_scotch.ClhtLbRes.Status.{Clht, ht_status}

-- The end of `clht_put`: the lock is given back, and the table may grow.
unfoldable pub put_end : ℕ → (ℕ → ℕ) → Clht → Bool → Option Clht
unfolding ht_status
put_end fuel before h false = some h
put_end fuel before h true = ht_status fuel before h true false >>= λ r. some r.1

-- `CLHT_READ_ONLY_FAIL` is 1. The fuel is for resizes.
unfoldable pub clht_put : ℕ → (ℕ → ℕ) → Clht → ℕ → ℕ → Option (Bool × Clht)
unfolding clht_hash lock_acq_chk_resize put_in put_end bucket_exists
clht_put fuel before h key val =
    let bin = clht_hash h.ht key in
    let r = put_in before h.ht bin key val in
    let locked : Option (Bool × Clht) = (do
      (got, b) ← lock_acq_chk_resize false (h.ht.table bin)
      h' ← if got then put_end fuel before (record h { ht = r.2 }) r.0 else none
      some (r.1, h')) in
    if bucket_exists (h.ht.table bin).chain key then some (false, h) else locked

unfoldable pub clht_remove : Clht → ℕ → Option (ℕ × Clht)
unfolding clht_hash lock_acq_chk_resize remove_in bucket_exists
clht_remove h key =
    let bin = clht_hash h.ht key in
    let r = remove_in h.ht bin key in
    let locked : Option (ℕ × Clht) = (do
      (got, b) ← lock_acq_chk_resize false (h.ht.table bin)
      if got then some (r.0, record h { ht = r.1 }) else none) in
    if not (bucket_exists (h.ht.table bin).chain key) then some (0, h) else locked

-- `clht_size_mem`: the sizes of a pointer and of a bucket are 8 and 64 bytes.
unfoldable pub clht_size_mem : Table → ℕ
clht_size_mem t = 8 + (t.num_buckets + t.num_expands) * 64

-- `clht_size_mem_garbage`, over the tables before this one.
unfoldable pub clht_size_mem_garbage : List Table → ℕ
unfolding clht_size_mem
clht_size_mem_garbage [] = 0
clht_size_mem_garbage (t ∷ ts) = clht_size_mem t + clht_size_mem_garbage ts
