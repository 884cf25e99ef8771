-- ===== src/LfHash/Insert.antt =====
-- OurTable/src/LFHash.h: `BucketInsert`, the write of a key to its neighbourhood.
pub mod Laws
use lock_free_hop_scotch.Prelude.{
  ℕ, zero, suc, ◌+◌, Bool, true, false, ◌&&◌, not, Option, none, some, ◌==◌, if◌then◌else◌,
}
use lock_free_hop_scotch.LfHash.Run.{Run, ok, exited, rehashing}
use lock_free_hop_scotch.LfHash.Entry.{is_deleted}
use lock_free_hop_scotch.LfHash.Table.{hop, compare_exchange}

-- The first loop, over `n` slots from slot `i` on: the array after a successful exchange, if
-- there is one, and `cachedEntry`. A failed exchange leaves what it saw in `tag`.
unfoldable pub take_free : (ℕ → ℕ) → ℕ → ℕ → ℕ → ℕ → ℕ → Option (ℕ → ℕ) × ℕ
take_free slots key zero i tag cached = (none, cached)
take_free slots key (suc n) i tag cached =
    let e = slots i in
    let x = compare_exchange slots i tag key in
    let cached' : ℕ = if is_deleted e then e else cached in
    let rest : Option (ℕ → ℕ) × ℕ =
      take_free slots key n (i + 1) (if e == 0 then x.seen else tag) cached' in
    if e == 0 && x.won then (some x.after, cached') else rest

-- The second loop, which reuses the slot of a removed key.
unfoldable pub take_deleted : (ℕ → ℕ) → ℕ → ℕ → ℕ → ℕ → Run (Bool × (ℕ → ℕ))
take_deleted slots key zero i cached = exited rehashing
take_deleted slots key (suc n) i cached =
    let e = slots i in
    let x = compare_exchange slots i e key in
    let rest : Run (Bool × (ℕ → ℕ)) = take_deleted slots key n (i + 1) cached in
    if is_deleted e
    then (if not (e == cached) then ok (false, slots) else ok (x.won, x.after))
    else rest

-- `cached` is what `cachedEntry`, which the code leaves uninitialised, holds at the start.
unfoldable pub bucket_insert : (ℕ → ℕ) → ℕ → ℕ → ℕ → Run (Bool × (ℕ → ℕ))
bucket_insert slots base key cached =
    let (free, cached') = take_free slots key (hop + 1) base 0 cached in
    elim free [
      | some after ↦ ok (true, after)
      | none ↦ take_deleted slots key (hop + 1) base cached'
    ]
