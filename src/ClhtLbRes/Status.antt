-- ===== src/ClhtLbRes/Status.antt =====
-- OtherTables/src/clht/src/clht_lb_res.c: the growth of a table, for one thread, with the settings
-- of clht_lb_res.h: no helpers in a resize, and no garbage collection.
use lock_free_hop_scotch.Prelude.{
  ℕ, zero, suc, ◌+◌, ◌*◌, ◌/◌, Bool, true, false, not, ◌&&◌, ◌||◌, List, [], ◌∷◌, Option, none,
  some, ltb, leb, ◌==◌, if◌then◌else◌, update, u32,
}
use lock_free_hop_scotch.Prelude.Options.{◌>>=◌}
use lock_free_hop_scotch.ClhtLb.Chain.{Slot, Chain, last, link}
use lock_free_hop_scotch.ClhtLb.Table.{Locked}
use lock_free_hop_scotch.ClhtLbRes.Round.{pow2roundup}
use lock_free_hop_scotch.ClhtLbRes.Table.{
  Table, clht_hashtable_create, clht_hash, lock_acq_resize, clht_size, clht_put_seq, lock_free,
}

-- `clht_t`. `prev` is the chain of `table_prev` from `ht` on, `released` the tables that were handed
-- to `clht_gc_release`.
pub record Clht : Type 0 where
  pub ht : Table
  pub prev : List Table
  pub released : List Table
  pub resize_lock : ℕ
  pub status_lock : ℕ

unfoldable pub clht_create : ℕ → Option Clht
unfolding clht_hashtable_create
clht_create num_buckets = do
  t ← clht_hashtable_create num_buckets
  some (record {
    ht = t;
    prev = [];
    released = [];
    resize_lock = lock_free;
    status_lock = lock_free;
  })

-- `TAS_U8`
abbrev pub taken : ℕ
taken = 0xff

-- The loop of `bucket_cpy` over the slots of a bucket.
unfoldable pub copy_slots : (ℕ → ℕ) → List Slot → Table → Table
unfolding clht_put_seq clht_hash
copy_slots before [] t = t
copy_slots before (s ∷ ss) t =
    copy_slots before ss
      (if s.key == 0 then t else clht_put_seq before t s.key s.val (clht_hash t s.key))

unfoldable pub copy_chain : (ℕ → ℕ) → Chain → Table → Table
unfolding copy_slots
copy_chain before (last ss) t = copy_slots before ss t
copy_chain before (link ss next) t = copy_chain before next (copy_slots before ss t)

-- The bucket stays locked.
unfoldable pub bucket_cpy : (ℕ → ℕ) → Locked → Table → Option (Bool × Locked × Table)
unfolding lock_acq_resize copy_chain
bucket_cpy before b t = do
  (got, b') ← lock_acq_resize b
  some (got, b', if got then copy_chain before b'.chain t else t)

-- The loop of `ht_resize_pes` over the first `n` buckets: the old buckets and the new table. Its
-- counter is an `int32_t`, so this is the code for fewer than 2 ^ 31 buckets.
unfoldable pub copy_below : (ℕ → ℕ) → ℕ → (ℕ → Locked) → Table → Option ((ℕ → Locked) × Table)
unfolding bucket_cpy
copy_below before zero table t = some (table, t)
copy_below before (suc n) table t = do
  (table', t') ← copy_below before n table t
  (got, b, t'') ← bucket_cpy before (table' n) t'
  some (update table' n b, t'')

-- `ht_resize_pes` after its lock: `again` is the call of `ht_status` at its end. `clht_gc_release`
-- frees the old table.
unfoldable pub publish : (Clht → Option Clht) → Clht → (ℕ → Locked) → Table → Option Clht
publish again h table new =
    let old : Table = record h.ht { table = table } in
    let h' = record h {
      ht = new;
      prev = old ∷ h.prev;
      released = old ∷ h.released;
      resize_lock = lock_free;
    } in
    let more = again h' in if leb new.num_expands_threshold new.num_expands then more else some h'

-- The size of the new table: `CLHT_RATIO_HALVE` is 8.
abbrev pub new_size : Bool → ℕ → ℕ → ℕ
new_size increase by num_buckets = if increase then by * num_buckets else num_buckets / 8

-- Without a new table the code reads through NULL, which is `none`.
unfoldable pub ht_resize_pes : (Clht → Option Clht) → (ℕ → ℕ) → Clht → Bool → ℕ → Option (ℕ × Clht)
unfolding clht_hashtable_create copy_below publish
ht_resize_pes again before h increase by =
    let resized : Option (ℕ × Clht) = (do
      t ← clht_hashtable_create (u32 (new_size increase by h.ht.num_buckets))
      (table, new) ←
          copy_below before h.ht.num_buckets h.ht.table (record t { version = h.ht.version + 1 })
      h' ← publish again (record h { resize_lock = taken }) table new
      some (1, h')) in
    if not (h.resize_lock == 0) then some (0, record h { resize_lock = taken }) else resized

-- The buckets of a chain after its first.
abbrev pub expands_in : Chain → ℕ
expands_in (last ss) = 0
expands_in (link ss next) = suc (expands_in next)

-- The longest chain.
unfoldable pub expands_max : (ℕ → Locked) → ℕ → ℕ
expands_max table zero = 0
expands_max table (suc n) =
    let m = expands_max table n in let e = expands_in (table n).chain in if ltb m e then e else m

-- By how much `ht_status` wants the table to grow. `full_ratio` is 100.0 * size / slots.
unfoldable pub growth : ℕ → ℕ → ℕ → Bool → Option ℕ
unfolding pow2roundup
growth size num_buckets expands increase =
    let slots = num_buckets * 3 in
    if ltb 0 size && ltb (100 * size) (5 * slots)
    then none
    else if (ltb 0 size && ltb (50 * slots) (100 * size)) || ltb 24 expands || increase
    then (let by = pow2roundup (100 * size / slots / 40) in some (if by == 1 then 2 else by))
    else none

-- The resize that `ht_status` wants.
unfoldable pub grown : (Clht → Option Clht) → (ℕ → ℕ) → Clht → Option ℕ → Option Clht
unfolding ht_resize_pes
grown again before h none = some h
grown again before h (some by) = ht_resize_pes again before h true by >>= λ r. some r.1

-- `ht_status` with fuel for the resizes that a resize asks for.
unfoldable pub ht_status : ℕ → (ℕ → ℕ) → Clht → Bool → Bool → Option (ℕ × Clht)
unfolding clht_size expands_max growth grown
ht_status zero before h increase just_print = none
ht_status (suc fuel) before h increase just_print =
    let size = clht_size h.ht in
    let h' = record h { status_lock = taken } in
    let again = λ (h : Clht). ht_status fuel before h true false >>= λ r. some r.1 in
    let grow = growth size h.ht.num_buckets (expands_max h.ht.table h.ht.num_buckets) increase in
    if not (h.status_lock == 0) && not increase then some (0, h') else do
      h'' ← grown again before h' (if just_print then none else grow)
      some (size, record h'' { status_lock = lock_free })
