-- ===== src/ClhtLb/Seq.antt =====
-- OtherTables/src/clht/src/clht_lb.c: `clht_put_seq`, which takes no lock, and `bucket_cpy`, the copy
-- of a chain into another table.
pub mod Laws
use lock_free_hop_scotch.Prelude.{
  ℕ, Bool, List, [], ◌∷◌, Option, none, some, ◌==◌, if◌then◌else◌, update,
}
use lock_free_hop_scotch.ClhtLb.Chain.{Slot, Chain, last, link, put}
use lock_free_hop_scotch.ClhtLb.Table.{Locked, Table, clht_hash, lock_acq}

-- The search and the writes are those of `clht_put` under its lock.
unfoldable pub clht_put_seq : (ℕ → ℕ) → Table → ℕ → ℕ → ℕ → Bool × Table
unfolding put
clht_put_seq before t key val bin =
    let r = put before (t.table bin).chain key val in
    (r.0, record t { table = update t.table bin (record (t.table bin) { chain = r.1 }) })

-- The loop of `bucket_cpy` over the slots of a bucket. What it puts as the value is the key.
unfoldable pub copy_slots : (ℕ → ℕ) → List Slot → Table → Table
unfolding clht_put_seq clht_hash
copy_slots before [] t = t
copy_slots before (s ∷ ss) t =
    copy_slots before ss
      (if s.key == 0 then t else (clht_put_seq before t s.key s.key (clht_hash t s.key)).1)

unfoldable pub copy_chain : (ℕ → ℕ) → Chain → Table → Table
unfolding copy_slots
copy_chain before (last ss) t = copy_slots before ss t
copy_chain before (link ss next) t = copy_chain before next (copy_slots before ss t)

abbrev pub locked_cpy : (ℕ → ℕ) → Table → Option Locked → Option (Locked × Table)
locked_cpy before t none = none
locked_cpy before t (some b) = some (b, copy_chain before b.chain t)

-- The bucket stays locked.
unfoldable pub bucket_cpy : (ℕ → ℕ) → Locked → Table → Option (Locked × Table)
unfolding lock_acq copy_chain
bucket_cpy before b t = locked_cpy before t (lock_acq b)
