-- ===== src/LfHash/Setup.antt =====
-- The constructor of OurTable/src/LFHash.h, and the workers of OurTable/src/Hopscotch.cpp that
-- fill the table and empty it, each run alone.
pub mod Laws
use lock_free_hop_scotch.Prelude.{ℕ, Bool, List, [], ◌∷◌}
use lock_free_hop_scotch.LfHash.Run.{Run, ok, ◌>>=◌}
use lock_free_hop_scotch.LfHash.Table.{Table}
use lock_free_hop_scotch.LfHash.Add.{add}
use lock_free_hop_scotch.LfHash.Remove.{remove}

-- `insertKey`, over the keys that it takes from the workload.
unfoldable pub insert_keys : ℕ → Table → List ℕ → ℕ → Run Table
insert_keys fuel t [] cached = ok t
insert_keys fuel t (key ∷ keys) cached =
    add fuel t key cached >>= λ r. insert_keys fuel r.1 keys cached

-- `clearAll`
unfoldable pub clear_all : Table → List ℕ → Table
clear_all t [] = t
clear_all t (key ∷ keys) = clear_all (remove t key).1 keys
