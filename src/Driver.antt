-- ===== src/Driver.antt =====
-- OurTable/src/Hopscotch.cpp: the workers of the measured run, each run alone.
pub mod Shares
pub mod Answers
use lock_free_hop_scotch.Prelude.{ℕ, zero, suc, ◌+◌, ◌*◌, Bool, List, [], ◌∷◌}
use lock_free_hop_scotch.LfHash.Run.{Run, ok, ◌>>=◌}
use lock_free_hop_scotch.LfHash.Table.{Table, contains}
use lock_free_hop_scotch.LfHash.Setup.{insert_keys, clear_all}
use lock_free_hop_scotch.Workload.{Workload}

-- `n` words of an array, from place `base` on.
unfoldable pub block : (ℕ → ℕ) → ℕ → ℕ → List ℕ
block from base zero = []
block from base (suc n) = from base ∷ block from (base + 1) n

-- What a loop `for (i = 0; i < count; i++)` reads at `tid * count + i`.
unfoldable pub share : (ℕ → ℕ) → ℕ → ℕ → List ℕ
unfolding block
share from count tid = block from (tid * count) count

-- `lookUp`, and the first loop of `worker`, with the answers of `contains`, which the code drops.
unfoldable pub look_up : Table → List ℕ → List Bool
look_up t [] = []
look_up t (key ∷ keys) = contains t key ∷ look_up t keys

-- `worker`
unfoldable pub worker : ℕ → Table → Workload → ℕ → ℕ → Run (List Bool × Table)
unfolding share look_up
worker fuel t w tid cached = do
  let answers = look_up t (share w.look_ups w.tcx tid)
  let cleared = clear_all t (share w.removes w.trx tid)
  t' ← insert_keys fuel cleared (share w.adds w.tix tid) cached
  ok (answers, t')
