-- ===== src/Workload.antt =====
-- OurTable/src/workload.h: the keys of the benchmark, and their split between threads. `rand k` is
-- what call `k` of rand() returns.
use lock_free_hop_scotch.Prelude.{
  ℕ, zero, suc, ◌+◌, ◌-◌, ◌*◌, ◌/◌, ◌%◌, Bool, true, false, List, [], ◌∷◌, Option, none, some, ◌==◌,
  if◌then◌else◌, update,
}
use lock_free_hop_scotch.Prelude.Options.{◌>>=◌}
pub mod Keys
pub mod Split

-- `dataset` holds the keys of the map; the arrays are functions of the index.
pub record Workload : Type 0 where
  pub dataset : List ℕ
  pub look_ups : ℕ → ℕ
  pub store : ℕ → ℕ
  pub adds : ℕ → ℕ
  pub removes : ℕ → ℕ
  pub tcx : ℕ
  pub offset : ℕ
  pub tix : ℕ
  pub trx : ℕ
  pub calls : ℕ

-- `dataset.find(key) != dataset.end()`
unfoldable pub find_key : List ℕ → ℕ → Bool
find_key [] key = false
find_key (k ∷ ks) key = let rest = find_key ks key in if k == key then true else rest

abbrev pub key_from : ℕ → ℕ
key_from r = r % (1024 * 1024 * 100) + 1

-- The loop that looks for a new key: the key, and the number of the next call. A key is never 0.
unfoldable pub new_key : ℕ → (ℕ → ℕ) → ℕ → List ℕ → Option (ℕ × ℕ)
unfolding find_key
new_key zero rand k dataset = none
new_key (suc fuel) rand k dataset =
    let rest = new_key fuel rand (suc k) dataset in
    if find_key dataset (key_from (rand k)) then rest else some (key_from (rand k), suc k)

-- The first `n` rounds of the constructor.
unfoldable pub fill_store : ℕ → (ℕ → ℕ) → ℕ → Workload → Option Workload
unfolding new_key
fill_store fuel rand zero w = some w
fill_store fuel rand (suc n) w = do
  w' ← fill_store fuel rand n w
  (key, calls) ← new_key fuel rand w'.calls w'.dataset
  some (record w' { dataset = key ∷ w'.dataset; store = update w'.store n key; calls = calls })

-- The constructor, with `TOTDATA` rounds; `before` is what new memory holds.
unfoldable pub workload : ℕ → (ℕ → ℕ) → (ℕ → ℕ) → ℕ → Option Workload
unfolding fill_store
workload fuel rand before totdata = fill_store fuel rand totdata (record {
  dataset = [];
  look_ups = before;
  store = before;
  adds = before;
  removes = before;
  tcx = 0;
  offset = 0;
  tix = 0;
  trx = 0;
  calls = 0;
})

-- A loop that copies `n` words from place `offset` on.
unfoldable pub copy : ℕ → ℕ → (ℕ → ℕ) → (ℕ → ℕ) → ℕ → ℕ
copy zero offset from to = to
copy (suc n) offset from to = update (copy n offset from to) n (from (n + offset))

-- The first `n` rounds of the loop for new keys in `workSplit`.
unfoldable pub add_new : ℕ → (ℕ → ℕ) → ℕ → Workload → Option Workload
unfolding new_key
add_new fuel rand zero w = some w
add_new fuel rand (suc n) w = do
  w' ← add_new fuel rand n w
  (key, calls) ← new_key fuel rand w'.calls w'.dataset
  some (record w' { dataset = key ∷ w'.dataset; adds = update w'.adds n key; calls = calls })

-- The last loop of `workSplit`: `n` words from place `half` on.
unfoldable pub add_old : ℕ → ℕ → (ℕ → ℕ) → (ℕ → ℕ) → ℕ → ℕ
add_old zero half from to = to
add_old (suc n) half from to = update (add_old n half from to) (half + n) (from n)

-- `workSplit`; a division by zero is `none`.
unfoldable pub work_split : ℕ → (ℕ → ℕ) → Workload → ℕ → ℕ → ℕ → ℕ → Option Workload
unfolding copy add_new add_old
work_split fuel rand w no_contains no_inserts no_remove threads =
    let split : Workload = record w {
      tcx = no_contains / threads;
      tix = no_inserts / threads;
      trx = no_remove / threads;
      look_ups = copy no_contains no_remove w.store w.look_ups;
      removes = copy no_remove w.offset w.store w.removes;
      offset = no_remove;
    } in
    let done : Option Workload = (do
      w' ← add_new fuel rand (no_inserts / 2) split
      some (record w' {
        adds = add_old (no_inserts - no_inserts / 2) (no_inserts / 2) w'.look_ups w'.adds;
      })) in
    if threads == 0 then none else done
