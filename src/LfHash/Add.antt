-- ===== src/LfHash/Add.antt =====
-- OurTable/src/LFHash.h: `add`: reserve a free slot, move the reservation into the neighbourhood
-- of the key's home, give it up, and write the key.
pub mod Reserve
pub mod Pull
pub mod Laws
use lock_free_hop_scotch.Prelude.{
  ℕ, zero, suc, ◌+◌, Bool, true, false, ◌&&◌, not, ltb, leb, ◌==◌, if◌then◌else◌, sub32,
}
use lock_free_hop_scotch.LfHash.Run.{
  Run, ok, exited, out_of_fuel, insertion_failure, no_progress, ◌>>=◌,
}
use lock_free_hop_scotch.LfHash.Hash.{home}
use lock_free_hop_scotch.LfHash.Entry.{bucket_entry}
use lock_free_hop_scotch.LfHash.Table.{hop, add_range, Table, compare_exchange, contains}
use lock_free_hop_scotch.LfHash.Insert.{bucket_insert}
use lock_free_hop_scotch.LfHash.Relocate.{relocate}

-- `while (trails++ < ADD_RANGE && Buckets[SlotIndex] != 0) SlotIndex++;`, as `trails` and
-- `SlotIndex` at its end.
unfoldable pub skip_taken : (ℕ → ℕ) → ℕ → ℕ → ℕ → Run (ℕ × ℕ)
skip_taken slots zero trails slot = out_of_fuel
skip_taken slots (suc fuel) trails slot = elim (ltb trails add_range && not (slots slot == 0)) [
  | true ↦ skip_taken slots fuel (trails + 1) (slot + 1)
  | false ↦ ok (trails + 1, slot)
]

-- The `do ... while` loop around it: `trails`, `SlotIndex` and the array at its end.
unfoldable pub reserve : ℕ → (ℕ → ℕ) → ℕ → ℕ → ℕ → ℕ → Run (ℕ × ℕ × (ℕ → ℕ))
reserve zero slots entry tag trails slot = out_of_fuel
reserve (suc fuel) slots entry tag trails slot =
    skip_taken slots (add_range + 1) trails slot >>= λ (trails', slot').
    let x = compare_exchange slots slot' tag entry in
    let rest : Run (ℕ × ℕ × (ℕ → ℕ)) = reserve fuel slots entry x.seen trails' slot' in
    if not x.won && ltb trails' add_range then rest else ok (trails', slot', x.after)

-- `do { ... } while ((SlotIndex - BaseBucket) > H)`
unfoldable pub pull_back : ℕ → ℕ → (ℕ → ℕ) → ℕ → ℕ → ℕ → Run (ℕ × (ℕ → ℕ))
pull_back zero seed slots base entry slot = out_of_fuel
pull_back (suc fuel) seed slots base entry slot =
    relocate (suc fuel) seed slots slot entry >>= λ (slot', slots').
    let rest : Run (ℕ × (ℕ → ℕ)) = pull_back fuel seed slots' base entry slot' in
    if slot == slot'
    then exited no_progress
    else (if ltb hop (sub32 slot' base) then rest else ok (slot', slots'))

-- `while (!BucketInsert(BaseBucket, key)) {}`
unfoldable pub insert_loop : ℕ → (ℕ → ℕ) → ℕ → ℕ → ℕ → Run (ℕ → ℕ)
insert_loop zero slots base key cached = out_of_fuel
insert_loop (suc fuel) slots base key cached =
    bucket_insert slots base key cached >>= λ (done, after).
    let rest : Run (ℕ → ℕ) = insert_loop fuel after base key cached in
    if done then ok after else rest

-- The body of `add` for a key that `contains` does not find.
unfoldable pub add_absent : ℕ → Table → ℕ → ℕ → Run Table
add_absent fuel t key cached = do
  let base = home t.seed key
  let entry = bucket_entry key 0
  (trails, slot, reserved) ← reserve fuel t.slots entry 0 0 base
  (slot', pulled) ←
      (if leb add_range trails
        then exited insertion_failure
        else (if ltb hop (sub32 slot base)
            then pull_back fuel t.seed reserved base entry slot
            else ok (slot, reserved)))
  inserted ← insert_loop fuel (compare_exchange pulled slot' (pulled slot') 0).after base key cached
  ok (record t { slots = inserted })

-- `fuel` bounds the rounds of each loop. `add` returns true whenever it returns.
unfoldable pub add : ℕ → Table → ℕ → ℕ → Run (Bool × Table)
add fuel t key cached =
    if contains t key then ok (true, t) else (add_absent fuel t key cached >>= λ t'. ok (true, t'))
