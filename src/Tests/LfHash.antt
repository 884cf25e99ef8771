-- ===== src/Tests/LfHash.antt =====
-- OurTable/src/LFHash.h, at a table with the seed 12345. Of the keys below, 42 has its home at slot
-- 11976516, the others between slots 25864019 and 25864045.
use lock_free_hop_scotch.Prelude.{
  ℕ, ◌+◌, ◌*◌, ◌^◌, ◌≤◌, ◌<◌, Bool, true, false, List, [], ◌∷◌, map, ◌≡◌, ◌≢◌, refl, ◌⊎◌, ◌↔◌,
  arith, ltb, if◌then◌else◌, update,
}
use lock_free_hop_scotch.LfHash.Run.{Run, ok, exited, out_of_fuel, ◌>>=◌}
use lock_free_hop_scotch.LfHash.Hash.{home}
use lock_free_hop_scotch.LfHash.Entry.{
  is_deleted, is_deleted-eq-false, with_tag, clear_tag, get_key, bucket_entry,
}
use lock_free_hop_scotch.LfHash.Table.{
  Table, new_table, contains, compare_exchange, marks, next_stamp, is_entry_of, get_bucket,
}
use lock_free_hop_scotch.LfHash.Table.Contains.{IsKey, IsPlaced, contains_iff, contains_reads}
use lock_free_hop_scotch.LfHash.Insert.{bucket_insert, take_free, take_deleted}
use lock_free_hop_scotch.LfHash.Insert.Laws.{FirstFree, bucket_insert_lem}
use lock_free_hop_scotch.LfHash.Relocate.{relocate, claim, advance, move_key}
use lock_free_hop_scotch.LfHash.Relocate.Laws.{Reserved, RelocateEnds, relocate_lem}
use lock_free_hop_scotch.LfHash.Relocate.Stuck.{relocate_stuck}
use lock_free_hop_scotch.LfHash.Add.{add, add_absent, reserve, skip_taken, pull_back, insert_loop}
use lock_free_hop_scotch.LfHash.Add.Reserve.{Reserves, reserve_lem}
use lock_free_hop_scotch.LfHash.Add.Pull.{IsUnique}
use lock_free_hop_scotch.LfHash.Add.Laws.{AddSays, add_lem}
use lock_free_hop_scotch.LfHash.Remove.{remove, first_set, final_entry, sweep, random_entry}
use lock_free_hop_scotch.LfHash.Remove.Laws.{IsPlain}
use lock_free_hop_scotch.LfHash.Remove.Effect.{
  Once, RemoveSays, StampSays, remove_lem, remove-adds-stamp,
}
use lock_free_hop_scotch.LfHash.Setup.{insert_keys}
use lock_free_hop_scotch.LfHash.Setup.Laws.{FillSays, insert_keys_lem, add-IsUnique}

homes :
    (home 12345 1 ≡ 25864033)
    × (home 12345 3973330 ≡ 25864019)
    × (home 12345 1241166 ≡ 25864030)
    × (home 12345 4023609 ≡ 25864045)
unfolding home
homes = (refl, refl, refl, refl)

program : Unit {0}
unfolding clear_tag get_key bucket_entry home contains compare_exchange marks next_stamp is_entry_of
    get_bucket bucket_insert take_free take_deleted relocate claim advance move_key add add_absent
    reserve skip_taken pull_back insert_loop remove first_set final_entry sweep random_entry
    insert_keys is_deleted with_tag
program = tt

-- The 17 slots from the home of 1241166 on are taken, the next one is free.
abbrev crowded : Table
crowded = record {
  slots = λ i.
      if ltb i 25864030
      then 0
      else (if ltb i 25864033 then 3973330 else (if ltb i 25864047 then 1 else 0));
  time_stamp = 1;
  seed = 12345;
}

-- The entries of some slots after an operation.
slots_at : List ℕ → Run (Bool × Table) → Run (List ℕ)
slots_at is r = r >>= λ p. ok (map (λ i. p.1.slots i) is)

-- The key 1 of slot 25864033 makes room for 1241166, and goes to slot 25864047.
crowded-add :
    slots_at (25864032 ∷ 25864033 ∷ 25864047 ∷ []) (add 256 crowded 1241166 0)
    ≡ ok (3973330 ∷ 1241166 ∷ 1 ∷ [])
unfolding program slots_at
crowded-add = refl

pub IsKey-of : (k : ℕ) → k ≢ 0 → k < 2 ^ 32 → IsKey k
IsKey-of k a b = record { nonzero = a; small = b }

crowded-IsPlaced : IsPlaced crowded.seed crowded.slots
crowded-IsPlaced i = ground (arith, homes)

add_lem_example : AddSays 256 crowded 1241166 0
add_lem_example =
    add_lem 256 crowded 1241166 0 (omega arith) (IsKey-of 1241166 (omega arith) (omega arith))
      crowded-IsPlaced

k42 : IsKey 42
k42 = IsKey-of 42 (omega arith) (omega arith)

abbrev nothing : ℕ → ℕ
nothing i = 0

abbrev empty : Table
empty = new_table nothing 12344

insert_keys_lem_example : FillSays 256 nothing 12344 (42 ∷ 1 ∷ 42 ∷ []) 0
insert_keys_lem_example =
    insert_keys_lem 256 nothing 12344 (42 ∷ 1 ∷ 42 ∷ []) 0 (omega arith)
      (k42, (IsKey-of 1 (omega arith) (omega arith), (k42, tt))) (λ i h. refl)

contains_iff_example : (contains crowded 1 ≡ true) ↔ (
    (j : ℕ) × (home 12345 1 ≤ j)
    × (j ≤ home 12345 1 + 16)
    × ((crowded.slots j ≡ 1) ⊎ (crowded.slots j ≡ 1 + 2 ^ 62)))
contains_iff_example = contains_iff crowded 1 (omega arith)

-- One key, at its home.
abbrev pub single : Table
single = record { slots = update nothing 25864045 4023609; time_stamp = 1; seed = 12345 }

single-IsPlain : IsPlain single.slots
single-IsPlain i = ground arith

single-Once : (key : ℕ) → key ≢ 0 → Once single key
single-Once key ne i j a b c d e f = ground arith

k4 : IsKey 4023609
k4 = IsKey-of 4023609 (omega arith) (omega arith)

pub single_has : contains single 4023609 ≡ true
unfolding program
single_has = refl

remove_lem_example : RemoveSays single 4023609
remove_lem_example =
    remove_lem single 4023609 k4 single-IsPlain (single-Once 4023609 (omega arith)) (omega arith)

remove-adds-stamp_example : StampSays single 4023609
remove-adds-stamp_example = remove-adds-stamp single 4023609 k4 single-IsPlain single_has

-- After the removal `contains` finds key 1, which was never added.
remove_finds_one : (contains single 1 ≡ false) × (contains (remove single 4023609).1 1 ≡ true)
unfolding program
remove_finds_one = (refl, refl)

pub single-IsPlaced : IsPlaced 12345 single.slots
single-IsPlaced i = ground (arith, homes)

single-IsUnique : IsUnique single.slots
single-IsUnique k i j h a b = ground (arith, h.nonzero)

table_of : Run (Bool × Table) → Table
table_of (ok r) = r.1
table_of (exited e) = single
table_of out_of_fuel = single

abbrev both : Table
both = table_of (add 256 single 42 0)

both_run : add 256 single 42 0 ≡ ok (true, both)
unfolding program table_of
both_run = refl

add-IsUnique_example : IsPlaced both.seed both.slots × IsUnique both.slots × (both.time_stamp ≡ 1)
add-IsUnique_example =
    add-IsUnique 256 single both 42 0 (omega arith) k42 single-IsPlaced single-IsUnique both_run

-- The same table, but for the words behind the zeroed part of memory.
abbrev dirty : Table
dirty = record single { slots = λ i. if ltb i 32505872 then single.slots i else 9 }

contains_reads_example : contains single 42 ≡ contains dirty 42
contains_reads_example = contains_reads single dirty 42 (omega arith) refl (λ i h. ground arith)

bucket_insert_lem_at :
    (j : ℕ) × (j ≤ 25864047)
    × FirstFree crowded.slots 25864031 j
    × (bucket_insert crowded.slots 25864031 7 0 ≡ ok (true, update crowded.slots j 7))
bucket_insert_lem_at =
    bucket_insert_lem crowded.slots 25864031 7 0 25864047 (omega arith) (omega arith) refl

-- A reservation of 1241166 in the free slot, after the 17 that are taken.
abbrev held : ℕ → ℕ
held = update crowded.slots 25864047 (1241166 + 3 * 2 ^ 62)

held-Reserved : Reserved 12345 held 25864047 (1241166 + 3 * 2 ^ 62)
held-Reserved = record { holder = refl; others = λ i ne. ground (arith, homes) }

relocate_lem_example : RelocateEnds 2 12345 held 25864047 (1241166 + 3 * 2 ^ 62)
relocate_lem_example =
    relocate_lem 1 12345 held 25864047 1241166 (omega arith) (omega arith) (omega arith)
      held-Reserved

-- A reservation of key 1 after its home is full; the key after it is 1 as well.
abbrev blocked : ℕ → ℕ
blocked = update crowded.slots 25864033 (1 + 3 * 2 ^ 62)

relocate_stuck_example : relocate 1000 12345 blocked 25864047 (7 + 3 * 2 ^ 62) ≡ out_of_fuel
unfolding get_bucket get_key
relocate_stuck_example =
    relocate_stuck 1000 12345 blocked 25864047 25864033 (7 + 3 * 2 ^ 62) (omega arith) (omega arith)
      (omega arith) (omega arith) (λ j a b. ground (arith, homes)) (omega arith)
      (omega (arith, homes)) (omega (arith, homes))

reserve_lem_at :
    (r : ℕ × ℕ × (ℕ → ℕ)) × (reserve 2 crowded.slots 9 0 0 25864030 ≡ ok r)
    × Reserves crowded.slots 9 25864030 r
reserve_lem_at = reserve_lem 1 crowded.slots 9 25864030

is_deleted-eq-false_at : is_deleted (2 * 2 ^ 62 + 5) ≡ false
is_deleted-eq-false_at = is_deleted-eq-false (2 * 2 ^ 62 + 5)
