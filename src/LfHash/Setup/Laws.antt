-- ===== src/LfHash/Setup/Laws.antt =====
-- OurTable/src/LFHash.h and OurTable/src/Hopscotch.cpp: the table after its constructor, after a
-- run of additions, and after an addition that is undone.
use lock_free_hop_scotch.Prelude.{
  ℕ, zero, suc, ◌+◌, ◌≤◌, Bool, true, false, ◌||◌, List, [], ◌∷◌, ◌≡◌, refl, ◌⊎◌, inl, inr, arith,
  Bool-cases, Bool-eq-false, ◌==◌, or-false,
}
use lock_free_hop_scotch.LfHash.Run.{ok, exited, insertion_failure, resize, ◌>>=◌}
use lock_free_hop_scotch.LfHash.Hash.{total_buckets}
use lock_free_hop_scotch.LfHash.Table.{hop, add_range, Table, new_table, contains}
use lock_free_hop_scotch.LfHash.Table.Contains.{IsKey, IsPlaced, Holds, contains-Holds}
use lock_free_hop_scotch.LfHash.Add.{add}
use lock_free_hop_scotch.LfHash.Add.Pull.{IsUnique}
use lock_free_hop_scotch.LfHash.Add.Laws.{add_absent_lem, add_lem}
use lock_free_hop_scotch.LfHash.Setup.{insert_keys}

-- `keys` has `k`.
unfoldable pub elem : ℕ → List ℕ → Bool
elem k [] = false
elem k (key ∷ keys) = k == key || elem k keys

abbrev pub AreKeys : List ℕ → Type 0
AreKeys [] = Unit
AreKeys (key ∷ keys) = IsKey key × AreKeys keys

pub new_table-IsPlaced :
    (before : ℕ → ℕ) (random seed : ℕ)
    → ((i : ℕ) → total_buckets + hop ≤ i → before i ≡ 0)
    → IsPlaced seed (new_table before random).slots
unfolding new_table
new_table-IsPlaced before random seed rest i = inl (ground (arith, rest i))

new_table-contains :
    (before : ℕ → ℕ) (random key : ℕ)
    → ((i : ℕ) → total_buckets + hop ≤ i → before i ≡ 0)
    → IsKey key
    → contains (new_table before random) key ≡ false
new_table-contains before random key rest k =
    let placed = new_table-IsPlaced before random _ rest in
    Bool-eq-false _ λ p.
      let (j, e) = (contains-Holds (new_table before random) key placed k).0 p in
      k.nonzero (unfold new_table in ground (arith, rest j))

-- The two ends of a run of additions: an exit, or the keys of the list added to those of before.
abbrev pub InsertEnds : ℕ → Table → List ℕ → ℕ → Type 0
InsertEnds fuel t keys cached =
    (insert_keys fuel t keys cached ≡ exited insertion_failure)
    ⊎ (insert_keys fuel t keys cached ≡ exited resize)
    ⊎ ((t' : Table) × (insert_keys fuel t keys cached ≡ ok t')
        × IsPlaced t'.seed t'.slots
        × ((k : ℕ) → IsKey k → contains t' k ≡ (elem k keys || contains t k)))

pub insert_keys_from :
    (fuel : ℕ) (t : Table) (keys : List ℕ) (cached : ℕ)
    → add_range ≤ fuel
    → AreKeys keys
    → IsPlaced t.seed t.slots
    → InsertEnds fuel t keys cached
unfolding insert_keys elem
insert_keys_from fuel t [] cached enough ks placed = inr (inr (t, refl, placed, λ k h. refl))
insert_keys_from fuel t (key ∷ keys) cached enough ks placed =
    elim (add_lem fuel t key cached enough ks.0 placed) [
      | inl (run, full) ↦ inl (rw run)
      | inr (inl (run, full)) ↦ inr (inl (rw run))
      | inr (inr (t1, run, seed, placed1, has, others)) ↦
          elim (insert_keys_from fuel t1 keys cached enough ks.1 (rw seed placed1)) [
            | inl out ↦ inl (rw (run, ◌>>=◌) out)
            | inr (inl out) ↦ inr (inl (rw (run, ◌>>=◌) out))
            | inr (inr (t2, run2, placed2, says)) ↦ inr (
                inr
                  (t2, rw (run, ◌>>=◌) run2, placed2, λ k h. ground (arith, says k h, others k h)))
          ]
    ]

-- The ways in which a run of additions to a new table ends: an exit, or a table in which `contains`
-- finds the keys of the list and no other.
abbrev pub FillSays : ℕ → (ℕ → ℕ) → ℕ → List ℕ → ℕ → Type 0
FillSays fuel before random keys cached =
    (insert_keys fuel (new_table before random) keys cached ≡ exited insertion_failure)
    ⊎ (insert_keys fuel (new_table before random) keys cached ≡ exited resize)
    ⊎ ((t : Table) × (insert_keys fuel (new_table before random) keys cached ≡ ok t)
        × ((k : ℕ) → IsKey k → contains t k ≡ elem k keys))

-- Additions to a new table, each loop with fuel for at least 256 rounds: the run exits, or
-- `contains` finds exactly the keys that were added. The words behind the zeroed part of the array
-- are taken to be 0.
pub insert_keys_lem :
    (fuel : ℕ) (before : ℕ → ℕ) (random : ℕ) (keys : List ℕ) (cached : ℕ)
    → add_range ≤ fuel
    → AreKeys keys
    → ((i : ℕ) → total_buckets + hop ≤ i → before i ≡ 0)
    → FillSays fuel before random keys cached
insert_keys_lem fuel before random keys cached enough ks rest =
    let placed = new_table-IsPlaced before random (new_table before random).seed rest in
    elim (insert_keys_from fuel (new_table before random) keys cached enough ks placed) [
      | inl out ↦ inl out
      | inr (inl out) ↦ inr (inl out)
      | inr (inr (t, run, placed', says)) ↦ inr (
          inr (
            t,
            run,
            λ k h.
                rw (says k h, new_table-contains before random k rest h) (or-false (elem k keys)),
          ))
    ]

-- An `add` that returns true, with fuel for at least 256 rounds, in a table in which each key stands
-- near its home and in one slot at most, leaves a table of which the same holds, and the counter
-- of time stamps as it was.
pub add-IsUnique :
    (fuel : ℕ) (t t' : Table) (key cached : ℕ)
    → add_range ≤ fuel
    → IsKey key
    → IsPlaced t.seed t.slots
    → IsUnique t.slots
    → add fuel t key cached ≡ ok (true, t')
    → IsPlaced t'.seed t'.slots × IsUnique t'.slots × (t'.time_stamp ≡ t.time_stamp)
unfolding add
add-IsUnique zero t t' key cached enough k placed unique run = absurd (omega arith)
add-IsUnique (suc fuel) t t' key cached enough k placed unique run =
    elim (Bool-cases (contains t key)) [
      | inl there ↦ let same : t' ≡ t = cc (rw there at run) in rw same (placed, unique, refl)
      | inr absent ↦ elim (add_absent_lem fuel t key cached enough k placed) [
        | inl (out, full) ↦ cc (rw (absent, out, ◌>>=◌) at run)
        | inr (inl (out, full)) ↦ cc (rw (absent, out, ◌>>=◌) at run)
        | inr (inr (after, done, added)) ↦
            let same : t' ≡ record t { slots = after } = cc (rw (absent, done, ◌>>=◌) at run) in
            let missing : ¬ (Holds t.slots key) = λ x. cc ((contains-Holds t key placed k).1 x) in
            rw same (added.placed, added.unique unique missing, refl)
      ]
    ]
