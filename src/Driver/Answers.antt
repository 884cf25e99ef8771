-- ===== src/Driver/Answers.antt =====
-- OurTable/src/Hopscotch.cpp: what a worker of the measured run finds and leaves, where the run has
-- no removals.
use lock_free_hop_scotch.Prelude.{
  ℕ, zero, suc, ◌+◌, ◌*◌, ◌≤◌, ◌<◌, ◌≡◌, Bool, true, ◌||◌, List, [], ◌∷◌, inl, inr, ◌⊎◌, arith,
  refl, ap, ◌∙◌,
}
use lock_free_hop_scotch.LfHash.Run.{ok, exited, insertion_failure, resize, ◌>>=◌}
use lock_free_hop_scotch.LfHash.Table.{add_range, Table, contains}
use lock_free_hop_scotch.LfHash.Table.Contains.{IsKey, IsPlaced}
use lock_free_hop_scotch.LfHash.Setup.{insert_keys, clear_all}
use lock_free_hop_scotch.LfHash.Setup.Laws.{elem, AreKeys, insert_keys_from}
use lock_free_hop_scotch.Workload.{Workload}
use lock_free_hop_scotch.Workload.Split.{IsSplit}
use lock_free_hop_scotch.Driver.{block, share, look_up, worker}
use lock_free_hop_scotch.Driver.Shares.{share-within}

-- The answer true, `n` times.
unfoldable pub all_true : ℕ → List Bool
all_true zero = []
all_true (suc n) = true ∷ all_true n

look_up-block :
    (t : Table) (from : ℕ → ℕ) (n base : ℕ)
    → ((p : ℕ) → base ≤ p → p < base + n → contains t (from p) ≡ true)
    → look_up t (block from base n) ≡ all_true n
unfolding look_up block all_true
look_up-block t from zero base there = refl
look_up-block t from (suc n) base there =
    rw
      (
        there base (omega arith) (omega arith),
        look_up-block t from n (base + 1)
            (λ p low high. there p (omega (arith, low)) (omega (arith, high))),
      )
      refl

block-AreKeys :
    (from : ℕ → ℕ) (n base : ℕ)
    → ((p : ℕ) → base ≤ p → p < base + n → IsKey (from p))
    → AreKeys (block from base n)
unfolding block
block-AreKeys from zero base keys = tt
block-AreKeys from (suc n) base keys = (
  keys base (omega arith) (omega arith),
  block-AreKeys from n (base + 1) (λ p low high. keys p (omega (arith, low)) (omega (arith, high))),
)

-- The ways in which a worker ends.
abbrev pub WorkerEnds : ℕ → Table → Workload → ℕ → ℕ → Type 0
WorkerEnds fuel t w tid cached =
    (worker fuel t w tid cached ≡ exited insertion_failure)
    ⊎ (worker fuel t w tid cached ≡ exited resize)
    ⊎ ((t' : Table) × (worker fuel t w tid cached ≡ ok (all_true w.tcx, t'))
        × IsPlaced t'.seed t'.slots
        × ((k : ℕ) → IsKey k → contains t' k ≡ (elem k (share w.adds w.tix tid) || contains t k)))

no_removals : (t : Table) (from : ℕ → ℕ) (c tid : ℕ) → c ≡ 0 → clear_all t (share from c tid) ≡ t
unfolding share block clear_all
no_removals t from c tid none_left = rw none_left refl

-- A split as `workSplit` does it, of a workload with `n` keys in the store, with no removals; a table
-- in which each key is near its home and `contains` finds all keys of the store; keys to insert that
-- fit into 32 bits and are not 0; and fuel for at least 256 rounds. Then each of the workers, run
-- alone, exits for want of room, or each of its calls of `contains` answers true, and `contains` then
-- finds what it found before and the keys of the worker's share of the inserts, and no other.
pub worker_lem :
    (fuel : ℕ) (t : Table) (w w' : Workload) (n no_contains no_inserts no_remove threads : ℕ)
    → add_range ≤ fuel
    → IsSplit w n no_contains no_inserts no_remove threads w'
    → no_remove + no_contains ≤ n
    → w'.trx ≡ 0
    → IsPlaced t.seed t.slots
    → ((i : ℕ) → i < n → contains t (w.store i) ≡ true)
    → ((i : ℕ) → i < no_inserts → IsKey (w'.adds i))
    → (tid cached : ℕ) → tid < threads
    → WorkerEnds fuel t w' tid cached
unfolding worker share
worker_lem fuel t w w' n no_contains no_inserts no_remove threads enough s le none_left placed there
      keys tid cached lt =
    let (contains_share, inserts_share, removes_share) = s.shares in
    let answers = look_up-block t w'.look_ups w'.tcx (tid * w'.tcx) (λ p low high.
      let pn = share-within w'.tcx threads no_contains tid p contains_share lt high in
      ap (contains t) (s.look_ups p pn) ∙ there (p + no_remove) (omega (arith, pn, le))) in
    let adds =
      block-AreKeys w'.adds w'.tix (tid * w'.tix) (λ p low high.
        keys p (share-within w'.tix threads no_inserts tid p inserts_share lt high)) in
    let cleared = no_removals t w'.removes w'.trx tid none_left in
    let run : worker fuel t w' tid cached ≡ (
        insert_keys fuel t (share w'.adds w'.tix tid) cached >>= λ t'. ok (all_true w'.tcx, t')) =
      ap
        (λ c. insert_keys fuel c (share w'.adds w'.tix tid) cached >>= λ t'.
          ok (look_up t (share w'.look_ups w'.tcx tid), t'))
        cleared
      ∙ ap (λ a. insert_keys fuel t (share w'.adds w'.tix tid) cached >>= λ t'. ok (a, t'))
          answers in
    elim (insert_keys_from fuel t (share w'.adds w'.tix tid) cached enough adds placed) [
      | inl out ↦ inl (run ∙ ap (λ o. o >>= λ t'. ok (all_true w'.tcx, t')) out)
      | inr (inl out) ↦ inr (inl (run ∙ ap (λ o. o >>= λ t'. ok (all_true w'.tcx, t')) out))
      | inr (inr (t', done, placed', says)) ↦
          inr (inr (t', run ∙ ap (λ o. o >>= λ t'. ok (all_true w'.tcx, t')) done, placed', says))
    ]
