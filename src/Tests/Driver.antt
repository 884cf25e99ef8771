-- ===== src/Tests/Driver.antt =====
-- The shares of the workers of OurTable/src/Hopscotch.cpp, at four keys and two threads.
use lock_free_hop_scotch.Prelude.{
  ℕ, zero, suc, ◌+◌, ◌≡◌, ◌<◌, true, false, [], ◌∷◌, ◌==◌, refl, arith, ltb, if◌then◌else◌,
  Bool-cases, inl, inr, subst, sym, ap,
}
use lock_free_hop_scotch.LfHash.Setup.Laws.{elem}
use lock_free_hop_scotch.Workload.{Workload, find_key}
use lock_free_hop_scotch.Workload.Keys.{Distinct}
use lock_free_hop_scotch.Workload.Split.{IsSplit}
use lock_free_hop_scotch.Tests.LfHash.{single, single_has, single-IsPlaced, IsKey-of}
use lock_free_hop_scotch.LfHash.Table.Contains.{IsKey}
use lock_free_hop_scotch.Driver.Answers.{WorkerEnds, worker_lem}
use lock_free_hop_scotch.Driver.{block, share}
use lock_free_hop_scotch.Driver.Shares.{IsSplit-share}

abbrev four_keys : Workload
four_keys = record {
  dataset = 4 ∷ 3 ∷ 2 ∷ 1 ∷ [];
  look_ups = λ i. 0;
  store = λ i. i + 1;
  adds = λ i. 0;
  removes = λ i. 0;
  tcx = 0;
  offset = 0;
  tix = 0;
  trx = 0;
  calls = 4;
}

-- The keys 1 and 2 are removed, and 3 and 4 are looked up.
abbrev halves : Workload
halves = record four_keys { look_ups = λ i. i + 3; removes = λ i. i + 1; tcx = 1; trx = 1 }

four_keys-there : (i : ℕ) → i < 4 → find_key four_keys.dataset (four_keys.store i) ≡ true
unfolding find_key
four_keys-there zero lt = refl
four_keys-there (suc zero) lt = refl
four_keys-there (suc (suc zero)) lt = refl
four_keys-there (suc (suc (suc zero))) lt = refl
four_keys-there (suc (suc (suc (suc i)))) lt = absurd (omega (arith, lt))

four_keys-Distinct : Distinct four_keys.dataset four_keys.store 4
four_keys-Distinct = record {
  there = four_keys-there;
  range = λ i lt. (omega arith, omega (arith, lt));
  different = λ i j lt before same. omega (arith, before, same);
}

halves-IsSplit : IsSplit four_keys 4 2 0 2 2 halves
halves-IsSplit = record {
  removes = λ i lt. refl;
  look_ups = λ i lt. omega arith;
  apart = λ i j il jl same. omega (arith, il, same);
  fresh = λ i j il jl. absurd (omega (arith, il));
  again = λ i il. absurd (omega (arith, il));
  shares = (omega arith, omega arith, omega arith);
}

-- The first worker removes the key 1; the second does not, and does not look it up.
IsSplit-share_at :
    (elem 1 (share halves.removes halves.trx 1) ≡ (0 == 1))
    × (elem 1 (share halves.look_ups halves.tcx 1) ≡ false)
unfolding share block elem
IsSplit-share_at =
    IsSplit-share four_keys halves 4 2 0 2 2 halves-IsSplit four_keys-Distinct (omega arith) 0 1 1
      (omega arith) (omega arith) refl

-- The key 4023609 is in the store; one thread looks it up, and inserts 42 and that key.
abbrev one_key : Workload
one_key = record four_keys { dataset = 4023609 ∷ []; store = λ i. 4023609 }

abbrev with_adds : Workload
with_adds = record one_key {
  look_ups = λ i. 4023609;
  adds = λ i. if ltb i 1 then 42 else 4023609;
  tcx = 1;
  tix = 2;
}

with_adds-IsSplit : IsSplit one_key 1 1 2 0 1 with_adds
with_adds-IsSplit = record {
  removes = λ i lt. absurd (omega (arith, lt));
  look_ups = λ i lt. refl;
  apart = λ i j il jl same. absurd (omega (arith, il));
  fresh = λ i j il jl same. absurd (ground (arith, il, same));
  again = λ i il. ground (arith, il);
  shares = (omega arith, omega arith, omega arith);
}

with_adds-IsKey : (i : ℕ) → i < 2 → IsKey (with_adds.adds i)
with_adds-IsKey i lt = elim (Bool-cases (ltb i 1)) [
  | inl h ↦
      subst IsKey (sym (ap (λ b. if b then 42 else 4023609) h))
        (IsKey-of 42 (omega arith) (omega arith))
  | inr h ↦
      subst IsKey (sym (ap (λ b. if b then 42 else 4023609) h))
        (IsKey-of 4023609 (omega arith) (omega arith))
]

worker_lem_example : WorkerEnds 256 single with_adds 0 0
worker_lem_example =
    worker_lem 256 single one_key with_adds 1 1 2 0 1 (omega arith) with_adds-IsSplit (omega arith)
      refl single-IsPlaced (λ i lt. single_has) with_adds-IsKey 0 0 (omega arith)
