-- ===== src/Tests/Workload.antt =====
-- OurTable/src/workload.h, where rand() counts its calls.
use lock_free_hop_scotch.Prelude.{
  ℕ, zero, suc, ◌+◌, ◌<◌, ◌≡◌, true, [], ◌∷◌, length, some, refl, arith, ◌==◌, Bool-cases, inl, inr,
}
use lock_free_hop_scotch.Workload.{Workload, find_key, key_from, workload, work_split}
use lock_free_hop_scotch.Workload.Keys.{Hits, Distinct, workload_lem}
use lock_free_hop_scotch.Workload.Split.{IsSplit, work_split_lem}

abbrev calls : ℕ → ℕ
calls k = k

-- All memory that is allocated holds 99.
abbrev garbage : ℕ → ℕ
garbage j = 99

calls-Hits : Hits 3 calls 3
unfolding find_key
calls-Hits k [] few = (0, omega arith, refl)
calls-Hits k (x ∷ []) few = elim (Bool-cases (x == key_from (k + 0))) [
  | inr other ↦ (0, omega arith, ground (arith, other))
  | inl here ↦ (1, omega arith, ground (arith, here))
]
calls-Hits k (x ∷ (y ∷ [])) few = elim (Bool-cases (find_key (x ∷ (y ∷ [])) (key_from (k + 0)))) [
  | inr free ↦ (0, omega arith, free)
  | inl first ↦ elim (Bool-cases (find_key (x ∷ (y ∷ [])) (key_from (k + 1)))) [
    | inr free ↦ (1, omega arith, free)
    | inl second ↦ (2, omega arith, ground (arith, first, second))
  ]
]
calls-Hits k (x ∷ (y ∷ (z ∷ zs))) few = absurd (omega (arith, few))

calls-Hits_two : Hits 3 calls 2
calls-Hits_two k ks few = calls-Hits k ks (omega (arith, few))

workload_lem_example :
    (w : Workload) × (workload 3 calls garbage 2 ≡ some w)
    × Distinct w.dataset w.store 2
    × (length w.dataset ≡ 2)
    × (w.offset ≡ 0)
workload_lem_example = workload_lem 3 calls garbage 2 calls-Hits_two

-- The workload with the keys 1 and 2.
abbrev two_keys : Workload
two_keys = record {
  dataset = 2 ∷ 1 ∷ [];
  look_ups = garbage;
  store = λ i. i + 1;
  adds = garbage;
  removes = garbage;
  tcx = 0;
  offset = 0;
  tix = 0;
  trx = 0;
  calls = 2;
}

two_keys-there : (i : ℕ) → i < 2 → find_key two_keys.dataset (two_keys.store i) ≡ true
unfolding find_key
two_keys-there zero lt = refl
two_keys-there (suc zero) lt = refl
two_keys-there (suc (suc i)) lt = absurd (omega (arith, lt))

two_keys-Distinct : Distinct two_keys.dataset two_keys.store 2
two_keys-Distinct = record {
  there = two_keys-there;
  range = λ i lt. (omega arith, omega (arith, lt));
  different = λ i j lt before same. omega (arith, before, same);
}

work_split_lem_example :
    (w : Workload) × (work_split 3 calls two_keys 1 2 1 1 ≡ some w) × IsSplit two_keys 2 1 2 1 1 w
work_split_lem_example =
    work_split_lem 3 calls two_keys 2 1 2 1 1 calls-Hits two_keys-Distinct refl refl (omega arith)
      (omega arith)
