-- ===== src/Driver/Shares.antt =====
-- OurTable/src/Hopscotch.cpp: which keys the workers of the measured run get.
use lock_free_hop_scotch.Prelude.{
  ℕ, zero, suc, ◌+◌, ◌*◌, ◌≤◌, ◌<◌, ◌≡◌, inl, inr, true, false, List, ◌==◌, ==_iff, arith, sym, ap,
  ◌∙◌, Bool-cases, Bool-eq-false, ℕ_discrete, dec_lt,
}
use native.Mathlib.Nat.{mul-le-mul_right, mul_comm}
use lock_free_hop_scotch.LfHash.Setup.Laws.{elem}
use lock_free_hop_scotch.Workload.{Workload}
use lock_free_hop_scotch.Workload.Keys.{Distinct}
use lock_free_hop_scotch.Workload.Split.{IsSplit}
use lock_free_hop_scotch.Driver.{block, share}

-- A key of a share stands at one of its places.
elem-block :
    (from : ℕ → ℕ) (n base k : ℕ)
    → elem k (block from base n) ≡ true
    → (j : ℕ) × (base ≤ j) × (j < base + n) × (from j ≡ k)
unfolding block elem
elem-block from zero base k h = absurd (cc h)
elem-block from (suc n) base k h = elim (ℕ_discrete (from base) k) [
  | yes here ↦ (base, omega arith, omega arith, here)
  | no ne ↦
      let (j, low, high, at) = elem-block from n (base + 1) k (ground (arith, h, ne)) in
      (j, omega (arith, low), omega (arith, high), at)
]

block-elem :
    (from : ℕ → ℕ) (n base k j : ℕ)
    → base ≤ j
    → j < base + n
    → from j ≡ k
    → elem k (block from base n) ≡ true
unfolding block elem
block-elem from zero base k j low high at = absurd (omega (arith, low, high))
block-elem from (suc n) base k j low high at = elim (ℕ_discrete base j) [
  | yes here ↦ ground (arith, ap from here, at)
  | no ne ↦
      let rest =
        block-elem from n (base + 1) k j (omega (arith, low, ne)) (omega (arith, high)) at in
      ground (arith, rest)
]

-- The shares of two threads are apart, and all of them are within the array.
share-apart : (c t u p : ℕ) → t * c ≤ p → p < t * c + c → u * c ≤ p → p < u * c + c → ¬ (t < u)
share-apart c t u p tl th ul uh lt =
    let le : suc t * c ≤ u * c = mul-le-mul_right c lt in
    let next : suc t * c ≡ t * c + c = grind arith in absurd (omega (arith, le, next, th, ul))

pub share-within : (c threads n t p : ℕ) → c * threads ≤ n → t < threads → p < t * c + c → p < n
share-within c threads n t p most lt high =
    let le : suc t * c ≤ threads * c = mul-le-mul_right c lt in
    let next : suc t * c ≡ t * c + c = grind arith in
    omega (arith, le, next, most, high, mul_comm c threads)

same_place :
    (ks : List ℕ) (store : ℕ → ℕ) (n i j : ℕ)
    → Distinct ks store n
    → i < n
    → j < n
    → store i ≡ store j
    → i ≡ j
same_place ks store n i j d il jl same = elim (dec_lt i j) [
  | yes before ↦ absurd (d.different j i jl before (sym same))
  | no later ↦ elim (dec_lt j i) [
    | yes after ↦ absurd (d.different i j il after same)
    | no other ↦ omega (arith, later, other)
  ]
]

-- Split as `workSplit` does it, with n different keys in the store and no more to remove and to look
-- up than that, and for any two of the threads: a key that the `worker` of the first removes is one
-- that the second removes just in case they are the same thread, and the second does not look it up.
pub IsSplit-share :
    (w w' : Workload) (n no_contains no_inserts no_remove threads : ℕ)
    → IsSplit w n no_contains no_inserts no_remove threads w'
    → Distinct w.dataset w.store n
    → no_remove + no_contains ≤ n
    → (t u k : ℕ) → t < threads
    → u < threads
    → elem k (share w'.removes w'.trx t) ≡ true
    → (elem k (share w'.removes w'.trx u) ≡ (t == u))
      × (elem k (share w'.look_ups w'.tcx u) ≡ false)
unfolding share
IsSplit-share w w' n no_contains no_inserts no_remove threads s d le t u k tl ul h =
    let (contains_share, inserts_share, removes_share) = s.shares in
    let (p, low, high, at) = elem-block w'.removes w'.trx (t * w'.trx) k h in
    let pn = share-within w'.trx threads no_remove t p removes_share tl high in
    (
      elim (Bool-cases (t == u)) [
        | inl same ↦
            ap (λ u. elem k (block w'.removes (u * w'.trx) w'.trx)) (sym ((==_iff t u).0 same))
            ∙ h
            ∙ sym same
        | inr differ ↦
            Bool-eq-false (elem k (block w'.removes (u * w'.trx) w'.trx)) (λ h'.
              let (q, low', high', at') = elem-block w'.removes w'.trx (u * w'.trx) k h' in
              let qn = share-within w'.trx threads no_remove u q removes_share ul high' in
              let same =
                same_place w.dataset w.store n p q d (omega (arith, pn, le)) (omega (arith, qn, le))
                  (sym (s.removes p pn) ∙ at ∙ sym at' ∙ s.removes q qn) in
              absurd (elim (dec_lt t u) [
                | yes before ↦
                    share-apart w'.trx t u p low high (omega (arith, same, low'))
                      (omega (arith, same, high')) before
                | no later ↦
                    share-apart w'.trx u t p (omega (arith, same, low'))
                      (omega (arith, same, high')) low high (ground (arith, later, differ))
              ]))
            ∙ sym differ
      ],
      Bool-eq-false (elem k (block w'.look_ups (u * w'.tcx) w'.tcx)) (λ h'.
          let (q, low', high', at') = elem-block w'.look_ups w'.tcx (u * w'.tcx) k h' in
          s.apart p q pn (share-within w'.tcx threads no_contains u q contains_share ul high')
            (at ∙ sym at')),
    )
