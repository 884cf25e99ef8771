-- ===== src/Buckets.antt =====
-- OtherTables/src/clht/src: what the tables share whose bucket for a key is `key & (n - 1)`: the
-- change of one bucket, seen by a lookup and by a sum over all buckets.
use lock_free_hop_scotch.Prelude.{
  ℕ, zero, suc, ◌+◌, ◌-◌, ◌^◌, ◌%◌, ◌<◌, ◌≤◌, ◌≡◌, ◌≢◌, false, Option, ◌==◌, ==_iff, Bool-cases,
  inl, inr, update, update_same, update_other, u32, bit_and, bit_and_low, refl, sym, ap, subst, ◌∙◌,
  arith, ℕ_discrete,
}
use native.Mathlib.Nat.{one-le-pow}

-- `key & mask`, as a `uint32_t`, is the index of one of 2 ^ log buckets.
pub mask_lt : (log n mask key : ℕ) → n ≡ 2 ^ log → mask ≡ n - 1 → u32 (bit_and key mask) < n
mask_lt log n mask key power same =
    let low : bit_and key mask ≡ key % 2 ^ log =
      ap (bit_and key) (same ∙ ap (λ n. n - 1) power) ∙ bit_and_low log key in
    subst (λ n. u32 (bit_and key mask) < n) (sym power) (grind (arith, low, one-le-pow log 2))

module _ {ℓ} {B : Type ℓ} where
  module _ (look : B → ℕ → Option ℕ) (home : ℕ → ℕ) where
    abbrev pub lookup_in : (ℕ → B) → ℕ → Option ℕ
    lookup_in table q = look (table (home q)) q

    -- A change of the bucket of `key` changes the lookups as it changes those in the bucket, if it
    -- leaves each other key alone.
    pub lookup-update :
        (table : ℕ → B) (bin key : ℕ) (b : B) (f : ℕ → Option ℕ → Option ℕ)
        → home key ≡ bin
        → ((q : ℕ) → q ≢ 0 → look b q ≡ f q (look (table bin) q))
        → ((q : ℕ) (x : Option ℕ) → (q == key) ≡ false → f q x ≡ x)
        → (q : ℕ) → q ≢ 0
        → lookup_in (update table bin b) q ≡ f q (lookup_in table q)
    lookup-update table bin key b f at change others q nz = elim (ℕ_discrete (home q) bin) [
      | yes here ↦
          ap (λ i. look (update table bin b i) q) here
          ∙ ap (λ b. look b q) (update_same table bin b)
          ∙ change q nz
          ∙ ap (λ i. f q (look (table i) q)) (sym here)
      | no there ↦
          ap (λ b. look b q) (update_other table bin b there)
          ∙ sym (others q (look (table (home q)) q) (differ q key there at))
    ]
      where
        differ : (q key : ℕ) → home q ≢ bin → home key ≡ bin → (q == key) ≡ false
        differ q key there at = elim (Bool-cases (q == key)) [
          | inl same ↦ absurd (there (ap home ((==_iff q key).0 same) ∙ at))
          | inr other ↦ other
        ]

  -- What holds of each bucket holds after a change that keeps it.
  pub each-update {κ} :
      (P : ℕ → B → Type κ) (table : ℕ → B) (bin : ℕ) (b : B) (n : ℕ)
      → P bin b
      → ((i : ℕ) → i < n → P i (table i))
      → (i : ℕ) → i < n
      → P i (update table bin b i)
  each-update P table bin b n new old i lt = elim (ℕ_discrete i bin) [
    | yes here ↦
        subst (λ j. P j (update table bin b j)) (sym here)
          (subst (P bin) (sym (update_same table bin b)) new)
    | no there ↦ subst (P i) (sym (update_other table bin b there)) (old i lt)
  ]

  module _ (size : B → ℕ) where
    -- The sum over the first `n` buckets.
    unfoldable pub sum_below : (ℕ → B) → ℕ → ℕ
    sum_below table zero = 0
    sum_below table (suc n) = sum_below table n + size (table n)

    sum_above :
        (table : ℕ → B) (bin : ℕ) (b : B) (n : ℕ)
        → n ≤ bin
        → sum_below (update table bin b) n ≡ sum_below table n
    unfolding sum_below
    sum_above table bin b zero le = refl
    sum_above table bin b (suc n) le =
        let rest = sum_above table bin b n (omega arith) in
        let same = update_other table bin b {j = n} (λ e. omega (arith, e, le)) in
        rw (rest, same) refl

    pub sum-update :
        (table : ℕ → B) (bin : ℕ) (b : B) (n : ℕ)
        → bin < n
        → sum_below (update table bin b) n + size (table bin) ≡ sum_below table n + size b
    unfolding sum_below
    sum-update table bin b zero lt = absurd (omega arith)
    sum-update table bin b (suc n) lt = elim (ℕ_discrete n bin) [
      | yes here ↦
          let rest = sum_above table bin b n (omega (arith, here)) in
          let same : update table bin b n ≡ b =
            ap (update table bin b) here ∙ update_same table bin b in
          let at : size (table n) ≡ size (table bin) = ap (λ i. size (table i)) here in
          rw (rest, same) omega (arith, at)
      | no there ↦
          let rest = sum-update table bin b n (omega (arith, there, lt)) in
          let same = update_other table bin b {j = n} there in rw same omega (arith, rest)
    ]
