-- ===== src/ClhtLbRes/Factor.antt =====
-- OtherTables/src/clht/src/clht_lb_res.c: the factor by which `ht_status` makes a table grow.
use lock_free_hop_scotch.Prelude.{
  ℕ, zero, suc, ◌+◌, ◌*◌, ◌/◌, ◌^◌, ◌<◌, ◌≤◌, ◌≡◌, Bool, true, false, ◌&&◌, ◌||◌, Option, none,
  some, ◌==◌, Bool-cases, inl, inr, if◌then◌else◌, refl, sym, ap, subst, ◌∙◌, arith, ltb,
}
use native.Mathlib.Nat.{mul-le-mul_right, mul_assoc, mul_comm, add-mul, div-mul-le_self}
use lock_free_hop_scotch.ClhtLbRes.Round.{pow2roundup}
use lock_free_hop_scotch.ClhtLbRes.Powers.{pow2roundup_lem}
use lock_free_hop_scotch.ClhtLbRes.Table.{Table, clht_size}
use lock_free_hop_scotch.ClhtLbRes.Status.{growth}

-- A factor by which a table may grow.
pub record GrowsBy (num_buckets by : ℕ) : Type 0 where
  pub log : ℕ
  pub power : by ≡ 2 ^ log
  pub twice : 2 ≤ by
  pub fits : by * num_buckets < 2 ^ 32

abbrev rounded : ℕ → ℕ
rounded x = let by = pow2roundup x in if by == 1 then 2 else by

rounded_lem :
    (x : ℕ) → x ≤ 2 ^ 31 → (k : ℕ) × (rounded x ≡ 2 ^ k) × (2 ≤ rounded x) × (rounded x ≤ 2 * x + 2)
unfolding pow2roundup
rounded_lem zero le = (1, refl, omega arith, omega arith)
rounded_lem (suc x) le =
    let (k, eq, low, high) = pow2roundup_lem (suc x) (λ e. ground (arith, e)) le in
    elim (Bool-cases (pow2roundup (suc x) == 1)) [
      | inl one ↦
          let two : rounded (suc x) ≡ 2 = ap (λ b. if b then 2 else pow2roundup (suc x)) one in
          (1, two, omega (arith, two), omega (arith, two))
      | inr more ↦
          let same : rounded (suc x) ≡ pow2roundup (suc x) =
            ap (λ b. if b then 2 else pow2roundup (suc x)) more in
          (k, same ∙ eq, ground (arith, same, eq, more, low), omega (arith, same, eq, high))
    ]

-- What `ht_status` asks for fits in the count of buckets.
percent : (size n : ℕ) → 100 * size / (n * 3) / 40 * n ≤ size
percent size n =
    let q = 100 * size / (n * 3) in
    let x = q / 40 in
    let most : q * (n * 3) ≤ 100 * size = div-mul-le_self (100 * size) (n * 3) in
    let part : x * 40 * (n * 3) ≤ q * (n * 3) =
      mul-le-mul_right {m = x * 40} {n = q} (n * 3) (omega arith) in
    let same : x * 40 * (n * 3) ≡ x * n * 120 =
      mul_assoc x 40 (n * 3)
      ∙ ap (λ a. x * a) (let e : 40 * (n * 3) ≡ n * 120 = omega arith in e)
      ∙ sym (mul_assoc x n 120) in
    omega (arith, most, part, same)

-- The bounds on a table for which its growth stays below 2 ^ 32.
pub record InBounds (t : Table) : Type 0 where
  pub buckets : t.num_buckets ≤ 2 ^ 30
  pub sizes : clht_size t < 2 ^ 30

growth_by :
    (size n : ℕ)
    → 1 ≤ n
    → n ≤ 2 ^ 30
    → size < 2 ^ 30
    → GrowsBy n (rounded (100 * size / (n * 3) / 40))
growth_by size n one le few =
    let x = 100 * size / (n * 3) / 40 in
    let part = percent size n in
    let small : x ≤ x * n =
      subst (λ y. x ≤ y) (mul_comm n x) (omega (arith, mul-le-mul_right {m = 1} {n = n} x one)) in
    let (k, power, twice, most) = rounded_lem x (omega (arith, small, part, few)) in
    let all : rounded x * n ≤ (2 * x + 2) * n =
      mul-le-mul_right {m = rounded x} {n = 2 * x + 2} n most in
    let split : (2 * x + 2) * n ≡ 2 * (x * n) + 2 * n =
      add-mul (2 * x) 2 n ∙ ap (λ a. a + 2 * n) (mul_assoc 2 x n) in
    record {
      log = k;
      power = power;
      twice = twice;
      fits = omega (arith, all, split, part, le, few);
    }

-- The growth that `ht_status` asks for.
abbrev pub Wants : ℕ → Option ℕ → Type 0
Wants n none = Unit
Wants n (some by) = GrowsBy n by

pub growth_lem :
    (size n expands : ℕ) (increase : Bool)
    → 1 ≤ n
    → n ≤ 2 ^ 30
    → size < 2 ^ 30
    → Wants n (growth size n expands increase)
unfolding growth
growth_lem size n expands increase one le few =
    let by = growth_by size n one le few in
    go (ltb 0 size && ltb (100 * size) (5 * (n * 3)))
      ((ltb 0 size && ltb (50 * (n * 3)) (100 * size)) || ltb 24 expands || increase) by
  where
    go :
        (a b : Bool) {n by : ℕ}
        → GrowsBy n by
        → Wants n (if a then none else if b then some by else none)
    go true b g = tt
    go false true g = g
    go false false g = tt
