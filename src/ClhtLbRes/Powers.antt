-- ===== src/ClhtLbRes/Powers.antt =====
-- OtherTables/src/clht/include/utils.h: why the five steps of `pow2roundup` reach a power of two.
use lock_free_hop_scotch.Prelude.{
  ℕ, zero, suc, ◌+◌, ◌-◌, ◌*◌, ◌/◌, ◌%◌, ◌^◌, ◌<◌, ◌≤◌, ◌≡◌, ◌≢◌, ◌⊎◌, inl, inr, false, ◌==◌,
  if◌then◌else◌, refl, ap, sym, subst, ◌∙◌, arith, u32, bit_or, ltb, Bool-cases, zero-bit_or,
  two_pow-suc,
}
use Prim.Native.Nat.{digits, max, bit_or-bitwise}
use native.Mathlib.Nat.{
  one-le-pow, pow-suc, add-mul, mul-add, mul_comm, le-div_iff_mul-le, div-lt_iff_lt-mul,
  pow-le-pow_right, div-le_self, div-add-mod', mul-le-mul_right, div-eq_of_lt,
}
use lock_free_hop_scotch.ClhtLbRes.Round.{smear, pow2roundup}

abbrev or_digits : ℕ → ℕ → ℕ → ℕ
or_digits n a b = digits (λ b. b) max n a b

or_digits_fuel : (n m a b : ℕ) → a ≤ n → a ≤ m → or_digits n a b ≡ or_digits m a b
or_digits_fuel zero zero a b p q = refl
or_digits_fuel zero (suc m) zero b p q = refl
or_digits_fuel zero (suc m) (suc a) b p q = absurd (omega arith)
or_digits_fuel (suc n) zero zero b p q = refl
or_digits_fuel (suc n) zero (suc a) b p q = absurd (omega arith)
or_digits_fuel (suc n) (suc m) zero b p q = refl
or_digits_fuel (suc n) (suc m) (suc a) b p q =
    omega (arith, or_digits_fuel n m (suc a / 2) (b / 2) (omega arith) (omega arith))

bit_or_step : (a b : ℕ) → bit_or a b ≡ bit_or (a / 2) (b / 2) * 2 + max (a % 2) (b % 2)
bit_or_step zero b = omega (arith, zero-bit_or b, zero-bit_or (b / 2))
bit_or_step (suc a) b = omega (
  arith,
  bit_or-bitwise (suc a) b,
  bit_or-bitwise (suc a / 2) (b / 2),
  or_digits_fuel a (suc a / 2) (suc a / 2) (b / 2) (omega arith) (omega arith),
)

bit_or_lt : (k a b : ℕ) → a < 2 ^ k → b < 2 ^ k → bit_or a b < 2 ^ k
bit_or_lt zero zero b p q = omega (arith, zero-bit_or b)
bit_or_lt zero (suc a) b p q = absurd (omega arith)
bit_or_lt (suc k) a b p q = omega (
  arith,
  bit_or_step a b,
  pow-suc 2 k,
  bit_or_lt k (a / 2) (b / 2) (omega (arith, pow-suc 2 k)) (omega (arith, pow-suc 2 k)),
)

bit_or_le : (n a : ℕ) → a ≤ n → a ≤ bit_or a 0
bit_or_le zero a le = omega arith
bit_or_le (suc n) a le = omega (arith, bit_or_step a 0, bit_or_le n (a / 2) (omega arith))

-- The high part of one number and all of a low number are in their `or`.
or_lower : (m h r b : ℕ) → b < 2 ^ m → h * 2 ^ m + b ≤ bit_or (h * 2 ^ m + r) b
or_lower zero h r zero lt = omega (arith, bit_or_le (h * 2 ^ 0 + r) (h * 2 ^ 0 + r) (omega arith))
or_lower zero h r (suc b) lt = absurd (omega arith)
or_lower (suc m) h r b lt =
    let half : (h * 2 ^ suc m + r) / 2 ≡ h * 2 ^ m + r / 2 = omega (arith, two_pow-suc h m) in
    omega (
      arith,
      two_pow-suc h m,
      bit_or_step (h * 2 ^ suc m + r) b,
      ap (λ a. bit_or a (b / 2)) half,
      or_lower m h (r / 2) (b / 2) (omega (arith, pow-suc 2 m)),
    )

pub two_pow-add : (m w : ℕ) → 2 ^ (m + w) ≡ 2 ^ m * 2 ^ w
two_pow-add m zero = ap (λ k. 2 ^ k) (let e : m + 0 ≡ m = omega arith in e) ∙ omega arith
two_pow-add m (suc w) = omega (
  arith,
  ap (λ k. 2 ^ k) (let e : m + suc w ≡ suc (m + w) = omega arith in e),
  two_pow-add m w,
  two_pow-suc (2 ^ m) w,
  pow-suc 2 (m + w),
)

-- `y` has `k` bits, and the first `w` of them are ones.
abbrev Ones : ℕ → ℕ → ℕ → Type 0
Ones w k y = (y < 2 ^ k) × (2 ^ k ≤ y + 2 ^ (k - w))

-- A shift by `w` puts the ones after the first ones.
shift_bounds :
    (p q r y : ℕ)
    → 1 ≤ p
    → r ≤ q
    → q * p ≤ y + q
    → q ≤ r * p
    → y < q * p
    → (q ≤ y / p + r) × (y / p < q)
shift_bounds p q r y one le ones small lt =
    let d = q - r in
    let back : q ≡ d + r = omega (arith, le) in
    let split : q * p ≡ d * p + r * p = ap (λ q. q * p) back ∙ add-mul d r p in
    let low =
      (le-div_iff_mul-le {k = p} {x = d} {y = y} one).1 (omega (arith, split, ones, small)) in
    (omega (arith, low, le), (div-lt_iff_lt-mul {k = p} {x = y} {y = q} one).1 lt)

pred-mul : (p q : ℕ) → 1 ≤ p → (p - 1) * q + q ≡ q * p
pred-mul zero q le = absurd (omega (arith, le))
pred-mul (suc p) q le = omega (
  arith,
  ap (λ a. a * q) (let e : suc p - 1 ≡ p = omega arith in e),
  mul-add q p 1,
  mul_comm p q,
  ap (λ a. q * a) (let e : suc p ≡ p + 1 = omega arith in e),
)

smear_high : (m w y : ℕ) → Ones w (m + w) y → Ones (w + w) (m + w) (smear w y)
unfolding smear
smear_high m w y (lt, ones) =
    let p = 2 ^ w in
    let q = 2 ^ m in
    let r = 2 ^ (m + w - (w + w)) in
    let all = two_pow-add m w in
    let room : m + w - w ≡ m = omega arith in
    let ones' : q * p ≤ y + q = omega (arith, ones, all, ap (λ n. 2 ^ n) room) in
    let fits : q ≤ r * p = omega (
      arith,
      two_pow-add (m + w - (w + w)) w,
      pow-le-pow_right {n = 2} (omega arith) {i = m} {j = m + w - (w + w) + w} (omega arith),
    ) in
    let (low, high) =
      shift_bounds p q r y (one-le-pow w 2 (omega arith))
        (pow-le-pow_right {n = 2} (omega arith) {i = m + w - (w + w)} {j = m} (omega arith)) ones'
        fits (omega (arith, lt, all)) in
    let h = y / q in
    let pred : (p - 1) * q + q ≡ q * p = pred-mul p q (one-le-pow w 2 (omega arith)) in
    let top : (p - 1) * q ≤ h * q = mul-le-mul_right {m = p - 1} {n = h} q (
      (le-div_iff_mul-le {k = q} {x = p - 1} {y = y} (one-le-pow m 2 (omega arith))).1
        (omega (arith, pred, ones'))) in
    let lower = or_lower m h (y % q) (y / p) high in
    let same : h * q + y % q ≡ y = div-add-mod' y q in
    (
      bit_or_lt (m + w) y (y / p) lt (omega (arith, lt, div-le_self y p)),
      omega (arith, all, pred, top, lower, low, ap (λ a. bit_or a (y / p)) same),
    )

pub smear_lem : (w k y : ℕ) → Ones w k y → Ones (w + w) k (smear w y)
unfolding smear
smear_lem w k y (lt, ones) = elim (le_or_lt k w) [
  | inl short ↦
      let all : y + 1 ≡ 2 ^ k =
        omega (arith, lt, ones, ap (λ n. 2 ^ n) (let e : k - w ≡ 0 = omega (arith, short) in e)) in
      let gone : y / 2 ^ w ≡ 0 =
        div-eq_of_lt
          (omega (arith, lt, pow-le-pow_right {n = 2} (omega arith) {i = k} {j = w} short)) in
      subst (λ b. Ones (w + w) k (bit_or y b)) (sym gone)
        (
          bit_or_lt k y 0 lt (one-le-pow k 2 (omega arith)),
          omega (arith, all, bit_or_le y y (omega arith), one-le-pow (k - (w + w)) 2 (omega arith)),
        )
  | inr long ↦
      let split : k - w + w ≡ k = omega (arith, long) in
      subst (λ k. Ones (w + w) k (smear w y)) split
        (smear_high (k - w) w y (subst (λ k. Ones w k y) (sym split) (lt, ones)))
]
  where
    le_or_lt : (a b : ℕ) → (a ≤ b) ⊎ (b < a)
    le_or_lt a b = elim (Bool-cases (ltb b a)) [
      | inl e ↦ inr (ground (arith, e))
      | inr e ↦ inl (ground (arith, e))
    ]

-- The number of bits of a number.
bits : (n y : ℕ) → y < 2 ^ n → (k : ℕ) × (k ≤ n) × Ones 1 k y
bits zero y lt = (0, omega arith, (lt, omega arith))
bits (suc n) y lt = elim (Bool-cases (ltb y (2 ^ n))) [
  | inl small ↦ let (k, le, ones) = bits n y (ground (arith, small)) in (k, omega (arith, le), ones)
  | inr large ↦ (
    suc n,
    omega arith,
    (
      lt,
      let le : 2 ^ n ≤ y = ground (arith, large) in
          omega
            (arith, pow-suc 2 n, le, ap (λ k. 2 ^ k) (let e : suc n - 1 ≡ n = omega arith in e)),
    ),
  )
]

smear_up :
    (k y : ℕ) → k ≤ 32 → Ones 1 k y → smear 16 (smear 8 (smear 4 (smear 2 (smear 1 y)))) + 1 ≡ 2 ^ k
smear_up k y le ones =
    let (lt, all) = smear_lem 16 k (smear 8 (smear 4 (smear 2 (smear 1 y)))) (
      smear_lem 8 k (smear 4 (smear 2 (smear 1 y)))
        (smear_lem 4 k (smear 2 (smear 1 y)) (smear_lem 2 k (smear 1 y) (smear_lem 1 k y ones)))) in
    omega (arith, lt, all, ap (λ n. 2 ^ n) (let e : k - 32 ≡ 0 = omega (arith, le) in e))

below : (k x : ℕ) → x ≢ 0 → 2 ^ k ≤ x - 1 + 2 ^ (k - 1) → 2 ^ k < 2 * x
below zero x nz half = omega (arith, nz)
below (suc k) x nz half =
    omega (arith, nz, half, pow-suc 2 k, ap (λ n. 2 ^ n) (let e : suc k - 1 ≡ k = omega arith in e))

-- `pow2roundup` gives, for each number from 1 to 2 ^ 31, the least power of two that is not below it.
pub pow2roundup_lem :
    (x : ℕ) → x ≢ 0 → x ≤ 2 ^ 31 → (k : ℕ) × (pow2roundup x ≡ 2 ^ k) × (x ≤ 2 ^ k) × (2 ^ k < 2 * x)
unfolding pow2roundup
pow2roundup_lem x nz le =
    let (k, short, (lt, half)) = bits 31 (x - 1) (omega (arith, nz, le)) in
    let up = smear_up k (x - 1) (omega (arith, short)) (lt, half) in
    let small = pow-le-pow_right {n = 2} (omega arith) {i = k} {j = 31} short in
    let y = smear 16 (smear 8 (smear 4 (smear 2 (smear 1 (x - 1))))) in
    let test : x == 0 ≡ false = ground (arith, nz) in
    (
      k,
      ap (λ b. if b then 1 else u32 (y + 1)) test ∙ ap u32 up ∙ omega (arith, small),
      omega (arith, lt),
      below k x nz half,
    )
