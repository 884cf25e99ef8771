-- ===== src/ClhtLf/Power.antt =====
-- OtherTables/src/clht/src/clht_lf.c: the tests on a number of buckets.
use lock_free_hop_scotch.Prelude.{
  ℕ, zero, suc, ◌-◌, ◌/◌, ◌%◌, ◌^◌, ◌≤◌, ◌≡◌, ◌≢◌, ◌↔◌, ◌⊎◌, inl, inr, Bool, true, not, ◌&&◌, ◌==◌,
  arith, refl, sym, ap, subst, ◌∙◌, bit_and, bit_and_low,
}
use Prim.Native.Nat.{digits, min, bit_and-bitwise}
use native.Mathlib.Nat.{pow-suc, one-le-pow, le_refl}

unfoldable pub is_power_of_two : ℕ → Bool
is_power_of_two x = not (x == 0) && bit_and x (x - 1) == 0

unfoldable pub is_odd : ℕ → ℕ
is_odd x = bit_and x 1

same_digits : (n a : ℕ) → a ≤ n → digits (λ b. 0) min n a a ≡ a
same_digits zero a le = omega arith
same_digits (suc n) zero le = omega arith
same_digits (suc n) (suc a) le =
    let rest = same_digits n (suc a / 2) (omega (arith, le)) in omega (arith, rest)

parity : (a : ℕ) → (a % 2 ≡ 0) ⊎ (a % 2 ≡ 1)
parity a = ground arith

-- A number that has no digit in common with the number before it.
power_digits :
    (n a : ℕ) → suc a ≤ n → digits (λ b. 0) min n (suc a) a ≡ 0 → (k : ℕ) × (suc a ≡ 2 ^ k)
power_digits zero a le h = absurd (omega arith)
power_digits (suc n) a le h = elim (parity a) [
  | inl even ↦
      let half : suc a / 2 ≡ a / 2 = omega (arith, even) in
      let rest : digits (λ b. 0) min n (suc a / 2) (a / 2) ≡ a / 2 =
        ap (λ d. digits (λ b. 0) min n d (a / 2)) half
        ∙ same_digits n (a / 2) (omega (arith, le)) in
      (0, omega (arith, even, rest, h))
  | inr odd ↦
      let half : suc a / 2 ≡ suc (a / 2) = omega (arith, odd) in
      let rest : digits (λ b. 0) min n (suc (a / 2)) (a / 2) ≡ 0 =
        ap (λ d. digits (λ b. 0) min n d (a / 2)) (sym half) ∙ omega (arith, h) in
      let (k, e) = power_digits n (a / 2) (omega (arith, le, odd)) rest in
      (suc k, omega (arith, e, odd, pow-suc 2 k))
]

-- The test of `is_power_of_two` from its second half on.
power_of : (x : ℕ) → x ≢ 0 → bit_and x (x - 1) ≡ 0 → (k : ℕ) × (x ≡ 2 ^ k)
power_of zero nz h = absurd (nz refl)
power_of (suc a) nz h = power_digits (suc a) a (le_refl (suc a)) (
    sym (bit_and-bitwise (suc a) a)
    ∙ ap (bit_and (suc a)) {x = a} {y = suc a - 1} (omega arith)
    ∙ h)

-- `is_power_of_two` says of every number whether it is a power of two.
pub is_power_of_two_iff : (x : ℕ) → (is_power_of_two x ≡ true) ↔ ((k : ℕ) × (x ≡ 2 ^ k))
unfolding is_power_of_two
is_power_of_two_iff x = (
  λ h. power_of x (ground (arith, h)) (ground (arith, h)),
  λ (k, e).
      let mask : bit_and x (x - 1) ≡ 0 =
        subst (λ x. bit_and x (x - 1) ≡ 0) (sym e)
          (bit_and_low k (2 ^ k) ∙ grind (arith, one-le-pow k 2)) in
      ground (arith, mask, e, one-le-pow k 2),
)
