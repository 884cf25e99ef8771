-- ===== src/Prelude/Bits.antt =====
-- A field or a mask of a machine word, as arithmetic. The library gives the bit operations by a
-- recursion on digits, with the first number as the fuel; any fuel from there on will do.
use Prim.Native.Nat.{
  ℕ, zero, suc, ◌+◌, ◌-◌, ◌*◌, ◌/◌, ◌%◌, ◌^◌, ◌≤◌, ◌<◌, min, max, digits, bit_and, bit_or,
  bit_and-bitwise, bit_or-bitwise,
}
use mathlib.Core.Path.{◌≡◌, sym, ap, subst, ◌∙◌}
use native.Mathlib.Nat.{pow-suc, one-le-pow, le_refl}
use native.Mathlib.Omega.{arith}

pub two_pow-suc : (t k : ℕ) → t * 2 ^ suc k ≡ 2 * (t * 2 ^ k)
two_pow-suc t k = omega (arith, ap (λ (p : ℕ). t * p) (pow-suc 2 k))

or_digits : (n k a t : ℕ) → a ≤ n → a < 2 ^ k → digits (λ b. b) max n a (t * 2 ^ k) ≡ a + t * 2 ^ k
or_digits zero k a t le lt = omega arith
or_digits (suc n) k zero t le lt = omega arith
or_digits (suc n) zero (suc a) t le lt = absurd (omega arith)
or_digits (suc n) (suc k) (suc a) t le lt =
    let half : t * 2 ^ suc k / 2 ≡ t * 2 ^ k = omega (arith, two_pow-suc t k) in
    let low : t * 2 ^ suc k % 2 ≡ 0 = omega (arith, two_pow-suc t k) in
    let rest = or_digits n k (suc a / 2) t (omega arith) (omega (arith, pow-suc 2 k)) in
    rw (half, low, rest) (omega (arith, two_pow-suc t k))

-- A field `t` set above the low `k` bits.
pub bit_or_high : (k a t : ℕ) → a < 2 ^ k → bit_or a (t * 2 ^ k) ≡ a + t * 2 ^ k
bit_or_high k a t lt = bit_or-bitwise a (t * 2 ^ k) ∙ or_digits a k a t (le_refl a) lt

and_digits :
    (n k a q r : ℕ)
    → a ≤ n
    → a ≡ r + q * 2 ^ k
    → r < 2 ^ k
    → digits (λ b. 0) min n a (2 ^ k - 1) ≡ r
and_digits zero k a q r le e lt = omega arith
and_digits (suc n) k zero q r le e lt = omega arith
and_digits (suc n) zero (suc a) q r le e lt =
    let rest =
      and_digits n zero (suc a / 2) (suc a / 2) 0 (omega arith) (omega arith) (omega arith) in
    rw rest (omega arith)
and_digits (suc n) (suc k) (suc a) q r le e lt =
    let half : (2 ^ suc k - 1) / 2 ≡ 2 ^ k - 1 = omega (arith, pow-suc 2 k, one-le-pow k 2) in
    let low : (2 ^ suc k - 1) % 2 ≡ 1 = omega (arith, pow-suc 2 k, one-le-pow k 2) in
    let rest =
      and_digits n k (suc a / 2) q (r / 2) (omega arith) (omega (arith, two_pow-suc q k))
        (omega (arith, pow-suc 2 k)) in
    rw (half, low, rest) (omega (arith, two_pow-suc q k))

-- A mask of the low `k` bits.
pub bit_and_low : (k a : ℕ) → bit_and a (2 ^ k - 1) ≡ a % 2 ^ k
bit_and_low k a =
    bit_and-bitwise a (2 ^ k - 1)
    ∙ and_digits a k a (a / 2 ^ k) (a % 2 ^ k) (le_refl a) (grind (arith, one-le-pow k 2))
        (grind (arith, one-le-pow k 2))

pub zero-bit_or : (a : ℕ) → bit_or 0 a ≡ a
zero-bit_or a = bit_or-bitwise 0 a

and_digits-le : (n a b : ℕ) → digits (λ b. 0) min n a b ≤ b
and_digits-le zero a b = omega arith
and_digits-le (suc n) zero b = omega arith
and_digits-le (suc n) (suc a) b =
    let rest = and_digits-le n (suc a / 2) (b / 2) in omega (arith, rest)

-- A mask bounds what it lets through.
pub bit_and-le : (a b : ℕ) → bit_and a b ≤ b
bit_and-le a b = subst (λ n. n ≤ b) (sym (bit_and-bitwise a b)) (and_digits-le a a b)
