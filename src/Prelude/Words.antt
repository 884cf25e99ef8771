-- ===== src/Prelude/Words.antt =====
-- Machine words as native numbers: wrap-around by `%`, shifts by `*` and `/`, and the reading of a
-- 16-bit pattern as a signed `short`. An array of words is a function from its index.
use Prim.Native.Nat.{ℕ, ◌+◌, ◌-◌, ◌*◌, ◌/◌, ◌%◌, ◌^◌}
use mathlib.Core.Path.{◌≡◌}
use mathlib.Core.Logic.{◌≢◌}
use native.Mathlib.Omega.{arith}
use lock_free_hop_scotch.Prelude.Tests.{ltb, ◌==◌, if◌then◌else◌}

abbrev pub u32 : ℕ → ℕ
u32 n = n % 2 ^ 32

abbrev pub u64 : ℕ → ℕ
u64 n = n % 2 ^ 64

-- a - b on `unsigned int`, for b < 2 ^ 32
abbrev pub sub32 : ℕ → ℕ → ℕ
sub32 a b = u32 (a + 2 ^ 32 - b)

abbrev pub shl64 : ℕ → ℕ → ℕ
shl64 x k = u64 (x * 2 ^ k)

abbrev pub shr : ℕ → ℕ → ℕ
shr x k = x / 2 ^ k

-- `negsuc n` is -(n + 1).
pub data ℤ : Type 0 where
  pos : ℕ → ℤ
  negsuc : ℕ → ℤ

-- The `short` that a 16-bit pattern stands for.
abbrev pub short : ℕ → ℤ
short w = if ltb w (2 ^ 15) then ℤ.pos w else ℤ.negsuc (2 ^ 16 - w - 1)

-- `>>` on a signed number rounds down.
abbrev pub asr : ℤ → ℕ → ℤ
asr (ℤ.pos n) k = ℤ.pos (n / 2 ^ k)
asr (ℤ.negsuc n) k = ℤ.negsuc (n / 2 ^ k)

-- A 16-bit pattern, sign-extended to 64 bits.
abbrev pub extend_short : ℕ → ℕ
extend_short w = if ltb w (2 ^ 15) then w else w + 2 ^ 64 - 2 ^ 16

-- A write at one index of an array, or of any family over the numbers.
abbrev pub update {ℓ} : {A : Type ℓ} → (ℕ → A) → ℕ → A → ℕ → A
update slots i v j = if i == j then v else slots j

pub update_same {ℓ} : {A : Type ℓ} (slots : ℕ → A) (i : ℕ) (v : A) → update slots i v i ≡ v
update_same slots i v = ground arith

pub update_other {ℓ} :
    {A : Type ℓ} (slots : ℕ → A) (i : ℕ) (v : A) {j : ℕ} → j ≢ i → update slots i v j ≡ slots j
update_other slots i v ne = ground arith
