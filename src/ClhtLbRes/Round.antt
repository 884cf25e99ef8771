-- ===== src/ClhtLbRes/Round.antt =====
-- OtherTables/src/clht/include/utils.h: the next power of two.
use lock_free_hop_scotch.Prelude.{ℕ, ◌+◌, ◌-◌, ◌==◌, if◌then◌else◌, u32, shr, bit_or}

-- `x |= x >> k`
unfoldable pub smear : ℕ → ℕ → ℕ
smear k x = bit_or x (shr x k)

-- A result of 2 ^ 32 wraps round.
unfoldable pub pow2roundup : ℕ → ℕ
unfolding smear
pow2roundup x =
    if x == 0 then 1 else u32 (smear 16 (smear 8 (smear 4 (smear 2 (smear 1 (x - 1))))) + 1)
