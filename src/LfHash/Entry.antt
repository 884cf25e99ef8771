-- ===== src/LfHash/Entry.antt =====
-- OurTable/src/LFHash.h: the 64-bit entry of a slot. The two highest bits are the tag (0 a key,
-- 1 a key that is being moved, 2 a removed key, 3 a reserved slot), the low 32 bits are the key.
use lock_free_hop_scotch.Prelude.{
  ℕ, ◌+◌, ◌*◌, ◌%◌, ◌^◌, ◌<◌, bit_and, bit_or, ◌≡◌, arith, Bool, false, shl64, shr, u32, u64, ℤ,
  short, asr, extend_short, zero-bit_or, bit_or_high, bit_and_low, ◌==◌,
}

-- `((e << 2) >> 2)`
unfoldable pub clear_tag : ℕ → ℕ
clear_tag e = shr (shl64 e 2) 2

-- `((e << 2) >> 2) | (tL << 62)`
unfoldable pub with_tag : ℕ → ℕ → ℕ
with_tag t e = bit_or (clear_tag e) (u64 (t * 2 ^ 62))

unfoldable pub get_key : ℕ → ℕ
get_key e = u32 (bit_and e 0xffffffffffff)

-- An `unsigned short`.
unfoldable pub get_header : ℕ → ℕ
get_header e = shr e 48 % 2 ^ 16

-- `Header = getHeader(e); Header >>= 14; Header == 2`, where `Header` is a `short`.
unfoldable pub is_deleted : ℕ → Bool
is_deleted e = elim (asr (short (get_header e)) 14) [ ℤ.pos n ↦ n == 2 | ℤ.negsuc n ↦ false ]

-- The entry that `CreateBucketEntry` writes. `STATE` and `header` are shorts.
unfoldable pub bucket_entry : ℕ → ℕ → ℕ
bucket_entry key thread =
    let header = bit_or (bit_or 0 (3 * 2 ^ 14 % 2 ^ 16)) thread in
    bit_or (bit_or 0 key) (shl64 (extend_short header) 48)

pub clear_tag_lem : (e : ℕ) → clear_tag e ≡ e % 2 ^ 62
unfolding clear_tag
clear_tag_lem e = omega arith

pub with_tag_lem : (t e : ℕ) → t < 4 → with_tag t e ≡ e % 2 ^ 62 + t * 2 ^ 62
unfolding with_tag
with_tag_lem t e h =
    let field : u64 (t * 2 ^ 62) ≡ t * 2 ^ 62 = omega arith in
    rw (field, clear_tag_lem) (bit_or_high 62 (e % 2 ^ 62) t (omega arith))

pub get_key_lem : (e : ℕ) → get_key e ≡ e % 2 ^ 32
unfolding get_key
get_key_lem e = omega (arith, bit_and_low 48 e)

-- An entry for a new key: a reservation, with the key in its low bits.
pub bucket_entry_lem : (key : ℕ) → key < 2 ^ 32 → bucket_entry key 0 ≡ key + 3 * 2 ^ 62
unfolding bucket_entry
bucket_entry_lem key h = rw zero-bit_or (bit_or_high 62 key 3 (omega arith))

-- No entry passes the test for a removed key: a `short` shifted right by 14 is at most 1.
pub is_deleted-eq-false : (e : ℕ) → is_deleted e ≡ false
unfolding is_deleted get_header
is_deleted-eq-false e = ground arith
