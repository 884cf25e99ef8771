-- ===== src/LfHash/Hash.antt =====
-- OurTable/src/LFHash.h: `mmix` and `MurmurHash2A`, on the bytes of the key.
use lock_free_hop_scotch.Prelude.{
  ℕ, ◌+◌, ◌*◌, ◌/◌, ◌%◌, ◌^◌, ◌<◌, bit_xor, ◌≡◌, refl, arith, List, [], ◌∷◌, u32, shr, length,
}

-- `m` of `MurmurHash2A`
abbrev mult : ℕ
mult = 0x5bd1e995

-- The macro `mmix(h,k)`, as the new value of `h`. The new value of `k` is not read again.
unfoldable pub mmix : ℕ → ℕ → ℕ
mmix h k =
    let k1 = u32 (k * mult) in
    let k2 = u32 (bit_xor k1 (shr k1 24) * mult) in bit_xor (u32 (h * mult)) k2

-- `*(unsigned int*)data`, on a little-endian machine
unfoldable pub load32 : ℕ → ℕ → ℕ → ℕ → ℕ
load32 a b c d = a + b * 2 ^ 8 + c * 2 ^ 16 + d * 2 ^ 24

-- The `switch (len)` over the bytes that are left: each case ends in a `break`.
unfoldable pub tail_word : List ℕ → ℕ
tail_word (a ∷ []) = a
tail_word (a ∷ b ∷ []) = b * 2 ^ 8
tail_word (a ∷ b ∷ c ∷ []) = c * 2 ^ 16
tail_word _ = 0

-- The `while (len >= 4)` loop, and the mix of the tail after it.
unfoldable pub mix_bytes : ℕ → List ℕ → ℕ
mix_bytes h (a ∷ b ∷ c ∷ d ∷ rest) = mix_bytes (mmix h (load32 a b c d)) rest
mix_bytes h rest = mmix h (tail_word rest)

-- The length is mixed in last; the list holds `len` bytes.
unfoldable pub murmur_hash_2a : ℕ → List ℕ → ℕ → ℕ
murmur_hash_2a seed bytes tabsize =
    let h1 = mmix (mix_bytes seed bytes) (length bytes) in
    let h2 = u32 (bit_xor h1 (shr h1 13) * mult) in bit_xor h2 (shr h2 15) % tabsize

-- The four bytes at `&key`.
unfoldable pub key_bytes : ℕ → List ℕ
key_bytes key = key % 256 ∷ key / 2 ^ 8 % 256 ∷ key / 2 ^ 16 % 256 ∷ key / 2 ^ 24 % 256 ∷ []

abbrev pub total_buckets : ℕ
total_buckets = 1024 * 1024 * 31

-- `MurmurHash2A((const void*)&key, 4, TotalBuckets)`
unfoldable pub home : ℕ → ℕ → ℕ
unfolding murmur_hash_2a mix_bytes mmix load32 tail_word key_bytes
home seed key = murmur_hash_2a seed (key_bytes key) total_buckets

pub home-lt : (seed key : ℕ) → home seed key < total_buckets
unfolding home
home-lt seed key = omega arith

-- The hash of key 42 under seed 12345, as the C code computes it.
home_test : home 12345 42 ≡ 11976516
unfolding home
home_test = refl
