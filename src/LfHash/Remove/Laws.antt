-- ===== src/LfHash/Remove/Laws.antt =====
-- OurTable/src/LFHash.h: what `Remove` does to a table with no reservations and no moves going on.
use lock_free_hop_scotch.Prelude.{
  ℕ, zero, suc, ◌+◌, ◌*◌, ◌/◌, ◌%◌, ◌^◌, ◌≤◌, ◌<◌, true, false, ◌&&◌, any, ◌≡◌, refl, ◌↔◌, inl, inr,
  arith, Bool-cases, or-false, leb, ◌==◌, if◌then◌else◌, u32, u64, bit_or, bit_or_high,
}
use lock_free_hop_scotch.LfHash.Hash.{home}
use lock_free_hop_scotch.LfHash.Table.{
  hop, Table, next_stamp, is_entry_of, marks, contains, compare_exchange, exchange_lost,
}
use lock_free_hop_scotch.LfHash.Table.Contains.{IsKey, is_entry_of_iff, contains_iff}
use lock_free_hop_scotch.LfHash.Remove.{
  first_set, find_first, find_next, final_entry, sweep, remove,
}

-- No slot has a tag.
abbrev pub IsPlain : (ℕ → ℕ) → Type 0
IsPlain slots = (i : ℕ) → slots i < 2 ^ 62

-- The 32-bit conversion drops the tag of a removed key.
pub final_entry_lem : (stamp : ℕ) → final_entry stamp ≡ stamp % 2 ^ 30
unfolding final_entry
final_entry_lem stamp = omega (arith, bit_or_high 62 (u32 (stamp * 2 ^ 2) / 2 ^ 2) 2 (omega arith))

-- The first marked position of the bitset is one whose slot holds the key, if there is one.
first_set-marks :
    (slots : ℕ → ℕ) (key base m i : ℕ)
    → i + m ≡ hop
    → is_entry_of key (slots (base + first_set 0 i (marks slots key (suc m) (base + i))))
      ≡ any (marks slots key (suc m) (base + i))
unfolding first_set marks
first_set-marks slots key base zero i e =
    let last : i ≡ hop = omega arith in
    let zero_le : leb 0 i ≡ true = ground arith in
    elim (Bool-cases (is_entry_of key (slots (base + i)))) [
      | inl here ↦ rw (zero_le, here) here
      | inr off ↦ rw (off, ← last) off
    ]
first_set-marks slots key base (suc m) i e =
    elim (Bool-cases (is_entry_of key (slots (base + i)))) [
      | inl here ↦ let zero_le : leb 0 i ≡ true = ground arith in rw (zero_le, here) here
      | inr off ↦
          let next : base + i + 1 ≡ base + (i + 1) = omega arith in
          let ih = first_set-marks slots key base m (i + 1) (omega arith) in rw (off, next) ih
    ]

first_set-le :
    (slots : ℕ → ℕ) (key base n i : ℕ)
    → i + n ≤ hop + 1
    → first_set 0 i (marks slots key n base) ≤ hop
unfolding first_set marks
first_set-le slots key base zero i e = omega arith
first_set-le slots key base (suc n) i e =
    ground (arith, first_set-le slots key (base + 1) n (i + 1))

sweep-IsPlain : (slots : ℕ → ℕ) (n i : ℕ) → IsPlain slots → sweep slots n i ≡ slots
unfolding sweep
sweep-IsPlain slots zero i plain = refl
sweep-IsPlain slots (suc n) i plain =
    let off : (slots i / 2 ^ 62 == 3) ≡ false = ground (arith, plain i) in
    rw off (sweep-IsPlain slots n (i + 1) plain)

-- Where no slot has a tag, `contains` finds the key itself, in the neighbourhood.
pub contains_plain :
    (t : Table) (key : ℕ)
    → IsKey key
    → IsPlain t.slots
    → (contains t key ≡ true)
      ↔ ((j : ℕ) × (home t.seed key ≤ j) × (j ≤ home t.seed key + hop) × (t.slots j ≡ key))
contains_plain t key k plain = (
  λ h.
      let (j, lo, hi, found) = (contains_iff t key k.small).0 h in
      (j, lo, hi, ground (arith, plain j)),
  λ (j, lo, hi, found). (contains_iff t key k.small).1 (j, lo, hi, inl found),
)

module _ (t : Table) (key : ℕ) (k : IsKey key) (plain : IsPlain t.slots) where
  -- The position at which `remove` tries its first exchange.
  pub first : ℕ
  first = home t.seed key + find_first (marks t.slots key (hop + 1) (home t.seed key))

  first_lem : (t.slots first == key) ≡ contains t key
  unfolding first contains
  first_lem =
      let base = home t.seed key in
      let start : base + 0 ≡ base = omega arith in
      let marked = rw start at (first_set-marks t.slots key base hop 0 refl) in
      ground (arith, marked, is_entry_of_iff key (t.slots first) k.small, plain first)

  -- What the first exchange leaves, with `stamp` as the new entry.
  abbrev pub written : ℕ → ℕ
  written = (compare_exchange t.slots first key (u32 t.time_stamp % 2 ^ 30)).after

  pub written-IsPlain : IsPlain written
  unfolding compare_exchange
  written-IsPlain i = ground (arith, plain i)

  won_lem : (compare_exchange t.slots first key (u32 t.time_stamp % 2 ^ 30)).won ≡ contains t key
  unfolding compare_exchange
  won_lem = ground (arith, first_lem)

  -- The second exchange is lost, and the sweep finds no reservation.
  pub remove_one :
      remove t key
      ≡ (contains t key, record t { slots = written; time_stamp = u64 (t.time_stamp + 1) })
  unfolding remove next_stamp first
  remove_one =
      let base = home t.seed key in
      let bits = marks t.slots key (hop + 1) base in
      let at2 = base + find_next bits (find_first bits) in
      let moving : bit_or key (2 ^ 62) ≡ key + 2 ^ 62 =
        bit_or_high 62 key 1 (ground (arith, k.small)) in
      let lost =
        exchange_lost written at2 (key + 2 ^ 62) (u32 t.time_stamp % 2 ^ 30)
          (omega (arith, written-IsPlain at2)) in
      rw (
        remove,
        final_entry_lem,
        moving,
        lost,
        won_lem,
        sweep-IsPlain written (hop + 1) base written-IsPlain,
        or-false,
      )

  -- The array afterwards: the stamp stands where the key was found.
  pub written_at :
      (j : ℕ)
      → written j ≡ (if contains t key && first == j then u32 t.time_stamp % 2 ^ 30 else t.slots j)
  unfolding compare_exchange
  written_at j = ground (arith, first_lem)

  pub first_holds : contains t key ≡ true → t.slots first ≡ key
  first_holds there = ground (arith, first_lem)

  -- That place is in the neighbourhood of the key.
  pub first_near : (home t.seed key ≤ first) × (first ≤ home t.seed key + hop)
  unfolding first
  first_near = (
    omega arith,
    omega (arith, first_set-le t.slots key (home t.seed key) (hop + 1) 0 (omega arith)),
  )
