-- ===== src/LfHash/Table/Contains.antt =====
-- OurTable/src/LFHash.h: what `contains` finds, in any table and in one whose keys stand near home.
use lock_free_hop_scotch.Prelude.{
  ℕ, zero, suc, ◌+◌, ◌^◌, ◌≤◌, ◌<◌, true, any, ◌≡◌, ◌≢◌, ◌↔◌, ◌⊎◌, inl, inr, arith, Bool-cases,
  Bool-eq_of_iff,
}
use lock_free_hop_scotch.LfHash.Hash.{home, home-lt, total_buckets}
use lock_free_hop_scotch.LfHash.Entry.{with_tag_lem}
use lock_free_hop_scotch.LfHash.Table.{hop, Table, is_entry_of, marks, contains}

-- A key as the program uses it: an `unsigned int`, and not the 0 of a free slot.
pub record IsKey (key : ℕ) : Type 0 where
  pub nonzero : key ≢ 0
  pub small : key < 2 ^ 32

abbrev pub Near : ℕ → ℕ → ℕ → Type 0
Near seed e i = (e < 2 ^ 32) × (home seed e ≤ i) × (i ≤ home seed e + hop)

-- Each slot is free or holds a plain key, within the neighbourhood of that key's home.
abbrev pub IsPlaced : ℕ → (ℕ → ℕ) → Type 0
IsPlaced seed slots = (i : ℕ) → (slots i ≡ 0) ⊎ Near seed (slots i) i

abbrev pub Holds : (ℕ → ℕ) → ℕ → Type 0
Holds slots e = (i : ℕ) × (slots i ≡ e)

pub is_entry_of_iff :
    (key e : ℕ) → key < 2 ^ 32 → (is_entry_of key e ≡ true) ↔ ((e ≡ key) ⊎ (e ≡ key + 2 ^ 62))
unfolding is_entry_of
is_entry_of_iff key e small = ground (arith, with_tag_lem 1 key)

-- A slot of the `n` from slot `i` on that holds the key.
abbrev Marked : (ℕ → ℕ) → ℕ → ℕ → ℕ → Type 0
Marked slots key n i = (j : ℕ) × (i ≤ j) × (j < i + n) × (is_entry_of key (slots j) ≡ true)

marks_sound :
    (slots : ℕ → ℕ) (key n i : ℕ) → any (marks slots key n i) ≡ true → Marked slots key n i
unfolding marks
marks_sound slots key zero i h = absurd (ground arith)
marks_sound slots key (suc n) i h = elim (Bool-cases (is_entry_of key (slots i))) [
  | inl here ↦ (i, omega arith, omega arith, here)
  | inr off ↦
      let (j, lo, hi, found) = marks_sound slots key n (i + 1) (rw off at h) in
      (j, omega arith, omega arith, found)
]

marks_complete :
    (slots : ℕ → ℕ) (key n i j : ℕ)
    → i ≤ j
    → j < i + n
    → is_entry_of key (slots j) ≡ true
    → any (marks slots key n i) ≡ true
unfolding marks
marks_complete slots key zero i j lo hi found = absurd (omega arith)
marks_complete slots key (suc n) i j lo hi found =
    ground (arith, marks_complete slots key n (i + 1) j)

-- For a key of 32 bits, `contains` is true exactly when one of the 17 slots from the key's home on holds the key, plain
-- or marked as being moved.
pub contains_iff :
    (t : Table) (key : ℕ)
    → key < 2 ^ 32
    → (contains t key ≡ true) ↔ (
        (j : ℕ) × (home t.seed key ≤ j)
        × (j ≤ home t.seed key + hop)
        × ((t.slots j ≡ key) ⊎ (t.slots j ≡ key + 2 ^ 62)))
unfolding contains
contains_iff t key small = (
  λ h.
      let (j, lo, hi, found) = marks_sound t.slots key (hop + 1) (home t.seed key) h in
      (j, lo, omega arith, (is_entry_of_iff key _ small).0 found),
  λ (j, lo, hi, found).
      marks_complete t.slots key (hop + 1) (home t.seed key) j lo (omega arith)
        ((is_entry_of_iff key _ small).1 found),
)

-- With every key near its home, `contains` finds a key wherever it stands.
pub contains-Holds :
    (t : Table) (key : ℕ)
    → IsPlaced t.seed t.slots
    → IsKey key
    → (contains t key ≡ true) ↔ Holds t.slots key
contains-Holds t key placed k = (
  λ h. let (j, lo, hi, found) = (contains_iff t key k.small).0 h in (j, ground (arith, placed j)),
  λ (j, at).
      (contains_iff t key k.small).1
        (j, ground (arith, placed j), ground (arith, placed j), inl at),
)

-- `contains` reads no word past the part of memory that the constructor zeroes: tables that agree
-- there, and in their seed, give the same answer.
pub contains_reads :
    (t u : Table) (key : ℕ)
    → key < 2 ^ 32
    → t.seed ≡ u.seed
    → ((i : ℕ) → i < total_buckets + hop → t.slots i ≡ u.slots i)
    → contains t key ≡ contains u key
contains_reads t u key small seeds agree = Bool-eq_of_iff _ _ (
  λ p.
      let (j, lo, hi, found) = (contains_iff t key small).0 p in
      let same = agree j (omega (arith, home-lt t.seed key)) in
      (contains_iff u key small).1 (j, rw (← seeds) lo, rw (← seeds) hi, rw (← same) found),
  λ p.
      let (j, lo, hi, found) = (contains_iff u key small).0 p in
      let same = agree j (omega (arith, home-lt u.seed key)) in
      (contains_iff t key small).1 (j, rw seeds lo, rw seeds hi, rw same found),
)
