-- ===== src/LfHash/Remove/Effect.antt =====
-- OurTable/src/LFHash.h: what `contains` says after a `Remove`, and the harm of its time stamp.
use lock_free_hop_scotch.Prelude.{
  ℕ, ◌+◌, ◌%◌, ◌^◌, ◌≤◌, Bool, true, false, ◌&&◌, ◌≡◌, ◌≢◌, ap, ◌↔◌, inl, inr, arith, Bool-cases,
  ◌==◌, Bool-eq_of_iff, Bool-eq-false, if◌then◌else◌, u32,
}
use lock_free_hop_scotch.LfHash.Hash.{home}
use lock_free_hop_scotch.LfHash.Table.{hop, Table, contains}
use lock_free_hop_scotch.LfHash.Table.Contains.{IsKey}
use lock_free_hop_scotch.LfHash.Remove.{remove}
use lock_free_hop_scotch.LfHash.Remove.Laws.{
  IsPlain, contains_plain, first, written, written-IsPlain, remove_one, written_at, first_holds,
  first_near,
}

-- At most one slot of the key's neighbourhood holds the key.
abbrev pub Once : Table → ℕ → Type 0
Once t key =
    (i j : ℕ)
    → home t.seed key ≤ i
    → i ≤ home t.seed key + hop
    → home t.seed key ≤ j
    → j ≤ home t.seed key + hop
    → t.slots i ≡ key
    → t.slots j ≡ key
    → i ≡ j

-- What `remove` writes where it finds the key.
abbrev pub stamp_of : Table → ℕ
stamp_of t = u32 t.time_stamp % 2 ^ 30

module _ (t : Table) (key : ℕ) (k : IsKey key) (plain : IsPlain t.slots) where
  abbrev place : ℕ
  place = first t key k plain

  -- The table after `remove`, as far as `contains` sees it.
  abbrev after : Table
  after = (remove t key).1

  slots_after : after.slots ≡ written t key k plain
  slots_after = ap (λ (r : Bool × Table). r.1.slots) (remove_one t key k plain)

  after_at :
      (j : ℕ) → after.slots j ≡ (if contains t key && place == j then stamp_of t else t.slots j)
  after_at j = rw slots_after (written_at t key k plain j)

  seed_after : after.seed ≡ t.seed
  seed_after = ap (λ (r : Bool × Table). r.1.seed) (remove_one t key k plain)

  after-IsPlain : IsPlain after.slots
  after-IsPlain = rw slots_after (written-IsPlain t key k plain)

  contains_after :
      (l : ℕ)
      → IsKey l
      → (contains after l ≡ true)
        ↔ ((j : ℕ) × (home t.seed l ≤ j) × (j ≤ home t.seed l + hop) × (after.slots j ≡ l))
  contains_after l h = rw seed_after at (contains_plain after l h after-IsPlain)

  gone : Once t key → stamp_of t ≢ key → ¬ (contains after key ≡ true)
  gone once fresh p =
      let (j, lo, hi, e) = (contains_after key k).0 p in
      let near = first_near t key k plain in
      elim (Bool-cases (contains t key)) [
        | inl there ↦
            let same = once place j near.0 near.1 lo hi (first_holds t key k plain there) in
            ground (arith, after_at j, same)
        | inr absent ↦
            let there = (contains_plain t key k plain).1 (j, lo, hi, ground (arith, after_at j)) in
            cc
      ]

  kept : (l : ℕ) → IsKey l → l ≢ key → stamp_of t ≢ l → contains after l ≡ contains t l
  kept l h ne ns =
      let held : contains t key ≡ true → t.slots place ≡ key = first_holds t key k plain in
      Bool-eq_of_iff _ _ (
        λ p.
            let (j, lo, hi, e) = (contains_after l h).0 p in
            (contains_plain t l h plain).1 (j, lo, hi, ground (arith, after_at j)),
        λ p.
            let (j, lo, hi, e) = (contains_plain t l h plain).0 p in
            (contains_after l h).1 (j, lo, hi, ground (arith, after_at j)),
      )

-- A `remove` that did what it is for.
abbrev pub RemoveSays : Table → ℕ → Type 0
RemoveSays t key =
    ((remove t key).0 ≡ contains t key)
    × IsPlain (remove t key).1.slots
    × (contains (remove t key).1 key ≡ false)
    × ((l : ℕ) → IsKey l → l ≢ key → stamp_of t ≢ l → contains (remove t key).1 l ≡ contains t l)

-- `remove`, in a table without tagged slots in which the key stands once at most in its
-- neighbourhood, and at a time stamp that is not the key: it returns what `contains` said of the
-- key and leaves no tagged slot; `contains` then does not find the key, and says the same as
-- before of each other key that is not the time stamp.
pub remove_lem :
    (t : Table) (key : ℕ)
    → IsKey key
    → IsPlain t.slots
    → Once t key
    → stamp_of t ≢ key
    → RemoveSays t key
remove_lem t key k plain once fresh = (
  rw (remove_one t key k plain),
  after-IsPlain t key k plain,
  Bool-eq-false _ (gone t key k plain once fresh),
  kept t key k plain,
)

-- A slot that held the key, from which the time stamp is then read as a key.
abbrev pub StampSays : Table → ℕ → Type 0
StampSays t key =
    (j : ℕ) × (home t.seed key ≤ j)
    × (j ≤ home t.seed key + hop)
    × (t.slots j ≡ key)
    × ((remove t key).0 ≡ true)
    × (IsKey (stamp_of t)
        → home t.seed (stamp_of t) ≤ j
        → j ≤ home t.seed (stamp_of t) + hop
        → contains (remove t key).1 (stamp_of t) ≡ true)

-- The time stamp that replaces a removed key reads as a key of its own: after a `remove` of a key
-- that is there, at some slot of its neighbourhood, `contains` finds the number of the time stamp
-- whenever that slot is in the neighbourhood of that number. So a `remove` of the key that equals
-- the time stamp returns true and leaves the key where it was.
pub remove-adds-stamp :
    (t : Table) (key : ℕ) → IsKey key → IsPlain t.slots → contains t key ≡ true → StampSays t key
remove-adds-stamp t key k plain there =
    let near = first_near t key k plain in
    let place_at = place t key k plain in
    (
      place_at,
      near.0,
      near.1,
      first_holds t key k plain there,
      rw (remove_one t key k plain) there,
      λ h lo hi.
          (contains_after t key k plain (stamp_of t) h).1
            (place_at, lo, hi, ground (arith, after_at t key k plain place_at)),
    )
