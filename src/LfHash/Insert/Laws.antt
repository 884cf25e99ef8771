-- ===== src/LfHash/Insert/Laws.antt =====
-- OurTable/src/LFHash.h: `BucketInsert` in a neighbourhood with a free slot.
use lock_free_hop_scotch.Prelude.{
  ℕ, zero, suc, ◌+◌, ◌≤◌, ◌<◌, true, some, ◌≡◌, ◌≢◌, inl, inr, arith, Bool-cases, ◌==◌, ==_iff,
  update, if◌then◌else◌,
}
use lock_free_hop_scotch.LfHash.Entry.{is_deleted}
use lock_free_hop_scotch.LfHash.Run.{ok}
use lock_free_hop_scotch.LfHash.Table.{hop, exchange_won}
use lock_free_hop_scotch.LfHash.Insert.{take_free, bucket_insert}

-- The first free slot from `i` on.
pub record FirstFree (slots : ℕ → ℕ) (i j : ℕ) : Type 0 where
  pub lower : i ≤ j
  pub free : slots j ≡ 0
  pub taken : (l : ℕ) → i ≤ l → l < j → slots l ≢ 0

take_free_lem :
    (slots : ℕ → ℕ) (key n i cached m : ℕ)
    → i ≤ m
    → m < i + n
    → slots m ≡ 0
    → (j : ℕ) × (j ≤ m)
      × FirstFree slots i j
      × ((take_free slots key n i 0 cached).0 ≡ some (update slots j key))
unfolding take_free
take_free_lem slots key zero i cached m lo hi free = absurd (omega arith)
take_free_lem slots key (suc n) i cached m lo hi free = elim (Bool-cases (slots i == 0)) [
  | inl e ↦
      let here : slots i ≡ 0 = (==_iff _ _).0 e in
      (
        i,
        lo,
        record { lower = omega arith; free = here; taken = λ l a b. absurd (omega arith) },
        rw (exchange_won slots i 0 key here, here),
      )
  | inr e ↦
      let ne : slots i ≢ 0 = ground arith in
      let (j, le, first, run) =
        take_free_lem slots key n (i + 1) (if is_deleted (slots i) then slots i else cached) m
          (ground arith) (omega arith) free in
      (
        j,
        le,
        record {
          lower = omega (arith, first.lower);
          free = first.free;
          taken = λ l a b. ground (arith, first.taken l, ne);
        },
        rw e run,
      )
]

-- If one of the 17 slots from `base` on is free, `bucket_insert` writes the key to the first free one
-- of them and returns true.
pub bucket_insert_lem :
    (slots : ℕ → ℕ) (base key cached m : ℕ)
    → base ≤ m
    → m ≤ base + hop
    → slots m ≡ 0
    → (j : ℕ) × (j ≤ m)
      × FirstFree slots base j
      × (bucket_insert slots base key cached ≡ ok (true, update slots j key))
unfolding bucket_insert
bucket_insert_lem slots base key cached m lo hi free =
    let (j, le, first, run) =
      take_free_lem slots key (hop + 1) base cached m lo (omega arith) free in
    (j, le, first, rw (bucket_insert, run))
