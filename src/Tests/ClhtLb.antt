-- ===== src/Tests/ClhtLb.antt =====
-- OtherTables/src/clht/src/clht_lb.c, at a table with four buckets.
use lock_free_hop_scotch.Prelude.{
  ℕ, ◌^◌, ◌≡◌, ◌≢◌, Bool, true, [], ◌∷◌, none, some, refl, arith, false, ◌==◌, if◌then◌else◌,
}
use lock_free_hop_scotch.ClhtLb.Chain.{
  or_else, Chain, last, link, find_slot, find, put, remove, slots,
}
use lock_free_hop_scotch.ClhtLb.Table.{
  Locked, Table, clht_hashtable_create, clht_hash, clht_get, clht_put, clht_remove, clht_size,
}
use lock_free_hop_scotch.ClhtLb.Replace.{IsTable, lookup}
use lock_free_hop_scotch.ClhtLb.Laws.{IsChain}
use lock_free_hop_scotch.ClhtLb.Refinement.{PutTable, RemoveTable, clht_put_lem, clht_remove_lem}
use lock_free_hop_scotch.ClhtLb.Create.{clht_hashtable_create_lem}
use lock_free_hop_scotch.ClhtLb.Roundtrip.{clht_put-remove}
use lock_free_hop_scotch.ClhtLb.Seq.{bucket_cpy}
use lock_free_hop_scotch.ClhtLb.Seq.Laws.{own_key, bucket_cpy_lem}

-- All memory that is allocated later holds 99.
abbrev garbage : ℕ → ℕ
garbage j = 99

abbrev Created : Type 0
Created =
    (t : Table) × (clht_hashtable_create (2 ^ 2) ≡ some t)
    × IsTable t
    × ((q : ℕ) → q ≢ 0 → lookup t q ≡ none)
    × (clht_size t ≡ 0)

clht_hashtable_create_lem_at : Created
clht_hashtable_create_lem_at = clht_hashtable_create_lem 2

-- A bucket that is full gets a next one; a removed key leaves its slot to the next key.
abbrev full : Chain
full = last (
    record { key = 2; val = 20 }
    ∷ record { key = 6; val = 60 }
    ∷ record { key = 10; val = 100 }
    ∷ [])

abbrev empty : Chain
empty =
    last
      (record { key = 0; val = 0 } ∷ record { key = 0; val = 0 } ∷ record { key = 0; val = 0 } ∷ [])

-- Bucket 2 is full.
abbrev used : Table
used = record {
  num_buckets = 4;
  table = λ i. record { lock = 0; chain = if i == 2 then full else empty };
}

used-IsChain : (b : Bool) → IsChain (if b then full else empty)
unfolding slots find_slot
used-IsChain true = (λ h. refl, ((λ h. refl), ((λ h. refl), tt)))
used-IsChain false = (λ h. absurd (h refl), ((λ h. absurd (h refl)), ((λ h. absurd (h refl)), tt)))

used-IsTable : IsTable used
used-IsTable = record {
  log = 2;
  power = refl;
  free = λ i lt. refl;
  valid = λ i lt. used-IsChain (i == 2);
}

clht_put_lem_example :
    (r : Bool × Table) × (clht_put garbage used 14 140 ≡ some r) × PutTable used 14 140 r
clht_put_lem_example = clht_put_lem garbage used 14 140 used-IsTable (omega arith)

clht_remove_lem_example : (r : ℕ × Table) × (clht_remove used 6 ≡ some r) × RemoveTable used 6 r
clht_remove_lem_example = clht_remove_lem used 6 used-IsTable (omega arith)

used-absent : lookup used 14 ≡ none
unfolding find find_slot clht_hash
used-absent = refl

clht_put-remove_example :
    (a : Bool × Table) × (clht_put garbage used 14 140 ≡ some a)
    × (clht_get a.1 14 ≡ 140)
    × ((r : Table) × (clht_remove a.1 14 ≡ some (140, r))
        × ((q : ℕ) → q ≢ 0 → lookup r q ≡ lookup used q)
        × (clht_size r ≡ clht_size used))
clht_put-remove_example = clht_put-remove garbage used 14 140 used-IsTable (omega arith) used-absent

full_put : put garbage full 14 140 ≡ (
  true,
  link
      (record { key = 2; val = 20 }
        ∷ record { key = 6; val = 60 }
        ∷ record { key = 10; val = 100 }
        ∷ [])
      (last (
        record { key = 14; val = 140 }
        ∷ record { key = 0; val = 99 }
        ∷ record { key = 0; val = 99 }
        ∷ [])),
)
unfolding put
full_put = refl

full_remove : remove full 6 ≡ (
  60,
  last (
      record { key = 2; val = 20 }
      ∷ record { key = 0; val = 60 }
      ∷ record { key = 10; val = 100 }
      ∷ []),
)
unfolding remove
full_remove = refl

-- A chain with a key that `used` has, and one that it has not.
abbrev old : Locked
old = record { lock = 0; chain = link (slots full) (last (record { key = 7; val = 70 } ∷ [])) }

Copied : Type 0
Copied =
    (r : Table) × (bucket_cpy garbage old used ≡ some (record old { lock = 1 }, r))
    × IsTable r
    × ((q : ℕ) → q ≢ 0 → lookup r q ≡ or_else (lookup used q) (own_key q (find old.chain q)))

bucket_cpy_lem_example : Copied
unfolding Copied
bucket_cpy_lem_example = bucket_cpy_lem garbage old used refl used-IsTable
