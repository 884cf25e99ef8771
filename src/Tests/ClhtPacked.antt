-- ===== src/Tests/ClhtPacked.antt =====
-- OtherTables/src/clht/src/clht_lb_packed.c, at a table whose one bucket is full.
use lock_free_hop_scotch.Prelude.{ℕ, ◌^◌, ◌≡◌, Bool, [], ◌∷◌, none, some, refl, arith}
use lock_free_hop_scotch.ClhtLb.Chain.{find_slot, value_or_0}
use lock_free_hop_scotch.ClhtPacked.Chain.{Bucket, single, put, remove, get}
use lock_free_hop_scotch.ClhtPacked.Table.{
  Table, clht_get, clht_hashtable_create, clht_put, clht_remove, clht_size,
}
use lock_free_hop_scotch.ClhtPacked.Change.{IsTable, PutTable, RemoveTable, lookup}
use lock_free_hop_scotch.ClhtPacked.Refinement.{
  clht_put-PutTable, clht_remove-RemoveTable, clht_get-lookup, clht_hashtable_create-IsTable,
}

-- All memory that is allocated later holds 99.
abbrev garbage : ℕ → ℕ
garbage j = 99

abbrev full : Bucket
full = record {
  last = 3;
  slots =
      record { key = 2; val = 20 }
      ∷ record { key = 6; val = 60 }
      ∷ record { key = 10; val = 100 }
      ∷ [];
}

abbrev one_chain : Table
one_chain = record { num_buckets = 1; table = λ i. record { lock = 0; chain = single full } }

one_chain-IsTable : IsTable one_chain
unfolding find_slot
one_chain-IsTable = record {
  log = 0;
  power = refl;
  free = λ i lt. refl;
  packed = λ i lt. record { three = refl; room = omega arith };
  unique = λ i lt. (refl, (refl, (refl, tt)));
}

clht_put-PutTable_example :
    (r : Bool × Table) × (clht_put garbage one_chain 14 140 ≡ some r) × PutTable one_chain 14 140 r
clht_put-PutTable_example = clht_put-PutTable garbage one_chain 14 140 one_chain-IsTable

clht_remove-RemoveTable_example :
    (r : ℕ × Table) × (clht_remove one_chain 2 ≡ some r) × RemoveTable one_chain 2 r
clht_remove-RemoveTable_example = clht_remove-RemoveTable one_chain 2 one_chain-IsTable

clht_get-lookup_example : clht_get one_chain 6 ≡ value_or_0 (lookup one_chain 6)
clht_get-lookup_example = clht_get-lookup one_chain 6 one_chain-IsTable

clht_hashtable_create-IsTable_at :
    (t : Table) × (clht_hashtable_create (2 ^ 3) ≡ some t)
    × IsTable t
    × ((q : ℕ) → lookup t q ≡ none)
    × (clht_size t ≡ 0)
clht_hashtable_create-IsTable_at = clht_hashtable_create-IsTable 3

-- The last entry takes the place of the first.
full_remove : remove (single full) 2 ≡ (
  20,
  single (record {
    last = 2;
    slots =
        record { key = 10; val = 100 }
        ∷ record { key = 6; val = 60 }
        ∷ record { key = 10; val = 100 }
        ∷ [];
  }),
)
unfolding remove
full_remove = refl

full_get : get (put garbage (single full) 14 140).1 14 ≡ 140
unfolding get put
full_get = refl
