-- ===== src/Tests/ClhtLbRes.antt =====
-- OtherTables/src/clht/src/clht_lb_res.c, at a table with one bucket that is full.
use lock_free_hop_scotch.Prelude.{
  ℕ, ◌*◌, ◌^◌, ◌<◌, ◌≤◌, ◌≡◌, ◌≢◌, Bool, true, false, [], ◌∷◌, Option, none, some, refl, arith,
}
use lock_free_hop_scotch.Buckets.{mask_lt}
use lock_free_hop_scotch.ClhtLb.Chain.{Chain, last, find_slot, find, slots}
use lock_free_hop_scotch.ClhtLb.Laws.{IsChain}
use lock_free_hop_scotch.ClhtLbRes.Round.{pow2roundup}
use lock_free_hop_scotch.ClhtLbRes.Powers.{pow2roundup_lem}
use lock_free_hop_scotch.ClhtLbRes.Table.{clht_hash, clht_get, clht_size, lock_free}
use lock_free_hop_scotch.ClhtLbRes.Status.{Clht, clht_create, ht_resize_pes}
use lock_free_hop_scotch.ClhtLbRes.Ops.{clht_put, clht_remove}
use lock_free_hop_scotch.ClhtLbRes.Change.{lookup, IsTable}
use lock_free_hop_scotch.ClhtLbRes.Settle.{Settles, ht_status_lem}
use lock_free_hop_scotch.ClhtLbRes.Refinement.{
  IsClht, PutClht, RemoveClht, clht_put-PutClht, clht_remove-RemoveClht,
}
use lock_free_hop_scotch.ClhtLbRes.Settle.{once_more}
use lock_free_hop_scotch.ClhtLbRes.Grow.{fresh_table, clht_hashtable_create_lem}
use lock_free_hop_scotch.ClhtLbRes.Errors.{Shrunk, ht_resize_pes-shrink}
use lock_free_hop_scotch.ClhtLbRes.Roundtrip.{Restored, clht_create-IsClht, clht_put-clht_remove}

-- All memory that is allocated later holds 99.
abbrev garbage : ℕ → ℕ
garbage j = 99

abbrev full : Chain
full = last (
    record { key = 2; val = 20 }
    ∷ record { key = 6; val = 60 }
    ∷ record { key = 10; val = 100 }
    ∷ [])

abbrev one_bucket : Clht
one_bucket = record {
  ht = record {
    num_buckets = 1;
    table = λ i. record { lock = lock_free; chain = full };
    hash = 0;
    version = 0;
    num_expands = 0;
    num_expands_threshold = 1;
  };
  prev = [];
  released = [];
  resize_lock = lock_free;
  status_lock = lock_free;
}

full-IsChain : IsChain full
unfolding slots find_slot
full-IsChain = (λ h. refl, ((λ h. refl), ((λ h. refl), tt)))

hash_zero : (q : ℕ) → clht_hash one_bucket.ht q < 1
unfolding clht_hash
hash_zero q = mask_lt 0 1 0 q refl refl

one_bucket-IsTable : IsTable one_bucket.ht
one_bucket-IsTable = record {
  log = 0;
  power = refl;
  mask = refl;
  threshold = refl;
  free = λ i lt. refl;
  valid = λ i lt. full-IsChain;
  placed = λ i lt q nz there. omega (arith, lt, hash_zero q);
}

one_bucket-IsClht : IsClht one_bucket
one_bucket-IsClht = record { valid = one_bucket-IsTable; resizable = refl; settled = refl }

size_three : clht_size one_bucket.ht ≡ 3
unfolding clht_size lock_free_hop_scotch.ClhtLb.Chain.size
size_three = refl

abbrev buckets_after : Option (Bool × Clht) → Option (Bool × ℕ)
buckets_after none = none
buckets_after (some (ok, h)) = some (ok, h.ht.num_buckets)

-- The new key gets a bucket of its own, which makes the table grow by 4.
grows : buckets_after (clht_put 30 garbage one_bucket 14 140) ≡ some (true, 4)
unfolding clht_put lock_free_hop_scotch.ClhtLb.Chain.size
grows = refl

pow2roundup_lem_example : (k : ℕ) × (pow2roundup 5 ≡ 2 ^ k) × (5 ≤ 2 ^ k) × (2 ^ k < 2 * 5)
pow2roundup_lem_example = pow2roundup_lem 5 (omega arith) (omega arith)

five : pow2roundup 5 ≡ 8
unfolding pow2roundup
five = refl

ht_status_lem_example : Settles garbage 3 one_bucket true false
ht_status_lem_example =
    ht_status_lem garbage 2 one_bucket one_bucket-IsTable true false
      (record { buckets = omega arith; sizes = omega (arith, size_three) }) refl refl
      (omega (arith, size_three))

absent : lookup one_bucket.ht 14 ≡ none
unfolding clht_hash find find_slot
absent = refl

clht_put-PutClht_example :
    (ok : Bool) × (h' : Clht) × (clht_put 30 garbage one_bucket 14 140 ≡ some (ok, h'))
    × PutClht one_bucket 14 140 ok h'
clht_put-PutClht_example =
    clht_put-PutClht garbage 29 one_bucket 14 140 (omega arith) one_bucket-IsClht (omega arith)
      (omega (arith, size_three)) (omega arith)

clht_remove-RemoveClht_example :
    (r : ℕ × Clht) × (clht_remove one_bucket 6 ≡ some r) × RemoveClht one_bucket 6 r
clht_remove-RemoveClht_example = clht_remove-RemoveClht one_bucket 6 one_bucket-IsClht (omega arith)

clht_put-clht_remove_example :
    (h1 : Clht) × (h2 : Clht) × (clht_put 30 garbage one_bucket 14 140 ≡ some (true, h1))
    × (clht_get h1.ht 14 ≡ 140)
    × (clht_remove h1 14 ≡ some (140, h2))
    × Restored one_bucket h2
clht_put-clht_remove_example =
    clht_put-clht_remove garbage 29 one_bucket 14 140 (omega arith) one_bucket-IsClht (omega arith)
      (omega (arith, size_three)) (omega arith) absent

clht_create-IsClht_at :
    (h : Clht) × (clht_create (2 ^ 3) ≡ some h)
    × IsClht h
    × ((q : ℕ) → q ≢ 0 → lookup h.ht q ≡ none)
    × (clht_size h.ht ≡ 0)
clht_create-IsClht_at = clht_create-IsClht 3

-- A table of less than 8 buckets that is asked to shrink.
crash : ht_resize_pes (once_more garbage 30) garbage one_bucket false 2 ≡ none
crash =
    (ht_resize_pes-shrink garbage one_bucket one_bucket-IsTable 29 2 (omega arith) refl
        (omega arith) (omega (arith, size_three))).0
      (omega arith)

abbrev eight_buckets : Clht
eight_buckets = record {
  ht = fresh_table 8 0;
  prev = [];
  released = [];
  resize_lock = 0;
  status_lock = 0;
}

ht_resize_pes-shrink_example :
    (8 < 8 → ht_resize_pes (once_more garbage 30) garbage eight_buckets false 2 ≡ none)
    × (8 ≤ 8
        → (h' : Clht) × (ht_resize_pes (once_more garbage 30) garbage eight_buckets false 2
            ≡ some (1, h'))
          × Shrunk eight_buckets h')
ht_resize_pes-shrink_example =
    ht_resize_pes-shrink garbage eight_buckets (clht_hashtable_create_lem 3 8 0 refl).1.valid 29 2
      (omega arith) refl (omega arith)
      (omega (arith, (clht_hashtable_create_lem 3 8 0 refl).1.sizes))
