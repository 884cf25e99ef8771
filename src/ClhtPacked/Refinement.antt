-- ===== src/ClhtPacked/Refinement.antt =====
-- OtherTables/src/clht/src/clht_lb_packed.c: the table as a map from keys to values.
use lock_free_hop_scotch.Prelude.{
  ℕ, zero, suc, ◌+◌, ◌^◌, ◌≡◌, ◌≢◌, Bool, false, not, Option, none, some, ◌==◌, ==_iff, Bool-cases,
  inl, inr, if◌then◌else◌, u32, refl, sym, ap, ◌∙◌, arith,
}
use lock_free_hop_scotch.Prelude.Options.{◌>>=◌}
use native.Mathlib.Nat.{one-le-pow}
use lock_free_hop_scotch.Buckets.{sum_below}
use lock_free_hop_scotch.ClhtLb.Chain.{value_or_0, find_slot}
use lock_free_hop_scotch.ClhtLb.Create.{nonzero}
use lock_free_hop_scotch.ClhtLb.Laws.{is_none-eq-false, none_of}
use lock_free_hop_scotch.ClhtPacked.Chain.{single, bucket_exists, put, remove, get, size}
use lock_free_hop_scotch.ClhtPacked.Laws.{bucket_exists_lem, search_lem}
use lock_free_hop_scotch.ClhtPacked.Table.{
  Locked, Table, empty_bucket, clht_hashtable_create, clht_hash, lock_acq, clht_get, clht_put,
  clht_remove, clht_size,
}
use lock_free_hop_scotch.ClhtPacked.Change.{
  lookup, IsTable, clht_hash-IsIndex, changed, PutTable, RemoveTable, acquired, put_in_lem,
  remove_in_lem,
}

size-word : (t : Table) → clht_size t ≡ u32 (clht_size t + 0)
unfolding clht_size
size-word t = omega arith

-- In a packed table, `clht_put` ends and has released its lock, and the table is packed. It returns
-- true if and only if the key was absent; then the key has the new value. Each other key than 0
-- keeps its value; `clht_size`, as a 32-bit number, grows by one if the key is new.
pub clht_put-PutTable :
    (before : ℕ → ℕ) (t : Table) (key val : ℕ)
    → IsTable t
    → (r : Bool × Table) × (clht_put before t key val ≡ some r) × PutTable t key val r
unfolding clht_put
clht_put-PutTable before t key val v =
    let bin = clht_hash t key in
    let index = clht_hash-IsIndex t v key in
    let c = (t.table bin).chain in
    let found = bucket_exists_lem c key (v.packed bin index) in
    let locked : Option Locked → Option (Bool × Table) = λ o. o >>= λ b.
    some ((put before b.chain key val).0, changed t key (put before b.chain key val).1) in
    elim (Bool-cases (bucket_exists c key)) [
      | inl there ↦ (
        (false, t),
        ap (λ b. if b then some (false, t) else locked (lock_acq (t.table bin))) there,
        put_there t key val v (λ e. absurd (cc (sym there ∙ found))),
      )
      | inr other ↦ (
        ((put before c key val).0, changed t key (put before c key val).1),
        ap (λ b. if b then some (false, t) else locked (lock_acq (t.table bin))) other
            ∙ ap locked (acquired (t.table bin) (v.free bin index)),
        put_in_lem before t key val v,
      )
    ]
  where
    put_there :
        (t : Table) (key val : ℕ) → IsTable t → lookup t key ≢ none → PutTable t key val (false, t)
    put_there t key val v present = record {
      result = is_none-eq-false (lookup t key) present;
      lookups = λ q qz. elim (Bool-cases (q == key)) [
        | inl here ↦ rw here refl
        | inr other ↦ rw other refl
      ];
      valid = v;
      sizes = size-word t;
    }

-- In a packed table, `clht_remove` ends and has released its lock, and the table is packed. It
-- returns the value of the key, or 0 if the key was absent; then the key is absent if it is not 0,
-- and each other key than 0 has the value that it had; `clht_size`, as a 32-bit number, falls by
-- one if the key was there.
pub clht_remove-RemoveTable :
    (t : Table) (key : ℕ)
    → IsTable t
    → (r : ℕ × Table) × (clht_remove t key ≡ some r) × RemoveTable t key r
unfolding clht_remove
clht_remove-RemoveTable t key v =
    let bin = clht_hash t key in
    let index = clht_hash-IsIndex t v key in
    let c = (t.table bin).chain in
    let found = bucket_exists_lem c key (v.packed bin index) in
    let locked : Option Locked → Option (ℕ × Table) =
      λ o. o >>= λ b. some ((remove b.chain key).0, changed t key (remove b.chain key).1) in
    elim (Bool-cases (bucket_exists c key)) [
      | inl there ↦ (
        ((remove c key).0, changed t key (remove c key).1),
        ap (λ b. if not b then some (0, t) else locked (lock_acq (t.table bin))) there
            ∙ ap locked (acquired (t.table bin) (v.free bin index)),
        remove_in_lem t key v,
      )
      | inr other ↦ (
        (0, t),
        ap (λ b. if not b then some (0, t) else locked (lock_acq (t.table bin))) other,
        remove_absent t key v (none_of (lookup t key) (sym other ∙ found)),
      )
    ]
  where
    remove_absent :
        (t : Table) (key : ℕ) → IsTable t → lookup t key ≡ none → RemoveTable t key (0, t)
    remove_absent t key v absent = record {
      result = ap value_or_0 (sym absent);
      lookups = λ q qz. elim (Bool-cases (q == key)) [
        | inl here ↦ rw here (ap (lookup t) ((==_iff q key).0 here) ∙ absent)
        | inr other ↦ rw other refl
      ];
      valid = v;
      sizes = rw absent (size-word t);
    }

-- In a packed table, the search of `clht_get`, from the end of each bucket and only as far as the
-- first bucket that is not full, returns the value of the key, or 0.
pub clht_get-lookup : (t : Table) (key : ℕ) → IsTable t → clht_get t key ≡ value_or_0 (lookup t key)
unfolding clht_get get
clht_get-lookup t key v =
    let index = clht_hash-IsIndex t v key in
    ap value_or_0 (
      search_lem (t.table (clht_hash t key)).chain key (v.packed (clht_hash t key) index)
        (v.unique (clht_hash t key) index))

sum-empty :
    (n : ℕ)
    → sum_below
        (λ (b : Locked). size b.chain)
        (λ i. record { lock = 0; chain = single empty_bucket })
        n
      ≡ 0
unfolding sum_below size
sum-empty zero = refl
sum-empty (suc n) = rw (sum-empty n) refl

-- A new table with a power of two of buckets is packed, no key is in it, and its size is 0.
pub clht_hashtable_create-IsTable :
    (log : ℕ)
    → (t : Table) × (clht_hashtable_create (2 ^ log) ≡ some t)
      × IsTable t
      × ((q : ℕ) → lookup t q ≡ none)
      × (clht_size t ≡ 0)
unfolding clht_hashtable_create clht_size find_slot
clht_hashtable_create-IsTable log =
    let t : Table = record {
      num_buckets = 2 ^ log;
      table = λ i. record { lock = 0; chain = single empty_bucket };
    } in
    (
      t,
      ap (λ b. if b then none else some t) (nonzero (2 ^ log) (one-le-pow log 2 (omega arith))),
      record {
        log = log;
        power = refl;
        free = λ i lt. refl;
        packed = λ i lt. record { three = refl; room = omega arith };
        unique = λ i lt. tt;
      },
      λ q. refl,
      ap u32 (sum-empty (2 ^ log)),
    )
