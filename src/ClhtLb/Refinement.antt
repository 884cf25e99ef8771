-- ===== src/ClhtLb/Refinement.antt =====
-- OtherTables/src/clht/src/clht_lb.c: the table as a map from keys to values.
use lock_free_hop_scotch.Prelude.{
  ℕ, ◌+◌, ◌≡◌, ◌≢◌, Bool, false, ◌&&◌, none, some, ◌==◌, if◌then◌else◌, refl, sym, ap, ◌∙◌, arith,
  ℕ_discrete, Bool-cases, not, ==_iff, inl, inr,
}
use lock_free_hop_scotch.ClhtLb.Chain.{bucket_exists, find, put, remove, value_or_0}
use lock_free_hop_scotch.ClhtLb.Table.{
  Locked, Table, clht_hash, lock_acq, put_locked, clht_put, remove_locked, clht_remove, clht_size,
}
use lock_free_hop_scotch.ClhtLb.Replace.{
  IsTable, lookup, clht_hash-IsIndex, replace, lookup-same, lookup-other, replace-IsTable,
  size-replace,
}
use lock_free_hop_scotch.ClhtLb.Laws.{
  bucket_exists_lem, is_none-eq-false, none_of, is_none, put_lem, remove_lem,
}

-- Keys of different buckets differ.
other_key : (t : Table) (q key : ℕ) → clht_hash t q ≢ clht_hash t key → (q == key) ≡ false
other_key t q key other = elim (Bool-cases (q == key)) [
  | inl same ↦ absurd (other (ap (clht_hash t) ((==_iff q key).0 same)))
  | inr differ ↦ differ
]

-- The lock of a bucket is free, and is taken.
pub acquired : (b : Locked) → b.lock ≡ 0 → lock_acq b ≡ some (record b { lock = 1 })
unfolding lock_acq
acquired b free = rw free refl

-- The key has the value, and each other key what it had; the size counts the key.
pub record PutTable (t : Table) (key val : ℕ) (r : Bool × Table) : Type 0 where
  pub result : r.0 ≡ is_none (lookup t key)
  pub lookups : (q : ℕ) → q ≢ 0 → lookup r.1 q ≡ (if q == key && r.0 then some val else lookup t q)
  pub valid : IsTable r.1
  pub counts : clht_size r.1 ≡ clht_size t + (if r.0 then 1 else 0)

pub record RemoveTable (t : Table) (key : ℕ) (r : ℕ × Table) : Type 0 where
  pub result : r.0 ≡ value_or_0 (lookup t key)
  pub lookups : (q : ℕ) → q ≢ 0 → lookup r.1 q ≡ (if q == key then none else lookup t q)
  pub valid : IsTable r.1
  pub counts : clht_size t ≡ clht_size r.1 + (if is_none (lookup t key) then 0 else 1)

-- `clht_put` when the search without the lock has not found the key.
pub put_locked_lem :
    (before : ℕ → ℕ) (t : Table) (key val : ℕ)
    → IsTable t
    → key ≢ 0
    → (r : Bool × Table) × (put_locked before t
          (clht_hash t key)
          key
          val
          (lock_acq (t.table (clht_hash t key)))
        ≡ some r)
      × PutTable t key val r
unfolding clht_size
put_locked_lem before t key val v nz =
    let bin = clht_hash t key in
    let index = clht_hash-IsIndex t v key in
    let b = t.table bin in
    let r = put before b.chain key val in
    let says = put_lem before key val nz b.chain (v.valid bin index) in
    let b' : Locked = record { lock = 0; chain = r.1 } in
    (
      (r.0, replace t bin b'),
      ap (put_locked before t bin key val) (acquired b (v.free bin index)),
      record {
        result = says.result;
        lookups = λ q qz. elim (ℕ_discrete (clht_hash t q) bin) [
          | yes same ↦
              lookup-same t bin b' q same
              ∙ says.finds q qz
              ∙ ap (λ i. if q == key && r.0 then some val else find (t.table i).chain q) (sym same)
          | no other ↦
              lookup-other t bin b' q other
              ∙ sym (ap (λ e. if e && r.0 then some val else lookup t q) (other_key t q key other))
        ];
        valid = replace-IsTable t bin b' v refl says.valid;
        counts = omega (arith, size-replace t.table bin b' t.num_buckets index, says.count);
      },
    )

-- The key is there, and nothing changes.
put_there :
    (t : Table) (key val : ℕ) → IsTable t → lookup t key ≢ none → PutTable t key val (false, t)
put_there t key val v present = record {
  result = is_none-eq-false (lookup t key) present;
  lookups =
      λ q qz. elim (Bool-cases (q == key)) [ inl here ↦ rw here refl | inr other ↦ rw other refl ];
  valid = v;
  counts = omega arith;
}

-- In a table, with a key other than 0, `clht_put` ends and has released its lock. It returns true
-- if and only if the key was absent; then the key has the new value. Each other key keeps its
-- value, and so does the key if it was there; `clht_size` grows by one if the key is new.
pub clht_put_lem :
    (before : ℕ → ℕ) (t : Table) (key val : ℕ)
    → IsTable t
    → key ≢ 0
    → (r : Bool × Table) × (clht_put before t key val ≡ some r) × PutTable t key val r
unfolding clht_put
clht_put_lem before t key val v nz =
    let bin = clht_hash t key in
    let locked = put_locked before t bin key val (lock_acq (t.table bin)) in
    let found = bucket_exists_lem (t.table bin).chain key in
    elim (Bool-cases (bucket_exists (t.table bin).chain key)) [
      | inl there ↦ (
        (false, t),
        ap (λ b. if b then some (false, t) else locked) there,
        put_there t key val v (λ e. absurd (cc (sym there ∙ found))),
      )
      | inr other ↦
          let (r, runs, says) = put_locked_lem before t key val v nz in
          (r, ap (λ b. if b then some (false, t) else locked) other ∙ runs, says)
    ]

-- `clht_remove` when the search without the lock has found the key.
remove_locked_lem :
    (t : Table) (key : ℕ)
    → IsTable t
    → key ≢ 0
    → (r : ℕ × Table) × (remove_locked t
          (clht_hash t key)
          key
          (lock_acq (t.table (clht_hash t key)))
        ≡ some r)
      × RemoveTable t key r
unfolding clht_size
remove_locked_lem t key v nz =
    let bin = clht_hash t key in
    let index = clht_hash-IsIndex t v key in
    let b = t.table bin in
    let r = remove b.chain key in
    let says = remove_lem b.chain key nz (v.valid bin index) in
    let b' : Locked = record { lock = 0; chain = r.1 } in
    (
      (r.0, replace t bin b'),
      ap (remove_locked t bin key) (acquired b (v.free bin index)),
      record {
        result = says.result;
        lookups = λ q qz. elim (ℕ_discrete (clht_hash t q) bin) [
          | yes same ↦
              lookup-same t bin b' q same
              ∙ says.finds q qz
              ∙ ap (λ i. if q == key then none else find (t.table i).chain q) (sym same)
          | no other ↦
              lookup-other t bin b' q other
              ∙ sym (ap (λ e. if e then none else lookup t q) (other_key t q key other))
        ];
        valid = replace-IsTable t bin b' v refl says.valid;
        counts = omega (arith, size-replace t.table bin b' t.num_buckets index, says.count);
      },
    )

-- The key is not there, and nothing changes.
remove_absent : (t : Table) (key : ℕ) → IsTable t → lookup t key ≡ none → RemoveTable t key (0, t)
remove_absent t key v absent = record {
  result = ap value_or_0 (sym absent);
  lookups = λ q qz. elim (Bool-cases (q == key)) [
    | inl here ↦ rw here (ap (lookup t) ((==_iff q key).0 here) ∙ absent)
    | inr other ↦ rw other refl
  ];
  valid = v;
  counts = rw absent omega arith;
}

-- In a table, with a key other than 0, `clht_remove` ends and has released its lock. It returns the
-- value of the key, or 0 if the key was absent; then the key is absent, and each other key has the
-- value that it had; `clht_size` falls by one if the key was there.
pub clht_remove_lem :
    (t : Table) (key : ℕ)
    → IsTable t
    → key ≢ 0
    → (r : ℕ × Table) × (clht_remove t key ≡ some r) × RemoveTable t key r
unfolding clht_remove
clht_remove_lem t key v nz =
    let bin = clht_hash t key in
    let locked = remove_locked t bin key (lock_acq (t.table bin)) in
    let found = bucket_exists_lem (t.table bin).chain key in
    elim (Bool-cases (bucket_exists (t.table bin).chain key)) [
      | inl there ↦
          let (r, runs, says) = remove_locked_lem t key v nz in
          (r, ap (λ b. if not b then some (0, t) else locked) there ∙ runs, says)
      | inr other ↦ (
        (0, t),
        ap (λ b. if not b then some (0, t) else locked) other,
        remove_absent t key v (none_of (lookup t key) (sym other ∙ found)),
      )
    ]
