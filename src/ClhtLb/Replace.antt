-- ===== src/ClhtLb/Replace.antt =====
-- OtherTables/src/clht/src/clht_lb.c: a table whose bucket at one index changes.
use lock_free_hop_scotch.Prelude.{
  ℕ, zero, suc, ◌+◌, ◌-◌, ◌^◌, ◌<◌, ◌≤◌, ◌≡◌, ◌≢◌, Option, update, update_same, update_other, u32,
  bit_and, bit_and_low, refl, sym, ap, subst, ◌∙◌, arith, ℕ_discrete,
}
use native.Mathlib.Nat.{one-le-pow}
use lock_free_hop_scotch.ClhtLb.Chain.{find, size}
use lock_free_hop_scotch.ClhtLb.Table.{Locked, Table, clht_hash, size_below}
use lock_free_hop_scotch.ClhtLb.Laws.{IsChain}

-- No lock is held, the number of buckets is a power of two, and no chain holds a key twice.
pub record IsTable (t : Table) : Type 0 where
  pub log : ℕ
  pub power : t.num_buckets ≡ 2 ^ log
  pub free : (i : ℕ) → i < t.num_buckets → (t.table i).lock ≡ 0
  pub valid : (i : ℕ) → i < t.num_buckets → IsChain (t.table i).chain

-- The value of a key.
abbrev pub lookup : Table → ℕ → Option ℕ
lookup t key = find (t.table (clht_hash t key)).chain key

-- The hash of a key is the index of a bucket.
pub clht_hash-IsIndex : (t : Table) → IsTable t → (key : ℕ) → clht_hash t key < t.num_buckets
unfolding clht_hash
clht_hash-IsIndex t valid key =
    subst (λ n. u32 (bit_and key (n - 1)) < n) (sym valid.power)
      (let low = bit_and_low valid.log key in grind (arith, low, one-le-pow valid.log 2))

-- The table with another bucket in one place.
abbrev pub replace : Table → ℕ → Locked → Table
replace t bin b = record t { table = update t.table bin b }

pub replace-hash :
    (t : Table) (bin : ℕ) (b : Locked) (q : ℕ) → clht_hash (replace t bin b) q ≡ clht_hash t q
unfolding clht_hash
replace-hash t bin b q = refl

-- A lookup in the changed bucket, and in each other.
pub lookup-same :
    (t : Table) (bin : ℕ) (b : Locked) (q : ℕ)
    → clht_hash t q ≡ bin
    → lookup (replace t bin b) q ≡ find b.chain q
lookup-same t bin b q here =
    ap (λ i. find (update t.table bin b i).chain q) (replace-hash t bin b q ∙ here)
    ∙ ap (λ l. find l.chain q) (update_same t.table bin b)

pub lookup-other :
    (t : Table) (bin : ℕ) (b : Locked) (q : ℕ)
    → clht_hash t q ≢ bin
    → lookup (replace t bin b) q ≡ lookup t q
lookup-other t bin b q there =
    ap (λ i. find (update t.table bin b i).chain q) (replace-hash t bin b q)
    ∙ ap (λ l. find l.chain q) (update_other t.table bin b there)

pub replace-IsTable :
    (t : Table) (bin : ℕ) (b : Locked)
    → IsTable t
    → b.lock ≡ 0
    → IsChain b.chain
    → IsTable (replace t bin b)
replace-IsTable t bin b v free chain = record {
  log = v.log;
  power = v.power;
  free = λ i lt. elim (ℕ_discrete i bin) [
    | yes here ↦
        ap (λ i. (update t.table bin b i).lock) here
        ∙ ap (λ l. l.lock) (update_same t.table bin b)
        ∙ free
    | no there ↦ ap (λ l. l.lock) (update_other t.table bin b there) ∙ v.free i lt
  ];
  valid = λ i lt. elim (ℕ_discrete i bin) [
    | yes here ↦
        subst (λ i. IsChain (update t.table bin b i).chain) (sym here)
          (subst (λ l. IsChain l.chain) (sym (update_same t.table bin b)) chain)
    | no there ↦
        subst (λ l. IsChain l.chain) (sym (update_other t.table bin b there)) (v.valid i lt)
  ];
}

size_above :
    (table : ℕ → Locked) (bin : ℕ) (b : Locked) (n : ℕ)
    → n ≤ bin
    → size_below (update table bin b) n ≡ size_below table n
unfolding size_below
size_above table bin b zero le = refl
size_above table bin b (suc n) le =
    let rest = size_above table bin b n (omega arith) in
    let same = update_other table bin b {j = n} (λ e. omega (arith, e, le)) in rw (rest, same) refl

pub size-replace :
    (table : ℕ → Locked) (bin : ℕ) (b : Locked) (n : ℕ)
    → bin < n
    → size_below (update table bin b) n + size (table bin).chain ≡ size_below table n + size b.chain
unfolding size_below
size-replace table bin b zero lt = absurd (omega arith)
size-replace table bin b (suc n) lt = elim (ℕ_discrete n bin) [
  | yes here ↦
      let rest = size_above table bin b n (omega (arith, here)) in
      let same : update table bin b n ≡ b =
        ap (update table bin b) here ∙ update_same table bin b in
      let at : size (table n).chain ≡ size (table bin).chain =
        ap (λ i. size (table i).chain) here in
      rw (rest, same) omega (arith, at)
  | no there ↦
      let rest = size-replace table bin b n (omega (arith, there, lt)) in
      let same = update_other table bin b {j = n} there in rw same omega (arith, rest)
]
