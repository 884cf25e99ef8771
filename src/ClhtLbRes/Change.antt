-- ===== src/ClhtLbRes/Change.antt =====
-- OtherTables/src/clht/src/clht_lb_res.c: a table whose chain for one key changes.
use lock_free_hop_scotch.Prelude.{
  ℕ, ◌+◌, ◌-◌, ◌^◌, ◌<◌, ◌≡◌, ◌≢◌, false, Option, none, ◌==◌, ==_iff, Bool-cases, inl, inr, update,
  refl, ap, ◌∙◌,
}
use lock_free_hop_scotch.Buckets.{mask_lt, lookup_in, lookup-update, each-update, sum-update}
use lock_free_hop_scotch.ClhtLb.Chain.{Chain, find, size}
use lock_free_hop_scotch.ClhtLb.Table.{Locked}
use lock_free_hop_scotch.ClhtLb.Laws.{IsChain}
use lock_free_hop_scotch.ClhtLbRes.Table.{Table, clht_hash, clht_size, lock_free}

-- The value of a key.
abbrev pub lookup : Table → ℕ → Option ℕ
lookup t = lookup_in (λ (b : Locked). find b.chain) (clht_hash t) t.table

-- No lock is held; a key is once in a chain at most, and in its own chain only; the number of
-- buckets is a power of two, and so many new buckets make the table grow.
pub record IsTable (t : Table) : Type 0 where
  pub log : ℕ
  pub power : t.num_buckets ≡ 2 ^ log
  pub mask : t.hash ≡ t.num_buckets - 1
  pub threshold : t.num_expands_threshold ≡ t.num_buckets
  pub free : (i : ℕ) → i < t.num_buckets → (t.table i).lock ≡ lock_free
  pub valid : (i : ℕ) → i < t.num_buckets → IsChain (t.table i).chain
  pub placed :
      (i : ℕ)
      → i < t.num_buckets
      → (q : ℕ) → q ≢ 0
      → find (t.table i).chain q ≢ none
      → clht_hash t q ≡ i

-- The hash of a key is the index of a bucket.
pub clht_hash-IsIndex : (t : Table) → IsTable t → (key : ℕ) → clht_hash t key < t.num_buckets
unfolding clht_hash
clht_hash-IsIndex t v key = mask_lt v.log t.num_buckets t.hash key v.power v.mask

-- The table with another chain in one place, and another count of new buckets.
abbrev pub changed : Table → ℕ → ℕ → Chain → Table
changed t n bin c = record t {
  num_expands = n;
  table = update t.table bin (record { lock = lock_free; chain = c });
}

pub changed-hash :
    (t : Table) (n bin : ℕ) (c : Chain) (q : ℕ) → clht_hash (changed t n bin c) q ≡ clht_hash t q
unfolding clht_hash
changed-hash t n bin c q = refl

-- What a change of the chain of `key` does: `f` is its effect on the value of a key.
pub record Changed (t t' : Table) (f : ℕ → Option ℕ → Option ℕ) (c c' : Chain) : Type 0 where
  pub lookups : (q : ℕ) → q ≢ 0 → lookup t' q ≡ f q (lookup t q)
  pub valid : IsTable t'
  pub sizes : clht_size t' + size c ≡ clht_size t + size c'
  pub buckets : t'.num_buckets ≡ t.num_buckets

module _ (t : Table) (key n : ℕ) (c' : Chain) (f : ℕ → Option ℕ → Option ℕ) (v : IsTable t)
    (distinct : IsChain c')
    (finds : (q : ℕ) → q ≢ 0 → find c' q ≡ f q (find (t.table (clht_hash t key)).chain q))
    (others : (q : ℕ) (x : Option ℕ) → (q == key) ≡ false → f q x ≡ x) where
  still_placed :
      (q : ℕ)
      → q ≢ 0
      → find c' q ≢ none
      → clht_hash (changed t n (clht_hash t key) c') q ≡ clht_hash t key
  still_placed q nz there = changed-hash t n (clht_hash t key) c' q ∙ elim (Bool-cases (q == key)) [
    | inl same ↦ ap (clht_hash t) ((==_iff q key).0 same)
    | inr other ↦
        v.placed (clht_hash t key) (clht_hash-IsIndex t v key) q nz
          (λ e. there (finds q nz ∙ others q (find (t.table (clht_hash t key)).chain q) other ∙ e))
  ]

  pub changed_lem :
      Changed t (changed t n (clht_hash t key) c') f (t.table (clht_hash t key)).chain c'
  unfolding clht_size
  changed_lem =
      let bin = clht_hash t key in
      let index = clht_hash-IsIndex t v key in
      let b : Locked = record { lock = lock_free; chain = c' } in
      let t' = changed t n bin c' in
      record {
        lookups = λ q nz.
            ap (λ i. find (t'.table i).chain q) (changed-hash t n bin c' q)
            ∙ lookup-update (λ (b : Locked). find b.chain) (clht_hash t) t.table bin key b f refl
                finds others q nz;
        valid = record {
          log = v.log;
          power = v.power;
          mask = v.mask;
          threshold = v.threshold;
          free =
              each-update (λ i (b : Locked). b.lock ≡ lock_free) t.table bin b t.num_buckets refl
                v.free;
          valid =
              each-update (λ i (b : Locked). IsChain b.chain) t.table bin b t.num_buckets distinct
                v.valid;
          placed =
              each-update
                (λ i (b : Locked). (q : ℕ) → q ≢ 0 → find b.chain q ≢ none → clht_hash t' q ≡ i)
                t.table bin b t.num_buckets still_placed
                (λ i lt q nz there. changed-hash t n bin c' q ∙ v.placed i lt q nz there);
        };
        sizes = sum-update (λ (b : Locked). size b.chain) t.table bin b t.num_buckets index;
        buckets = refl;
      }
