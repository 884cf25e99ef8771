-- ===== src/ClhtPacked/Change.antt =====
-- OtherTables/src/clht/src/clht_lb_packed.c: a table whose chain for one key changes.
use lock_free_hop_scotch.Prelude.{
  ℕ, ◌+◌, ◌-◌, ◌^◌, ◌<◌, ◌≡◌, ◌≢◌, Bool, false, ◌&&◌, length, Option, none, some, ◌==◌,
  if◌then◌else◌, u32, update, refl, sym, ap, ◌∙◌, arith,
}
use lock_free_hop_scotch.Buckets.{
  mask_lt, lookup_in, lookup-update, each-update, sum_below, sum-update,
}
use lock_free_hop_scotch.ClhtLb.Chain.{find_slot, value_or_0}
use lock_free_hop_scotch.ClhtLb.Laws.{is_none}
use lock_free_hop_scotch.ClhtPacked.Chain.{Chain, put, remove, size}
use lock_free_hop_scotch.ClhtPacked.Entries.{entries, Unique, IsPacked}
use lock_free_hop_scotch.ClhtPacked.Laws.{size_lem}
use lock_free_hop_scotch.ClhtPacked.Put.{put_lem}
use lock_free_hop_scotch.ClhtPacked.Added.{PutSays-Added}
use lock_free_hop_scotch.ClhtPacked.Removal.{remove_lem}
use lock_free_hop_scotch.ClhtPacked.Table.{Locked, Table, clht_hash, lock_acq, clht_size}

abbrev pub lookup : Table → ℕ → Option ℕ
lookup t = lookup_in (λ (b : Locked). find_slot (entries b.chain)) (clht_hash t) t.table

abbrev held : Table → ℕ
held t = sum_below (λ (b : Locked). size b.chain) t.table t.num_buckets

-- No lock is held, each chain is packed, no key is in two entries of a chain, and the number of
-- buckets is a power of two.
pub record IsTable (t : Table) : Type 0 where
  pub log : ℕ
  pub power : t.num_buckets ≡ 2 ^ log
  pub free : (i : ℕ) → i < t.num_buckets → (t.table i).lock ≡ 0
  pub packed : (i : ℕ) → i < t.num_buckets → IsPacked (t.table i).chain
  pub unique : (i : ℕ) → i < t.num_buckets → Unique (entries (t.table i).chain)

pub clht_hash-IsIndex : (t : Table) → IsTable t → (key : ℕ) → clht_hash t key < t.num_buckets
unfolding clht_hash
clht_hash-IsIndex t v key = mask_lt v.log t.num_buckets (t.num_buckets - 1) key v.power refl

abbrev pub changed : Table → ℕ → Chain → Table
changed t key c = record t {
  table = update t.table (clht_hash t key) (record { lock = 0; chain = c });
}

-- What a change of the chain of `key` does: `f` is its effect on the value of a key.
record Changed (t t' : Table) (f : ℕ → Option ℕ → Option ℕ) (c c' : Chain) : Type 0 where
  lookups : (q : ℕ) → q ≢ 0 → lookup t' q ≡ f q (lookup t q)
  valid : IsTable t'
  sizes : held t' + length (entries c) ≡ held t + length (entries c')

changed_lem :
    (t : Table) (key : ℕ) (c' : Chain) (f : ℕ → Option ℕ → Option ℕ)
    → IsTable t
    → IsPacked c'
    → Unique (entries c')
    → ((q : ℕ)
        → q ≢ 0
        → find_slot (entries c') q ≡ f q (find_slot (entries (t.table (clht_hash t key)).chain) q))
    → ((q : ℕ) (x : Option ℕ) → (q == key) ≡ false → f q x ≡ x)
    → Changed t (changed t key c') f (t.table (clht_hash t key)).chain c'
unfolding clht_hash
changed_lem t key c' f v packed unique finds others =
    let bin = clht_hash t key in
    let index = clht_hash-IsIndex t v key in
    let b : Locked = record { lock = 0; chain = c' } in
    record {
      lookups =
          lookup-update (λ (b : Locked). find_slot (entries b.chain)) (clht_hash t) t.table bin key
            b f refl finds others;
      valid = record {
        log = v.log;
        power = v.power;
        free = each-update (λ i (b : Locked). b.lock ≡ 0) t.table bin b t.num_buckets refl v.free;
        packed =
            each-update (λ i (b : Locked). IsPacked b.chain) t.table bin b t.num_buckets packed
              v.packed;
        unique =
            each-update (λ i (b : Locked). Unique (entries b.chain)) t.table bin b t.num_buckets
              unique v.unique;
      };
      sizes = omega (
        arith,
        sum-update (λ (b : Locked). size b.chain) t.table bin b t.num_buckets index,
        size_lem c' packed,
        size_lem (t.table bin).chain (v.packed bin index),
      );
    }

-- The key has the value, and each other key what it had; the size counts the key.
pub record PutTable (t : Table) (key val : ℕ) (r : Bool × Table) : Type 0 where
  pub result : r.0 ≡ is_none (lookup t key)
  pub lookups : (q : ℕ) → q ≢ 0 → lookup r.1 q ≡ (if q == key && r.0 then some val else lookup t q)
  pub valid : IsTable r.1
  pub sizes : clht_size r.1 ≡ u32 (clht_size t + (if r.0 then 1 else 0))

pub record RemoveTable (t : Table) (key : ℕ) (r : ℕ × Table) : Type 0 where
  pub result : r.0 ≡ value_or_0 (lookup t key)
  pub lookups : (q : ℕ) → q ≢ 0 → lookup r.1 q ≡ (if q == key then none else lookup t q)
  pub valid : IsTable r.1
  pub sizes : clht_size t ≡ u32 (clht_size r.1 + (if is_none (lookup t key) then 0 else 1))

-- The lock of a bucket is free, and is taken.
pub acquired : (b : Locked) → b.lock ≡ 0 → lock_acq b ≡ some (record b { lock = 0xff })
unfolding lock_acq
acquired b free = rw free refl

word_add : (m n d e : ℕ) → m + d ≡ n + (d + e) → u32 m ≡ u32 (u32 n + e)
word_add m n d e h = omega (arith, h)

-- The chain of the key is put back after `clht_put`.
pub put_in_lem :
    (before : ℕ → ℕ) (t : Table) (key val : ℕ)
    → IsTable t
    → PutTable t key val
        (let r = put before (t.table (clht_hash t key)).chain key val in (r.0, changed t key r.1))
unfolding clht_size
put_in_lem before t key val v =
    let bin = clht_hash t key in
    let index = clht_hash-IsIndex t v key in
    let c = (t.table bin).chain in
    let r = put before c key val in
    let says = put_lem before key val c (v.packed bin index) in
    let a = PutSays-Added before c key val r (v.unique bin index) says in
    let ch =
      changed_lem t key r.1 (λ q x. if q == key && r.0 then some val else x) v says.valid a.unique
        (λ q nz. a.finds q) (λ q x other. ap (λ b. if b && r.0 then some val else x) other) in
    record {
      result = says.result;
      lookups = ch.lookups;
      valid = ch.valid;
      sizes =
          word_add (held (changed t key r.1)) (held t) (length (entries c)) (if r.0 then 1 else 0)
            (ch.sizes ∙ ap (λ n. held t + n) a.counts);
    }

pub remove_in_lem :
    (t : Table) (key : ℕ)
    → IsTable t
    → RemoveTable t key
        (let r = remove (t.table (clht_hash t key)).chain key in (r.0, changed t key r.1))
unfolding clht_size
remove_in_lem t key v =
    let bin = clht_hash t key in
    let index = clht_hash-IsIndex t v key in
    let c = (t.table bin).chain in
    let r = remove c key in
    let says = remove_lem c key (v.packed bin index) (v.unique bin index) in
    let ch =
      changed_lem t key r.1 (λ q x. if q == key then none else x) v says.valid says.unique
        (λ q nz. says.finds q) (λ q x other. ap (λ b. if b then none else x) other) in
    record {
      result = says.result;
      lookups = ch.lookups;
      valid = ch.valid;
      sizes =
          word_add (held t) (held (changed t key r.1)) (length (entries r.1))
            (if is_none (lookup t key) then 0 else 1)
            (sym ch.sizes ∙ ap (λ n. held (changed t key r.1) + n) says.counts);
    }
