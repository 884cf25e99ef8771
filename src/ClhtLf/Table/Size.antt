-- ===== src/ClhtLf/Table/Size.antt =====
-- OtherTables/src/clht/src/clht_lf.c: `clht_size` against the entries put in and taken out.
use lock_free_hop_scotch.Prelude.{
  ℕ, zero, suc, ◌+◌, ◌-◌, ◌^◌, ◌<◌, ◌≡◌, ◌≢◌, arith, refl, sym, ap, subst, update, update_same,
  update_other, bit_and-le,
}
use lock_free_hop_scotch.ClhtLf.Bucket.{Bucket}
use lock_free_hop_scotch.ClhtLf.Worker.{Values}
use lock_free_hop_scotch.ClhtLf.Table.{
  Table, total, bucket_size, zero_table, zero_bucket, clht_hash, clht_hashtable_create, clht_size,
}
use lock_free_hop_scotch.ClhtLf.Table.Threads.{
  key_at, Threads, store, enter, act, label_of, TableReach, start, later,
}
use lock_free_hop_scotch.ClhtLf.Table.Bins.{clht_hashtable_create-zero}
use lock_free_hop_scotch.ClhtLf.Table.Keys.{TableReach-Homed}
use lock_free_hop_scotch.ClhtLf.Table.Refinement.{bin-Local}
use lock_free_hop_scotch.ClhtLf.Table.Count.{puts_of, removes_of, total_change, Move-count}

-- How many entries of keys other than 0 the steps have put in, and taken out.
abbrev pub puts_in : {P : Values} {n size c : ℕ} {s : Threads} → TableReach P n size c s → ℕ
puts_in (start z made quiet) = 0
puts_in (later r st e) = puts_in r + puts_of (label_of st)

abbrev pub removes_in : {P : Values} {n size c : ℕ} {s : Threads} → TableReach P n size c s → ℕ
removes_in (start z made quiet) = 0
removes_in (later r st e) = removes_in r + removes_of (label_of st)

-- The steps leave the size of the array and the mask alone.
record Shape (size : ℕ) (t : Table) : Type 0 where
  some_buckets : size ≢ 0
  num_buckets : t.num_buckets ≡ size
  hash : t.hash ≡ size - 1

TableReach-Shape :
    {P : Values} {n size c : ℕ} {s : Threads} → TableReach P n size c s → Shape size s.ht
unfolding clht_hashtable_create
TableReach-Shape {n} {size} (start z made quiet) =
    let zeroed = clht_hashtable_create-zero size made in
    record {
      some_buckets = λ none_there. absurd (ground (arith, none_there, made));
      num_buckets = sym (ap (λ t. t.num_buckets) zeroed);
      hash = sym (ap (λ t. t.hash) zeroed);
    }
TableReach-Shape (later r (enter t lt quiet at mv) e) = TableReach-Shape r
TableReach-Shape (later r (act t lt busy mv) e) =
    let shape = TableReach-Shape r in
    record { some_buckets = shape.some_buckets; num_buckets = shape.num_buckets; hash = shape.hash }

clht_hash-lt : {size : ℕ} (t : Table) (key : ℕ) → Shape size t → clht_hash t key < size
unfolding clht_hash
clht_hash-lt {size} t key shape =
    omega (arith, bit_and-le key t.hash, shape.hash, shape.some_buckets)

zero_size : (n : ℕ) → total (λ bin. bucket_size zero_bucket) n ≡ 0
unfolding total
zero_size zero = refl
zero_size (suc n) = omega (arith, zero_size n)

clht_size-zero_table : (n : ℕ) → clht_size (zero_table n) ≡ 0
unfolding clht_size
clht_size-zero_table n = zero_size n

clht_size-store :
    (t : Table) (bin : ℕ) (m : Bucket)
    → bin < t.num_buckets
    → clht_size (store t bin m) + bucket_size (t.table bin) ≡ clht_size t + bucket_size m
unfolding clht_size
clht_size-store t bin m lt =
    let change =
      total_change (λ i. bucket_size (t.table i)) (λ i. bucket_size (update t.table bin m i))
        t.num_buckets bin lt (λ j low ne. ap bucket_size (update_other t.table bin m ne)) in
    let same = ap bucket_size (update_same t.table bin m) in omega (arith, change, same)

-- On a new table, in every state that any number of threads reach with fewer than 2 ^ 32 entries
-- put in, `clht_size` counts the entries of keys other than 0 that the calls of `clht_put` have put
-- in, less those that the calls of `clht_remove` have taken out.
pub TableReach-clht_size :
    {P : Values} {n size c : ℕ} {s : Threads} (r : TableReach P n size c s)
    → c < 2 ^ 32
    → clht_size s.ht + removes_in r ≡ puts_in r
TableReach-clht_size {n} {size} {c} {s} (start z made quiet) small = omega (
  arith,
  subst (λ t. clht_size t ≡ 0) (clht_hashtable_create-zero size made) (clht_size-zero_table size),
)
TableReach-clht_size (later r (enter t lt quiet at mv) e) small =
    omega (arith, TableReach-clht_size r (omega (arith, e, small)))
TableReach-clht_size (later {s} r (act t {p} {m} lt busy mv) e) small =
    let shape = TableReach-Shape r in
    let home = TableReach-Homed r t busy in
    let inside = clht_hash-lt s.ht (key_at (s.pc t)) shape in
    omega (
      arith,
      TableReach-clht_size r (omega (arith, e, small)),
      clht_size-store s.ht (s.bin t) m (omega (arith, home, inside, shape.num_buckets)),
      Move-count mv (bin-Local r t (omega (arith, e, small))),
    )
