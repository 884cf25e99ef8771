-- ===== src/ClhtLb/Create.antt =====
-- OtherTables/src/clht/src/clht_lb.c: a new table.
use lock_free_hop_scotch.Prelude.{
  ℕ, zero, suc, ◌^◌, ◌≤◌, ◌≡◌, ◌≢◌, false, [], ◌∷◌, none, some, ◌==◌, if◌then◌else◌, refl, ap,
  arith,
}
use native.Mathlib.Nat.{one-le-pow}
use lock_free_hop_scotch.ClhtLb.Chain.{Chain, last, find, find_slot, size, count, slots}
use lock_free_hop_scotch.ClhtLb.Table.{Locked, Table, clht_hashtable_create, size_below, clht_size}
use lock_free_hop_scotch.ClhtLb.Replace.{IsTable, lookup}
use lock_free_hop_scotch.ClhtLb.Laws.{IsChain}

pub nonzero : (n : ℕ) → 1 ≤ n → (n == 0) ≡ false
nonzero n le = ground arith

-- The first bucket of each chain of a new table.
abbrev pub zeros : Chain
zeros =
    last
      (record { key = 0; val = 0 } ∷ record { key = 0; val = 0 } ∷ record { key = 0; val = 0 } ∷ [])

pub zeros-IsChain : IsChain zeros
unfolding slots
zeros-IsChain = (λ h. absurd (h refl), ((λ h. absurd (h refl)), ((λ h. absurd (h refl)), tt)))

pub zeros-find : (q : ℕ) → q ≢ 0 → find zeros q ≡ none
unfolding find find_slot
zeros-find q qz = ground (arith, qz)

pub size-zeros : size zeros ≡ 0
unfolding size count
size-zeros = refl

zeros-size : (n : ℕ) → size_below (λ i. record { lock = 0; chain = zeros }) n ≡ 0
unfolding size_below size count
zeros-size zero = refl
zeros-size (suc n) = rw (zeros-size n) refl

-- A new table with a power of two of buckets is a table, no key but 0 is in it, and its size is 0.
pub clht_hashtable_create_lem :
    (log : ℕ)
    → (t : Table) × (clht_hashtable_create (2 ^ log) ≡ some t)
      × IsTable t
      × ((q : ℕ) → q ≢ 0 → lookup t q ≡ none)
      × (clht_size t ≡ 0)
unfolding clht_hashtable_create clht_size
clht_hashtable_create_lem log =
    let one = one-le-pow log 2 (omega arith) in
    let empty : ℕ → Locked = λ i. record {
      lock = 0;
      chain = last (
          record { key = 0; val = 0 }
          ∷ record { key = 0; val = 0 }
          ∷ record { key = 0; val = 0 }
          ∷ []);
    } in
    let t : Table = record { num_buckets = 2 ^ log; table = empty } in
    (
      t,
      ap (λ b. if b then none else some t) (nonzero (2 ^ log) one),
      record { log = log; power = refl; free = λ i lt. refl; valid = λ i lt. zeros-IsChain },
      λ q qz. zeros-find q qz,
      zeros-size (2 ^ log),
    )
