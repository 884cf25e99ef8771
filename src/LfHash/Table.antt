-- ===== src/LfHash/Table.antt =====
-- OurTable/src/LFHash.h: the state of an `LFHash`, its constructor, the atomic operations on one
-- slot, and `contains`. The code of one thread, with no other thread between its accesses.
pub mod Contains
use lock_free_hop_scotch.Prelude.{
  ℕ, zero, suc, ◌+◌, ◌%◌, ◌^◌, ◌-◌, Bool, true, false, ◌||◌, List, [], ◌∷◌, any, ltb, ◌==◌,
  if◌then◌else◌, update, u64, u32,
}
use lock_free_hop_scotch.Prelude.{◌≡◌, ◌≢◌, refl, inl, inr, ==_iff, Bool-cases}
use lock_free_hop_scotch.LfHash.Hash.{home, total_buckets}
use lock_free_hop_scotch.LfHash.Entry.{get_key, with_tag}

-- `HOP`, the value of the member `H`
abbrev pub hop : ℕ
hop = 16

abbrev pub add_range : ℕ
add_range = 256

-- `slots i` is the word at `Buckets + i`. The array has `total_buckets` words; the code also
-- reads and writes the words that follow it, and those are words of `slots` too.
pub record Table : Type 0 where
  pub slots : ℕ → ℕ
  pub time_stamp : ℕ
  pub seed : ℕ

-- The constructor: `before` is the memory at `Buckets`, `random` the result of `rand()`.
unfoldable pub new_table : (ℕ → ℕ) → ℕ → Table
new_table before random = record {
  slots = λ i. if ltb i (total_buckets + hop) then 0 else before i;
  time_stamp = 0;
  seed = u32 (random % (2 ^ 63 - 1) + 1);
}

-- `TimeStamp()`: the counter is an `unsigned long`, the result an `unsigned int`.
unfoldable pub next_stamp : Table → ℕ × Table
next_stamp t = (u32 t.time_stamp, record t { time_stamp = u64 (t.time_stamp + 1) })

-- The outcome of a compare-and-exchange: whether it wrote, the array, and `expected` afterwards.
pub record Exchange : Type 0 where
  pub won : Bool
  pub after : ℕ → ℕ
  pub seen : ℕ

unfoldable pub compare_exchange : (ℕ → ℕ) → ℕ → ℕ → ℕ → Exchange
compare_exchange slots i expected desired =
    if slots i == expected
    then record { won = true; after = update slots i desired; seen = expected }
    else record { won = false; after = slots; seen = slots i }

pub exchange_won :
    (slots : ℕ → ℕ) (i expected desired : ℕ)
    → slots i ≡ expected
    → compare_exchange slots i expected desired
      ≡ record { won = true; after = update slots i desired; seen = expected }
unfolding compare_exchange
exchange_won slots i expected desired h = rw ((==_iff _ _).1 h)

pub exchange_lost :
    (slots : ℕ → ℕ) (i expected desired : ℕ)
    → slots i ≢ expected
    → compare_exchange slots i expected desired
      ≡ record { won = false; after = slots; seen = slots i }
unfolding compare_exchange
exchange_lost slots i expected desired h = elim (Bool-cases (slots i == expected)) [
  | inl e ↦ absurd (h ((==_iff _ _).0 e))
  | inr n ↦ rw n
]

-- The home of the key in a slot.
unfoldable pub get_bucket : ℕ → (ℕ → ℕ) → ℕ → ℕ
get_bucket seed slots index = home seed (get_key (slots index))

-- `e == _KeyEntry1 || e == _KeyEntry2`
unfoldable pub is_entry_of : ℕ → ℕ → Bool
is_entry_of key e = key == e || e == with_tag 1 key

-- The loop that fills the bitset `cxx`: `n` slots from slot `i` on.
unfoldable pub marks : (ℕ → ℕ) → ℕ → ℕ → ℕ → List Bool
marks slots key zero i = []
marks slots key (suc n) i = is_entry_of key (slots i) ∷ marks slots key n (i + 1)

unfoldable pub contains : Table → ℕ → Bool
contains t key = any (marks t.slots key (hop + 1) (home t.seed key))
