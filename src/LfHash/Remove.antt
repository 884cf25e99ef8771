-- ===== src/LfHash/Remove.antt =====
-- OurTable/src/LFHash.h: `Remove`.
pub mod Laws
pub mod Effect
use lock_free_hop_scotch.Prelude.{
  ℕ, zero, suc, ◌+◌, ◌-◌, ◌*◌, ◌^◌, Bool, ◌&&◌, ◌||◌, List, [], ◌∷◌, leb, ◌==◌, if◌then◌else◌, u32,
  u64, shr, bit_or,
}
use lock_free_hop_scotch.LfHash.Hash.{home}
use lock_free_hop_scotch.LfHash.Entry.{with_tag}
use lock_free_hop_scotch.LfHash.Table.{hop, Table, next_stamp, compare_exchange, marks}

-- The first position from `from` on that is set in a bitset whose positions from `i` on are
-- listed, and the size 16 of the bitset where there is none. (Position 16 is past that size, in
-- the word that holds the bits: as a result it cannot be told from "none".)
unfoldable pub first_set : ℕ → ℕ → List Bool → ℕ
first_set from i [] = hop
first_set from i (b ∷ bs) =
    let rest = first_set from (i + 1) bs in if b && leb from i then i else rest

abbrev pub find_first : List Bool → ℕ
find_first bits = first_set 0 0 bits

abbrev pub find_next : List Bool → ℕ → ℕ
find_next bits prev = first_set (prev + 1) 0 bits

-- `FinalEntry`, an `unsigned int`, from the stamp.
unfoldable pub final_entry : ℕ → ℕ
final_entry stamp = u32 (bit_or (shr (u32 (stamp * 2 ^ 2)) 2) (u64 (2 * 2 ^ 62)))

-- `random`, from `INT_MAX`
unfoldable pub random_entry : ℕ
random_entry = with_tag 3 (2 ^ 31 - 1)

-- The last loop: `n` slots from slot `i` on; reservations there are overwritten.
unfoldable pub sweep : (ℕ → ℕ) → ℕ → ℕ → (ℕ → ℕ)
sweep slots zero i = slots
sweep slots (suc n) i =
    sweep
      (if shr (slots i) 62 == 3
        then (compare_exchange slots i (with_tag 3 (slots i)) random_entry).after
        else slots)
      n (i + 1)

unfoldable pub remove : Table → ℕ → Bool × Table
remove t key =
    let base = home t.seed key in
    let (stamp, t1) = next_stamp t in
    let final = final_entry stamp in
    let bits = marks t1.slots key (hop + 1) base in
    let i1 = find_first bits in
    let i2 = find_next bits i1 in
    let x1 = compare_exchange t1.slots (base + i1) key final in
    let x2 = compare_exchange x1.after (base + i2) (bit_or key (2 ^ 62)) final in
    (x1.won || x2.won, record t1 { slots = sweep x2.after (hop + 1) base })
