-- ===== src/ClhtPacked/Removal.antt =====
-- OtherTables/src/clht/src/clht_lb_packed.c: the loop of `clht_remove` over the buckets.
use lock_free_hop_scotch.Prelude.{
  ℕ, ◌+◌, ◌<◌, ◌≡◌, false, List, [], ◌∷◌, ◌++◌, length, Option, none, some, ltb, ◌==◌, ==_iff,
  Bool-cases, inl, inr, if◌then◌else◌, sym, ap, subst, ◌∙◌, arith,
}
use lock_free_hop_scotch.ClhtLb.Chain.{Slot, or_else, find_slot, value_or_0}
use lock_free_hop_scotch.ClhtLb.Flat.{find_slot-append}
use lock_free_hop_scotch.ClhtLb.Laws.{is_none}
use lock_free_hop_scotch.ClhtPacked.Chain.{
  Bucket, Chain, single, more, at, first_at, head, remove_at, found_or, behind, remove_from,
  removed, remove,
}
use lock_free_hop_scotch.ClhtPacked.Entries.{used, entries, Unique, IsPacked}
use lock_free_hop_scotch.ClhtPacked.Laws.{FirstSays, first_at_lem, none_behind, Unique-first}
use lock_free_hop_scotch.ClhtPacked.Swap.{Removed, cons-Removed}
use lock_free_hop_scotch.ClhtPacked.Remove.{no_more, remove_at_lem}

append-Removed :
    (xs ss : List Slot) (key : ℕ) (ss' : List Slot)
    → find_slot xs key ≡ none
    → Unique (xs ++ ss)
    → Removed ss key ss'
    → Removed (xs ++ ss) key (xs ++ ss')
unfolding find_slot
append-Removed [] ss key ss' absent u r = r
append-Removed (x ∷ xs) ss key ss' absent (one, u) r = elim (Bool-cases (x.key == key)) [
  | inl here ↦
      absurd (cc (sym (ap (λ b. if b then some x.val else find_slot xs key) here) ∙ absent))
  | inr other ↦ cons-Removed x (xs ++ ss) key (xs ++ ss') other one (
      append-Removed xs ss key ss'
        (sym (ap (λ b. if b then some x.val else find_slot xs key) other) ∙ absent) u r)
]

-- What the loop says.
abbrev pub FromSays : Chain → ℕ → Option (ℕ × Chain) → Type 0
FromSays c key none = find_slot (entries c) key ≡ none
FromSays c key (some (val, c')) =
    (find_slot (entries c) key ≡ some val) × Removed (entries c) key (entries c') × IsPacked c'

behind-says :
    (b : Bucket) (next : Chain) (key : ℕ) (r : Option (ℕ × Chain))
    → IsPacked (more b next)
    → ltb b.last 3 ≡ false
    → Unique (used b ++ entries next)
    → find_slot (used b) key ≡ none
    → FromSays next key r
    → FromSays (more b next) key (behind b r)
behind-says b next key none p full u absent h =
    find_slot-append (used b) (entries next) key
    ∙ ap (λ x. or_else x (find_slot (entries next) key)) absent
    ∙ h
behind-says b next key (some (val, next')) (one, packed, filled) full u absent (found, r, packed') =
    (
      find_slot-append (used b) (entries next) key
          ∙ ap (λ x. or_else x (find_slot (entries next) key)) absent
          ∙ found,
      append-Removed (used b) (entries next) key (entries next') absent u r,
      (one, packed', inl (ground (arith, full, one.room))),
    )

found-says :
    (c : Chain) (key j : ℕ)
    → IsPacked c
    → Unique (entries c)
    → j < (head c).last
    → (at (head c).slots j).key ≡ key
    → find_slot (entries c) key ≡ some (at (head c).slots j).val
    → FromSays c key (some (remove_at c j))
unfolding remove_at
found-says c key j p u lt here found =
    let (removed, packed) = remove_at_lem c j key p u lt here in (found, removed, packed)

-- The search has ended in the first bucket, and goes on or does not.
more-says :
    (b : Bucket) (next : Chain) (key : ℕ) (r : Option ℕ) (s : Option (ℕ × Chain))
    → IsPacked (more b next)
    → Unique (used b ++ entries next)
    → FirstSays b.slots key b.last r
    → FromSays next key s
    → FromSays
        (more b next)
        key
        (found_or (more b next) r (if ltb b.last 3 then none else behind b s))
more-says b next key (some j) s p u (lt, here, found) h =
    found-says (more b next) key j p u lt here (
      find_slot-append (used b) (entries next) key
      ∙ ap (λ x. or_else x (find_slot (entries next) key)) found)
more-says b next key none s p u absent h = elim (Bool-cases (ltb b.last 3)) [
  | inl small ↦
      subst (FromSays (more b next) key) (sym (ap (λ c. if c then none else behind b s) small))
        (ap (λ ss. find_slot ss key) (no_more (used b) next (none_behind b next p small)) ∙ absent)
  | inr full ↦
      subst (FromSays (more b next) key) (sym (ap (λ c. if c then none else behind b s) full))
        (behind-says b next key s p full u absent h)
]

remove_from_lem :
    (c : Chain) (key : ℕ) → IsPacked c → Unique (entries c) → FromSays c key (remove_from c key)
unfolding remove_from
remove_from_lem (single b) key one u =
    go (first_at b.slots key b.last) (first_at_lem b.slots key b.last)
  where
    go :
        (r : Option ℕ)
        → FirstSays b.slots key b.last r
        → FromSays (single b) key (found_or (single b) r none)
    go none absent = absent
    go (some j) (lt, here, found) = found-says (single b) key j one u lt here found
remove_from_lem (more b next) key p u =
    more-says b next key (first_at b.slots key b.last) (remove_from next key) p u
      (first_at_lem b.slots key b.last)
      (remove_from_lem next key p.1 (Unique-first (used b) (entries next) u).1)

-- The key has gone from the chain, and each other entry is there.
pub record RemoveSays (c : Chain) (key : ℕ) (r : ℕ × Chain) : Type 0 where
  pub result : r.0 ≡ value_or_0 (find_slot (entries c) key)
  pub finds :
      (q : ℕ) → find_slot (entries r.1) q ≡ (if q == key then none else find_slot (entries c) q)
  pub unique : Unique (entries r.1)
  pub valid : IsPacked r.1
  pub counts :
      length (entries c)
      ≡ length (entries r.1) + (if is_none (find_slot (entries c) key) then 0 else 1)

pub remove_lem :
    (c : Chain) (key : ℕ) → IsPacked c → Unique (entries c) → RemoveSays c key (remove c key)
unfolding remove
remove_lem c key p u = go (remove_from c key) (remove_from_lem c key p u)
  where
    go : (r : Option (ℕ × Chain)) → FromSays c key r → RemoveSays c key (removed c r)
    go none absent = record {
      result = ap value_or_0 (sym absent);
      finds = λ q. elim (Bool-cases (q == key)) [
        | inl here ↦
            ap (find_slot (entries c)) ((==_iff q key).0 here)
            ∙ absent
            ∙ sym (ap (λ b. if b then none else find_slot (entries c) q) here)
        | inr other ↦ sym (ap (λ b. if b then none else find_slot (entries c) q) other)
      ];
      unique = u;
      valid = p;
      counts = rw absent omega arith;
    }
    go (some (val, c')) (found, r, packed) = record {
      result = ap value_or_0 (sym found);
      finds = r.finds;
      unique = r.unique;
      valid = packed;
      counts = rw found omega (arith, r.counts);
    }
