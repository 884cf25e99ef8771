-- ===== src/ClhtPacked/Laws.antt =====
-- OtherTables/src/clht/src/clht_lb_packed.c: the loops over a chain, on the list of its entries.
use lock_free_hop_scotch.Prelude.{
  ℕ, zero, suc, ◌+◌, ◌<◌, ◌≤◌, ◌≡◌, true, false, not, List, [], ◌∷◌, ◌++◌, length, Option, none,
  some, ltb, ◌==◌, ==_iff, Bool-cases, inl, inr, if◌then◌else◌, refl, sym, ap, subst, ◌∙◌, arith,
}
use lock_free_hop_scotch.ClhtLb.Chain.{Slot, or_else, find_slot}
use lock_free_hop_scotch.ClhtLb.Flat.{find_slot-append}
use lock_free_hop_scotch.ClhtLb.Laws.{is_none}
use lock_free_hop_scotch.ClhtPacked.Chain.{
  Bucket, Chain, single, more, at, find_down, search, exists_down, bucket_exists, first_at, one_on,
  size,
}
use lock_free_hop_scotch.ClhtPacked.Entries.{
  take, used, entries, Unique, IsPacked, length-take, take-suc,
}

pub or_else-none : (x : Option ℕ) → or_else x none ≡ x
or_else-none none = refl
or_else-none (some a) = refl

pub or_else-both : (a b : Option ℕ) → or_else a b ≡ none → (a ≡ none) × (b ≡ none)
or_else-both none b e = (refl, e)
or_else-both (some x) b e = absurd (cc e)

not_same : (s : Slot) (key : ℕ) → find_slot (s ∷ []) key ≡ none → (key == s.key) ≡ false
unfolding find_slot
not_same s key absent = elim (Bool-cases (s.key == key)) [
  | inl here ↦ absurd (cc (sym (ap (λ b. if b then some s.val else none) here) ∙ absent))
  | inr other ↦ ground (arith, other)
]

-- A list without its end, and the end, have no key in common.
pub Unique-before :
    (xs : List Slot) (s : Slot) → Unique (xs ++ (s ∷ [])) → Unique xs × (find_slot xs s.key ≡ none)
unfolding find_slot
Unique-before [] s u = (tt, refl)
Unique-before (x ∷ xs) s (one, u) =
    let (u', absent) = Unique-before xs s u in
    let (before, last) =
      or_else-both (find_slot xs x.key) (find_slot (s ∷ []) x.key)
        (sym (find_slot-append xs (s ∷ []) x.key) ∙ one) in
    (
      (before, u'),
      ap (λ b. if b then some x.val else find_slot xs s.key) (not_same s x.key last) ∙ absent,
    )

-- The search from the end finds what the search from the front finds.
find_down_lem :
    (ss : List Slot) (key n : ℕ)
    → n ≤ length ss
    → Unique (take n ss)
    → find_down ss key n ≡ find_slot (take n ss) key
unfolding find_down find_slot
find_down_lem ss key zero le u = refl
find_down_lem ss key (suc n) le u =
    let split = take-suc n ss (omega (arith, le)) in
    let (u', absent) = Unique-before (take n ss) (at ss n) (subst Unique split u) in
    let h = find_down_lem ss key n (omega (arith, le)) u' in
    let parts =
      ap (λ ss. find_slot ss key) split ∙ find_slot-append (take n ss) (at ss n ∷ []) key in
    elim (Bool-cases ((at ss n).key == key)) [
      | inl here ↦
          ap (λ b. if b then some (at ss n).val else find_down ss key n) here
          ∙ sym (
              parts
              ∙ ap (λ x. or_else x (find_slot (at ss n ∷ []) key))
                  (ap (find_slot (take n ss)) (sym ((==_iff (at ss n).key key).0 here)) ∙ absent)
              ∙ ap (λ b. if b then some (at ss n).val else none) here)
      | inr other ↦
          ap (λ b. if b then some (at ss n).val else find_down ss key n) other
          ∙ h
          ∙ sym (
              parts
              ∙ ap
                  (λ b.
                    or_else (find_slot (take n ss) key) (if b then some (at ss n).val else none))
                  other
              ∙ or_else-none (find_slot (take n ss) key))
    ]

exists_down_lem :
    (ss : List Slot) (key n : ℕ)
    → n ≤ length ss
    → exists_down ss key n ≡ not (is_none (find_slot (take n ss) key))
unfolding exists_down find_slot
exists_down_lem ss key zero le = refl
exists_down_lem ss key (suc n) le =
    let h = exists_down_lem ss key n (omega (arith, le)) in
    let parts =
      ap (λ ss. find_slot ss key) (take-suc n ss (omega (arith, le)))
      ∙ find_slot-append (take n ss) (at ss n ∷ []) key in
    elim (Bool-cases ((at ss n).key == key)) [
      | inl here ↦
          ap (λ b. if b then true else exists_down ss key n) here
          ∙ sym (
              ap (λ x. not (is_none x))
                (parts
                  ∙ ap
                      (λ b.
                        or_else (find_slot (take n ss) key)
                          (if b then some (at ss n).val else none))
                      here)
              ∙ or_else-there (find_slot (take n ss) key) (at ss n).val)
      | inr other ↦
          ap (λ b. if b then true else exists_down ss key n) other
          ∙ h
          ∙ sym (
              ap (λ x. not (is_none x))
                (parts
                  ∙ ap
                      (λ b.
                        or_else (find_slot (take n ss) key)
                          (if b then some (at ss n).val else none))
                      other
                  ∙ or_else-none (find_slot (take n ss) key)))
    ]
  where
    or_else-there : (x : Option ℕ) (v : ℕ) → not (is_none (or_else x (some v))) ≡ true
    or_else-there none v = refl
    or_else-there (some a) v = refl

-- What the search of `clht_put` and `clht_remove` says of a bucket.
abbrev pub FirstSays : List Slot → ℕ → ℕ → Option ℕ → Type 0
FirstSays ss key n none = find_slot (take n ss) key ≡ none
FirstSays ss key n (some j) =
    (j < n) × ((at ss j).key ≡ key) × (find_slot (take n ss) key ≡ some (at ss j).val)

first_step :
    (s : Slot) (ss : List Slot) (key n : ℕ) (r : Option ℕ)
    → (s.key == key) ≡ false
    → FirstSays ss key n r
    → FirstSays (s ∷ ss) key (suc n) (one_on r)
unfolding find_slot at
first_step s ss key n none other h =
    ap (λ b. if b then some s.val else find_slot (take n ss) key) other ∙ h
first_step s ss key n (some j) other (lt, here, found) = (
  omega (arith, lt),
  here,
  ap (λ b. if b then some s.val else find_slot (take n ss) key) other ∙ found,
)

pub first_at_lem : (ss : List Slot) (key n : ℕ) → FirstSays ss key n (first_at ss key n)
unfolding first_at find_slot at
first_at_lem [] key zero = refl
first_at_lem [] key (suc n) = refl
first_at_lem (s ∷ ss) key zero = refl
first_at_lem (s ∷ ss) key (suc n) =
    let r = first_at ss key n in
    elim (Bool-cases (s.key == key)) [
      | inl here ↦
          subst (FirstSays (s ∷ ss) key (suc n))
            (sym (ap (λ b. if b then some 0 else one_on r) here))
            (
              omega arith,
              (==_iff s.key key).0 here,
              ap (λ b. if b then some s.val else find_slot (take n ss) key) here,
            )
      | inr other ↦
          subst (FirstSays (s ∷ ss) key (suc n))
            (sym (ap (λ b. if b then some 0 else one_on r) other))
            (first_step s ss key n r other (first_at_lem ss key n))
    ]

-- Nothing is behind a bucket that is not full.
pub none_behind :
    (b : Bucket) (next : Chain) → IsPacked (more b next) → ltb b.last 3 ≡ true → entries next ≡ []
none_behind b next (one, packed, inl full) small = absurd (ground (arith, full, small))
none_behind b next (one, packed, inr none_there) small = none_there

-- A loop may end at a bucket that is not full.
ends_here :
    {A : Type 0} (b : Bucket) (next : Chain)
    → IsPacked (more b next)
    → (f : List Slot → A) (e x : A) → f [] ≡ e
    → x ≡ f (entries next)
    → (if ltb b.last 3 then e else x) ≡ f (entries next)
ends_here b next p f e x nothing goes = elim (Bool-cases (ltb b.last 3)) [
  | inl small ↦
      ap (λ c. if c then e else x) small ∙ sym nothing ∙ ap f (sym (none_behind b next p small))
  | inr full ↦ ap (λ c. if c then e else x) full ∙ goes
]

pub Unique-first : (xs ys : List Slot) → Unique (xs ++ ys) → Unique xs × Unique ys
Unique-first [] ys u = (tt, u)
Unique-first (x ∷ xs) ys (one, u) =
    let (a, b) = Unique-first xs ys u in
    let (absent, rest_absent) =
      or_else-both (find_slot xs x.key) (find_slot ys x.key)
        (sym (find_slot-append xs ys x.key) ∙ one) in
    ((absent, a), b)

-- `clht_get` and `bucket_exists` look up the key among the entries.
pub search_lem :
    (c : Chain) (key : ℕ)
    → IsPacked c
    → Unique (entries c)
    → search c key ≡ find_slot (entries c) key
unfolding search find_slot
search_lem (single b) key one u =
    find_down_lem b.slots key b.last (omega (arith, one.room, one.three)) u
search_lem (more b next) key p u =
    let (one, packed, full) = p in
    let (first, behind) = Unique-first (used b) (entries next) u in
    let here = find_down_lem b.slots key b.last (omega (arith, one.room, one.three)) first in
    let there = search_lem next key packed behind in
    ap (λ x. or_else x (if ltb b.last 3 then none else search next key)) here
    ∙ ap (or_else (find_slot (used b) key))
        (ends_here b next p (λ ss. find_slot ss key) none (search next key) refl there)
    ∙ sym (find_slot-append (used b) (entries next) key)

pub bucket_exists_lem :
    (c : Chain) (key : ℕ)
    → IsPacked c
    → bucket_exists c key ≡ not (is_none (find_slot (entries c) key))
unfolding bucket_exists find_slot
bucket_exists_lem (single b) key one =
    exists_down_lem b.slots key b.last (omega (arith, one.room, one.three))
bucket_exists_lem (more b next) key p =
    let (one, packed, full) = p in
    let here = exists_down_lem b.slots key b.last (omega (arith, one.room, one.three)) in
    let there = bucket_exists_lem next key packed in
    ap (λ c. if c then true else if ltb b.last 3 then false else bucket_exists next key) here
    ∙ ap (λ c. if not (is_none (find_slot (used b) key)) then true else c)
        (ends_here b next p (λ ss. not (is_none (find_slot ss key))) false (bucket_exists next key)
          refl there)
    ∙ either (find_slot (used b) key) (find_slot (entries next) key)
    ∙ ap (λ x. not (is_none x)) (sym (find_slot-append (used b) (entries next) key))
  where
    either :
        (x y : Option ℕ)
        → (if not (is_none x) then true else not (is_none y)) ≡ not (is_none (or_else x y))
    either none y = refl
    either (some a) y = refl

pub length-append : (xs ys : List Slot) → length (xs ++ ys) ≡ length xs + length ys
length-append [] ys = omega arith
length-append (x ∷ xs) ys = omega (arith, length-append xs ys)

pub size_lem : (c : Chain) → IsPacked c → size c ≡ length (entries c)
unfolding size
size_lem (single b) one = sym (length-take b.last b.slots (omega (arith, one.room, one.three)))
size_lem (more b next) p =
    let (one, packed, full) = p in
    omega (
      arith,
      length-append (used b) (entries next),
      length-take b.last b.slots (omega (arith, one.room, one.three)),
      ends_here b next p length 0 (size next) refl (size_lem next packed),
    )
