-- ===== src/ClhtLb/Slots.antt =====
-- OtherTables/src/clht/src/clht_lb.c: the loops over the slots of a chain, taken as one list.
use lock_free_hop_scotch.Prelude.{
  ℕ, zero, suc, ◌+◌, ◌≡◌, ◌≢◌, true, false, List, [], ◌∷◌, Option, none, some, ◌==◌, if◌then◌else◌,
  refl, arith, subst, ==_iff, Bool-cases, sym, ap, ◌∙◌, ◌⊎◌, inl, inr,
}
use lock_free_hop_scotch.ClhtLb.Chain.{
  Slot, find_slot, note_empty, scan_slots, write_slot, remove_slot, keep_slot, count,
}

-- Slot `i` is there, and is empty.
abbrev pub EmptyAt : List Slot → ℕ → Type 0
EmptyAt [] i = ⊥
EmptyAt (s ∷ ss) zero = s.key ≡ 0
EmptyAt (s ∷ ss) (suc i) = EmptyAt ss i

-- No key is in two slots.
abbrev pub Distinct : List Slot → Type 0
Distinct [] = Unit
Distinct (s ∷ ss) = (s.key ≢ 0 → find_slot ss s.key ≡ none) × Distinct ss

-- What the search of `clht_put` says: the key is there, or the first empty slot.
abbrev pub ScanSays : List Slot → ℕ → Option ℕ → ℕ → Option (Option ℕ) → Type 0
ScanSays ss key empty i none = find_slot ss key ≢ none
ScanSays ss key empty i (some r) =
    (find_slot ss key ≡ none)
    × ((r ≡ empty) ⊎ ((empty ≡ none) × ((d : ℕ) × (r ≡ some (i + d)) × EmptyAt ss d)))

pub find-here :
    (s : Slot) (ss : List Slot) (key : ℕ)
    → (s.key == key) ≡ true
    → find_slot (s ∷ ss) key ≡ some s.val
unfolding find_slot
find-here s ss key here = ap (λ b. if b then some s.val else find_slot ss key) here

pub find-other :
    (s : Slot) (ss : List Slot) (key : ℕ)
    → (s.key == key) ≡ false
    → find_slot (s ∷ ss) key ≡ find_slot ss key
unfolding find_slot
find-other s ss key other = ap (λ b. if b then some s.val else find_slot ss key) other

-- A key that is absent is in no slot.
pub absent-rest :
    (s : Slot) (ss : List Slot) (key : ℕ)
    → find_slot (s ∷ ss) key ≡ none
    → ((s.key == key) ≡ false) × (find_slot ss key ≡ none)
absent-rest s ss key absent = elim (Bool-cases (s.key == key)) [
  | inl here ↦ absurd (cc (absent, find-here s ss key here))
  | inr other ↦ (other, sym (find-other s ss key other) ∙ absent)
]

-- The first empty slot, with one more slot in front.
empty_step :
    (s : Slot) (ss : List Slot) (empty : Option ℕ) (i : ℕ) (r : Option ℕ)
    → (r ≡ note_empty s empty i)
      ⊎ ((note_empty s empty i ≡ none) × ((d : ℕ) × (r ≡ some (i + 1 + d)) × EmptyAt ss d))
    → (r ≡ empty) ⊎ ((empty ≡ none) × ((d : ℕ) × (r ≡ some (i + d)) × EmptyAt (s ∷ ss) d))
empty_step s ss (some e) i r (inl same) = inl same
empty_step s ss (some e) i r (inr (clash, rest)) = absurd (cc clash)
empty_step s ss none i r h = elim (Bool-cases (s.key == 0)) [
  | inl free ↦ elim h [
    | inl same ↦ inr (
      refl,
      (
        0,
        same ∙ ap (λ b. if b then some i else none) free ∙ ap some (omega arith),
        (==_iff s.key 0).0 free,
      ),
    )
    | inr (clash, rest) ↦ absurd (cc (clash, ap (λ b. if b then some i else none) free))
  ]
  | inr taken ↦ elim h [
    | inl same ↦ inl (same ∙ ap (λ b. if b then some i else none) taken)
    | inr (taken', (d, eq, at)) ↦ inr (refl, (suc d, eq ∙ ap some (omega arith), at))
  ]
]

-- One slot's part in the search.
scan_step :
    (s : Slot) (ss : List Slot) (key : ℕ) (empty : Option ℕ) (i : ℕ) (r : Option (Option ℕ))
    → (s.key == key) ≡ false
    → ScanSays ss key (note_empty s empty i) (i + 1) r
    → ScanSays (s ∷ ss) key empty i r
scan_step s ss key empty i none other h = λ e. h (sym (find-other s ss key other) ∙ e)
scan_step s ss key empty i (some r) other (absent, h) =
    (find-other s ss key other ∙ absent, empty_step s ss empty i r h)

pub scan_slots_lem :
    (ss : List Slot) (key : ℕ) (empty : Option ℕ) (i : ℕ)
    → ScanSays ss key empty i (scan_slots ss key empty i)
unfolding scan_slots find_slot
scan_slots_lem [] key empty i = (refl, inl refl)
scan_slots_lem (s ∷ ss) key empty i =
    let r = scan_slots ss key (note_empty s empty i) (i + 1) in
    elim (Bool-cases (s.key == key)) [
      | inl here ↦
          subst (ScanSays (s ∷ ss) key empty i) (sym (ap (λ b. if b then none else r) here))
            (λ e. absurd (cc (e, find-here s ss key here)))
      | inr other ↦
          subst (ScanSays (s ∷ ss) key empty i) (sym (ap (λ b. if b then none else r) other)) (
            scan_step s ss key empty i r other
              (scan_slots_lem ss key (note_empty s empty i) (i + 1)))
    ]

pub find-write :
    (ss : List Slot) (i : ℕ) (new : Slot)
    → EmptyAt ss i
    → find_slot ss new.key ≡ none
    → (q : ℕ) → q ≢ 0
    → find_slot (write_slot ss i new) q ≡ (if q == new.key then some new.val else find_slot ss q)
unfolding find_slot write_slot
find-write [] i new e absent q nz = elim e [ ]
find-write (s ∷ ss) zero new e absent q nz = ground arith
find-write (s ∷ ss) (suc i) new e absent q nz =
    let h = find-write ss i new e (absent-rest s ss new.key absent).1 q nz in
    let other = (absent-rest s ss new.key absent).0 in ground arith

pub write-Distinct :
    (ss : List Slot) (i : ℕ) (new : Slot)
    → EmptyAt ss i
    → find_slot ss new.key ≡ none
    → new.key ≢ 0
    → Distinct ss
    → Distinct (write_slot ss i new)
unfolding find_slot write_slot
write-Distinct [] i new e absent nz one = elim e [ ]
write-Distinct (s ∷ ss) zero new e absent nz (one, rest) =
    (λ h. (absent-rest s ss new.key absent).1, rest)
write-Distinct (s ∷ ss) (suc i) new e absent nz (one, rest) =
    let (other, absent') = absent-rest s ss new.key absent in
    (
      λ h.
          find-write ss i new e absent' s.key h
          ∙ ap (λ b. if b then some new.val else find_slot ss s.key) other
          ∙ one h,
      write-Distinct ss i new e absent' nz rest,
    )

pub count-write :
    (ss : List Slot) (i : ℕ) (new : Slot)
    → EmptyAt ss i
    → new.key ≢ 0
    → count (write_slot ss i new) ≡ count ss + 1
unfolding count write_slot
count-write [] i new e nz = elim e [ ]
count-write (s ∷ ss) zero new e nz = ground arith
count-write (s ∷ ss) (suc i) new e nz = let h = count-write ss i new e nz in ground arith

-- What the loops of `clht_remove` say.
abbrev pub RemoveSays : List Slot → ℕ → Option (ℕ × List Slot) → Type 0
RemoveSays ss key none = find_slot ss key ≡ none
RemoveSays ss key (some (val, ss')) =
    (find_slot ss key ≡ some val)
    × ((q : ℕ) → q ≢ 0 → find_slot ss' q ≡ (if q == key then none else find_slot ss q))
    × Distinct ss'
    × (count ss ≡ count ss' + 1)

remove_step :
    (s : Slot) (ss : List Slot) (key : ℕ) (r : Option (ℕ × List Slot))
    → (s.key == key) ≡ false
    → (s.key ≢ 0 → find_slot ss s.key ≡ none)
    → RemoveSays ss key r
    → RemoveSays (s ∷ ss) key (keep_slot s r)
unfolding count find_slot
remove_step s ss key none other one h = find-other s ss key other ∙ h
remove_step s ss key (some (val, ss')) other one (found, finds, distinct, counts) = (
  find-other s ss key other ∙ found,
  λ q nz. let h = finds q nz in ground arith,
  (λ h. finds s.key h ∙ ap (λ b. if b then none else find_slot ss s.key) other ∙ one h, distinct),
  ground arith,
)

pub remove_slot_lem :
    (ss : List Slot) (key : ℕ) → key ≢ 0 → Distinct ss → RemoveSays ss key (remove_slot ss key)
unfolding remove_slot find_slot count
remove_slot_lem [] key nz distinct = refl
remove_slot_lem (s ∷ ss) key nz (one, distinct) =
    let r = remove_slot ss key in
    elim (Bool-cases (s.key == key)) [
      | inl here ↦
          let same = (==_iff s.key key).0 here in
          let gone : find_slot ss key ≡ none =
            subst (λ k. find_slot ss k ≡ none) same (one (λ z. nz (sym same ∙ z))) in
          subst (RemoveSays (s ∷ ss) key)
            (sym
              (ap (λ b. if b then some (s.val, record s { key = 0 } ∷ ss) else keep_slot s r) here))
            (
              find-here s ss key here,
              λ q qz. ground (arith, same, gone, qz),
              (λ h. absurd (h refl), distinct),
              ground (arith, same, nz),
            )
      | inr other ↦
          subst (RemoveSays (s ∷ ss) key)
            (sym (
              ap (λ b. if b then some (s.val, record s { key = 0 } ∷ ss) else keep_slot s r) other))
            (remove_step s ss key r other one (remove_slot_lem ss key nz distinct))
    ]
