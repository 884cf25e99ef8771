-- ===== src/ClhtLb/Flat.antt =====
-- OtherTables/src/clht/src/clht_lb.c: the operations on a chain are those on the list of its slots.
use lock_free_hop_scotch.Prelude.{
  ℕ, zero, suc, ◌+◌, ◌-◌, ◌≡◌, List, [], ◌∷◌, ◌++◌, length, Option, none, some, ltb, ◌==◌,
  if◌then◌else◌, refl, arith, Bool-cases, sym, ap, ◌∙◌, inl, inr,
}
use mathlib.Core.List.{append_assoc}
use lock_free_hop_scotch.ClhtLb.Chain.{
  Slot, Chain, last, link, find_slot, or_else, find, note_empty, scan_slots, scan, write_slot,
  write, append, remove_slot, keep_slot, remove_here, remove_last, remove_from, count, size, slots,
}

pub find_slot-append :
    (xs ys : List Slot) (key : ℕ)
    → find_slot (xs ++ ys) key ≡ or_else (find_slot xs key) (find_slot ys key)
unfolding find_slot
find_slot-append [] ys key = refl
find_slot-append (x ∷ xs) ys key =
    let h = find_slot-append xs ys key in
    elim (Bool-cases (x.key == key)) [ inl here ↦ rw here refl | inr other ↦ rw other h ]

pub find-slots : (c : Chain) (key : ℕ) → find c key ≡ find_slot (slots c) key
unfolding find slots
find-slots (last ss) key = refl
find-slots (link ss next) key =
    ap (or_else (find_slot ss key)) (find-slots next key)
    ∙ sym (find_slot-append ss (slots next) key)

-- The search goes on where it has ended in the slots before.
abbrev pub scan_on : List Slot → ℕ → ℕ → Option (Option ℕ) → Option (Option ℕ)
scan_on ss key i none = none
scan_on ss key i (some empty) = scan_slots ss key empty i

scan_slots-append :
    (xs ys : List Slot) (key : ℕ) (empty : Option ℕ) (i : ℕ)
    → scan_slots (xs ++ ys) key empty i ≡ scan_on ys key (i + length xs) (scan_slots xs key empty i)
unfolding scan_slots
scan_slots-append [] ys key empty i = ap (scan_slots ys key empty) (omega arith)
scan_slots-append (x ∷ xs) ys key empty i =
    let h = scan_slots-append xs ys key (note_empty x empty i) (i + 1) in
    elim (Bool-cases (x.key == key)) [
      | inl here ↦ rw here refl
      | inr other ↦
          ap (λ b. if b then none else scan_slots (xs ++ ys) key (note_empty x empty i) (i + 1))
            other
          ∙ h
          ∙ rw other (
              ap (λ n. scan_on ys key n (scan_slots xs key (note_empty x empty i) (i + 1)))
                (omega arith))
    ]

-- The search in a chain goes on with the next bucket.
abbrev pub scan_next : Chain → ℕ → ℕ → Option (Option ℕ) → Option (Option ℕ)
scan_next next key i none = none
scan_next next key i (some empty) = scan next key empty i

scan_next-slots :
    (next : Chain) (key i : ℕ) (r : Option (Option ℕ))
    → ((e : Option ℕ) → scan next key e i ≡ scan_slots (slots next) key e i)
    → scan_next next key i r ≡ scan_on (slots next) key i r
scan_next-slots next key i none h = refl
scan_next-slots next key i (some e) h = h e

pub scan-slots :
    (c : Chain) (key : ℕ) (empty : Option ℕ) (i : ℕ)
    → scan c key empty i ≡ scan_slots (slots c) key empty i
unfolding scan slots
scan-slots (last ss) key empty i = refl
scan-slots (link ss next) key empty i =
    scan_next-slots next key (i + length ss) (scan_slots ss key empty i)
      (λ e. scan-slots next key e (i + length ss))
    ∙ sym (scan_slots-append ss (slots next) key empty i)

write-append :
    (xs ys : List Slot) (i : ℕ) (new : Slot)
    → write_slot (xs ++ ys) i new ≡ (
        if ltb i (length xs)
        then write_slot xs i new ++ ys
        else xs ++ write_slot ys (i - length xs) new)
unfolding write_slot
write-append [] ys i new = ground arith
write-append (x ∷ xs) ys zero new = ground arith
write-append (x ∷ xs) ys (suc i) new = let h = write-append xs ys i new in ground arith

pub slots-write :
    (c : Chain) (i : ℕ) (new : Slot) → slots (write c i new) ≡ write_slot (slots c) i new
unfolding write slots
slots-write (last ss) i new = refl
slots-write (link ss next) i new =
    let h = slots-write next (i - length ss) new in
    elim (Bool-cases (ltb i (length ss))) [
      | inl here ↦ rw here (sym (write-append ss (slots next) i new ∙ rw here refl))
      | inr later ↦
          rw later
            (ap (λ ys. ss ++ ys) h ∙ sym (write-append ss (slots next) i new ∙ rw later refl))
    ]

pub slots-append : (c : Chain) (new : List Slot) → slots (append c new) ≡ slots c ++ new
unfolding append slots
slots-append (last ss) new = refl
slots-append (link ss next) new =
    ap (λ ys. ss ++ ys) (slots-append next new) ∙ sym (append_assoc ss (slots next) new)

pub count-append : (xs ys : List Slot) → count (xs ++ ys) ≡ count xs + count ys
unfolding count
count-append [] ys = omega arith
count-append (x ∷ xs) ys = let h = count-append xs ys in ground arith

pub size-slots : (c : Chain) → size c ≡ count (slots c)
unfolding size slots
size-slots (last ss) = refl
size-slots (link ss next) =
    ap (λ n. count ss + n) (size-slots next) ∙ sym (count-append ss (slots next))

-- The slots of the chain that a removal leaves.
abbrev pub with_slots : Option (ℕ × Chain) → Option (ℕ × List Slot)
with_slots none = none
with_slots (some (val, c)) = some (val, slots c)

abbrev pub before_slots : List Slot → Option (ℕ × List Slot) → Option (ℕ × List Slot)
before_slots xs none = none
before_slots xs (some (val, ys)) = some (val, xs ++ ys)

abbrev pub else_after :
    List Slot → List Slot → Option (ℕ × List Slot) → Option (ℕ × List Slot) → Option (ℕ × List Slot)
else_after xs ys (some (val, xs')) rest = some (val, xs' ++ ys)
else_after xs ys none rest = before_slots xs rest

keep-else :
    (x : Slot) (xs ys : List Slot) (r rest : Option (ℕ × List Slot))
    → keep_slot x (else_after xs ys r rest) ≡ else_after (x ∷ xs) ys (keep_slot x r) rest
keep-else x xs ys none none = refl
keep-else x xs ys none (some (val, ys')) = refl
keep-else x xs ys (some (val, xs')) rest = refl

before-nil : (r : Option (ℕ × List Slot)) → r ≡ before_slots [] r
before-nil none = refl
before-nil (some (val, ys)) = refl

remove-append :
    (xs ys : List Slot) (key : ℕ)
    → remove_slot (xs ++ ys) key ≡ else_after xs ys (remove_slot xs key) (remove_slot ys key)
unfolding remove_slot
remove-append [] ys key = before-nil (remove_slot ys key)
remove-append (x ∷ xs) ys key = elim (Bool-cases (x.key == key)) [
  | inl here ↦ rw here refl
  | inr other ↦ rw other (
      ap (keep_slot x) (remove-append xs ys key)
      ∙ keep-else x xs ys (remove_slot xs key) (remove_slot ys key))
]

last-slots : (r : Option (ℕ × List Slot)) → with_slots (remove_last r) ≡ r
unfolding slots
last-slots none = refl
last-slots (some (val, ss)) = refl

here-slots :
    (ss : List Slot) (next : Chain) (r : Option (ℕ × List Slot)) (rest : Option (ℕ × Chain))
    → with_slots (remove_here ss next r rest) ≡ else_after ss (slots next) r (with_slots rest)
unfolding slots
here-slots ss next (some (val, ss')) rest = refl
here-slots ss next none (some (val, next')) = refl
here-slots ss next none none = refl

pub remove-slots :
    (c : Chain) (key : ℕ) → with_slots (remove_from c key) ≡ remove_slot (slots c) key
unfolding remove_from slots
remove-slots (last ss) key = last-slots (remove_slot ss key)
remove-slots (link ss next) key =
    here-slots ss next (remove_slot ss key) (remove_from next key)
    ∙ ap (else_after ss (slots next) (remove_slot ss key)) (remove-slots next key)
    ∙ sym (remove-append ss (slots next) key)
