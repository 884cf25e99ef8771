-- ===== src/ClhtPacked/Entries.antt =====
-- OtherTables/src/clht/src/clht_lb_packed.c: the entries of a chain as one list.
use lock_free_hop_scotch.Prelude.{
  ℕ, zero, suc, ◌<◌, ◌≤◌, ◌≡◌, ◌⊎◌, List, [], ◌∷◌, ◌++◌, length, none, inl, inr, refl, sym, ap, ◌∙◌,
  arith,
}
use lock_free_hop_scotch.ClhtLb.Chain.{Slot, find_slot, write_slot}
use lock_free_hop_scotch.ClhtPacked.Chain.{Bucket, Chain, single, more, at}

abbrev pub take : ℕ → List Slot → List Slot
take zero ss = []
take (suc n) [] = []
take (suc n) (s ∷ ss) = s ∷ take n ss

abbrev pub used : Bucket → List Slot
used b = take b.last b.slots

-- The entries behind the first bucket, and all.
abbrev pub entries : Chain → List Slot
entries (single b) = used b
entries (more b next) = used b ++ entries next

abbrev pub rest : Chain → List Slot
rest (single b) = []
rest (more b next) = entries next

-- No key is in two entries.
abbrev pub Unique : List Slot → Type 0
Unique [] = Unit
Unique (s ∷ ss) = (find_slot ss s.key ≡ none) × Unique ss

pub record IsBucket (b : Bucket) : Type 0 where
  pub three : length b.slots ≡ 3
  pub room : b.last ≤ 3

-- A bucket is full if there are entries behind it.
abbrev pub IsPacked : Chain → Type 0
IsPacked (single b) = IsBucket b
IsPacked (more b next) = IsBucket b × IsPacked next × ((b.last ≡ 3) ⊎ (entries next ≡ []))

pub length-take : (n : ℕ) (ss : List Slot) → n ≤ length ss → length (take n ss) ≡ n
length-take zero ss le = refl
length-take (suc n) [] le = absurd (omega (arith, le))
length-take (suc n) (s ∷ ss) le = ap (λ n. suc n) (length-take n ss (omega (arith, le)))

pub take-write :
    (n j : ℕ) (ss : List Slot) (s : Slot) → take n (write_slot ss j s) ≡ write_slot (take n ss) j s
unfolding write_slot
take-write zero j ss s = refl
take-write (suc n) j [] s = refl
take-write (suc n) zero (x ∷ ss) s = refl
take-write (suc n) (suc j) (x ∷ ss) s = ap (λ ss. x ∷ ss) (take-write n j ss s)

pub write-append :
    (xs ys : List Slot) (j : ℕ) (s : Slot)
    → (j < length xs) ⊎ (ys ≡ [])
    → write_slot (xs ++ ys) j s ≡ write_slot xs j s ++ ys
unfolding write_slot
write-append [] ys j s (inl lt) = absurd (omega (arith, lt))
write-append [] ys j s (inr empty) = ap (λ ys. write_slot ys j s) empty ∙ sym empty
write-append (x ∷ xs) ys zero s h = refl
write-append (x ∷ xs) ys (suc j) s (inl lt) =
    ap (λ ss. x ∷ ss) (write-append xs ys j s (inl (omega (arith, lt))))
write-append (x ∷ xs) ys (suc j) s (inr empty) =
    ap (λ ss. x ∷ ss) (write-append xs ys j s (inr empty))

pub length-write : (ss : List Slot) (j : ℕ) (s : Slot) → length (write_slot ss j s) ≡ length ss
unfolding write_slot
length-write [] j s = refl
length-write (x ∷ ss) zero s = refl
length-write (x ∷ ss) (suc j) s = ap (λ n. suc n) (length-write ss j s)

pub take-suc :
    (n : ℕ) (ss : List Slot) → n < length ss → take (suc n) ss ≡ take n ss ++ (at ss n ∷ [])
unfolding at
take-suc n [] lt = absurd (omega (arith, lt))
take-suc zero (s ∷ ss) lt = refl
take-suc (suc n) (s ∷ ss) lt = ap (λ ss. s ∷ ss) (take-suc n ss (omega (arith, lt)))

pub write-push :
    (n : ℕ) (ss : List Slot) (s : Slot)
    → n < length ss
    → take (suc n) (write_slot ss n s) ≡ take n ss ++ (s ∷ [])
unfolding write_slot
write-push n [] s lt = absurd (omega (arith, lt))
write-push zero (x ∷ ss) s lt = refl
write-push (suc n) (x ∷ ss) s lt = ap (λ ss. x ∷ ss) (write-push n ss s (omega (arith, lt)))

pub append_none : (xs : List Slot) → xs ++ [] ≡ xs
append_none [] = refl
append_none (x ∷ xs) = ap (λ ss. x ∷ ss) (append_none xs)
