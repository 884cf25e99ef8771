-- ===== src/ClhtLbRes/Fill.antt =====
-- OtherTables/src/clht/src/clht_lb_res.c: what the loop of `clht_put_seq` does to a chain.
use lock_free_hop_scotch.Prelude.{
  ℕ, zero, suc, ◌+◌, ◌≡◌, ◌≢◌, Bool, true, List, [], ◌∷◌, ◌++◌, Option, none, some, ◌==◌, ==_iff,
  if◌then◌else◌, refl, subst, Bool-cases, sym, ap, ◌∙◌, ◌⊎◌, inl, inr,
}
use mathlib.Core.List.{append_assoc}
use lock_free_hop_scotch.ClhtLb.Chain.{
  Slot, Chain, last, link, find_slot, find, write_slot, new_bucket, count, slots,
}
use lock_free_hop_scotch.ClhtLb.Slots.{EmptyAt, Distinct, find-write, write-Distinct, count-write}
use lock_free_hop_scotch.ClhtLb.Flat.{find-slots, count-append}
use lock_free_hop_scotch.ClhtLb.Laws.{
  IsChain, PutSays, written, find-append-new, append-Distinct, count-new,
}
use lock_free_hop_scotch.ClhtLbRes.Table.{keep_taken, fill_slot, fill_last, fill_link, fill}

module _ (new : Slot) where
  -- The list with a new entry in an empty slot.
  abbrev Filled : List Slot → List Slot → Type 0
  Filled ss ss' = (i : ℕ) × EmptyAt ss i × (ss' ≡ write_slot ss i new)

  Filled-cons : (s : Slot) (ss ss' : List Slot) → Filled ss ss' → Filled (s ∷ ss) (s ∷ ss')
  unfolding write_slot
  Filled-cons s ss ss' (i, empty, same) = (suc i, empty, ap (λ ss. s ∷ ss) same)

  Filled-after : (xs ys ys' : List Slot) → Filled ys ys' → Filled (xs ++ ys) (xs ++ ys')
  Filled-after [] ys ys' f = f
  Filled-after (x ∷ xs) ys ys' f = Filled-cons x (xs ++ ys) (xs ++ ys') (Filled-after xs ys ys' f)

  write-before :
      (xs ys : List Slot) (i : ℕ)
      → EmptyAt xs i
      → EmptyAt (xs ++ ys) i × (write_slot xs i new ++ ys ≡ write_slot (xs ++ ys) i new)
  unfolding write_slot
  write-before [] ys i empty = elim empty [ ]
  write-before (x ∷ xs) ys zero empty = (empty, refl)
  write-before (x ∷ xs) ys (suc i) empty =
      let (empty', same) = write-before xs ys i empty in (empty', ap (λ ss. x ∷ ss) same)

  Filled-before : (xs xs' ys : List Slot) → Filled xs xs' → Filled (xs ++ ys) (xs' ++ ys)
  Filled-before xs xs' ys (i, empty, same) =
      let (empty', same') = write-before xs ys i empty in
      (i, empty', ap (λ ss. ss ++ ys) same ∙ same')

  -- The slots that `fill_slot` leaves.
  abbrev FillSlotSays : List Slot → Option (List Slot) → Type 0
  FillSlotSays ss none = Unit
  FillSlotSays ss (some ss') = Filled ss ss'

  keep-says :
      (s : Slot) (ss : List Slot) (r : Option (List Slot))
      → FillSlotSays ss r
      → FillSlotSays (s ∷ ss) (keep_taken s r)
  keep-says s ss none f = tt
  keep-says s ss (some ss') f = Filled-cons s ss ss' f

  fill_slot_lem : (ss : List Slot) → FillSlotSays ss (fill_slot ss new)
  unfolding fill_slot write_slot
  fill_slot_lem [] = tt
  fill_slot_lem (s ∷ ss) =
      let rest = fill_slot ss new in
      elim (Bool-cases (s.key == 0)) [
        | inl empty ↦
            subst (FillSlotSays (s ∷ ss))
              (sym (ap (λ b. if b then some (new ∷ ss) else keep_taken s rest) empty))
              (zero, (==_iff s.key 0).0 empty, refl)
        | inr taken ↦
            subst (FillSlotSays (s ∷ ss))
              (sym (ap (λ b. if b then some (new ∷ ss) else keep_taken s rest) taken))
              (keep-says s ss rest (fill_slot_lem ss))
      ]

module _ (before : ℕ → ℕ) (key val : ℕ) where
  abbrev new : Slot
  new = record { key = key; val = val }

  -- The slots of a chain after `fill`: an empty one is taken, or a bucket is added.
  abbrev FillSays : List Slot → List Slot → Type 0
  FillSays ss ss' = Filled new ss ss' ⊎ (ss' ≡ ss ++ new_bucket before key val)

  fill_last-says :
      (ss : List Slot) (r : Option (List Slot))
      → FillSlotSays new ss r
      → FillSays ss (slots (fill_last ss (new_bucket before key val) r).1)
  unfolding slots
  fill_last-says ss none f = inr refl
  fill_last-says ss (some ss') f = inl f

  fill_link-says :
      (ss : List Slot) (next : Chain) (r : Option (List Slot)) (rest : Bool × Chain)
      → FillSlotSays new ss r
      → FillSays (slots next) (slots rest.1)
      → FillSays (ss ++ slots next) (slots (fill_link ss next r rest).1)
  unfolding slots
  fill_link-says ss next none rest f (inl g) =
      inl (Filled-after new ss (slots next) (slots rest.1) g)
  fill_link-says ss next none rest f (inr g) =
      inr (ap (λ ys. ss ++ ys) g ∙ sym (append_assoc ss (slots next) (new_bucket before key val)))
  fill_link-says ss next (some ss') rest f g = inl (Filled-before new ss ss' (slots next) f)

  fill-says : (c : Chain) → FillSays (slots c) (slots (fill before c key val).1)
  unfolding fill slots
  fill-says (last ss) = fill_last-says ss (fill_slot ss new) (fill_slot_lem new ss)
  fill-says (link ss next) =
      fill_link-says ss next (fill_slot ss new) (fill before next key val) (fill_slot_lem new ss)
        (fill-says next)

  -- A new key that is put into a chain without a search for it.
  pub fill_lem :
      (c : Chain)
      → key ≢ 0
      → IsChain c
      → find c key ≡ none
      → PutSays c key val (true, (fill before c key val).1)
  fill_lem c nz distinct absent =
      let c' = (fill before c key val).1 in
      let free = sym (find-slots c key) ∙ absent in
      elim (fill-says c) [
        | inl (i, empty, same) ↦
            written c c' key val absent
              (λ q qz. ap (λ ss. find_slot ss q) same ∙ find-write (slots c) i new empty free q qz)
              (subst Distinct (sym same) (write-Distinct (slots c) i new empty free nz distinct))
              (ap count same ∙ count-write (slots c) i new empty nz)
        | inr same ↦
            written c c' key val absent
              (λ q qz.
                ap (λ ss. find_slot ss q) same
                ∙ find-append-new before key val nz (slots c) free q qz)
              (subst Distinct (sym same)
                (append-Distinct before key val nz (slots c) free distinct))
              (ap count same
                ∙ count-append (slots c) (new_bucket before key val)
                ∙ ap (λ n. count (slots c) + n) (count-new before key val nz))
      ]
