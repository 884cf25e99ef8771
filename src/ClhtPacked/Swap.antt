-- ===== src/ClhtPacked/Swap.antt =====
-- OtherTables/src/clht/src/clht_lb_packed.c: the last entry takes the place of one that is removed.
use lock_free_hop_scotch.Prelude.{
  ℕ, zero, suc, ◌<◌, ◌≡◌, ◌≢◌, false, List, [], ◌∷◌, ◌++◌, length, none, some, ◌==◌, ==_iff,
  Bool-cases, inl, inr, if◌then◌else◌, sym, ap, subst, ◌∙◌, arith,
}
use lock_free_hop_scotch.ClhtLb.Chain.{Slot, or_else, find_slot, write_slot}
use lock_free_hop_scotch.ClhtLb.Flat.{find_slot-append}
use lock_free_hop_scotch.ClhtPacked.Chain.{at}
use lock_free_hop_scotch.ClhtPacked.Entries.{Unique, length-write}
use lock_free_hop_scotch.ClhtPacked.Laws.{Unique-before, or_else-none, length-append}

-- The entries after the removal of a key.
pub record Removed (ss : List Slot) (key : ℕ) (ss' : List Slot) : Type 0 where
  pub finds : (q : ℕ) → find_slot ss' q ≡ (if q == key then none else find_slot ss q)
  pub unique : Unique ss'
  pub counts : length ss ≡ suc (length ss')

-- The last entry comes first.
rotate-find :
    (es : List Slot) (e : Slot)
    → find_slot es e.key ≡ none
    → (q : ℕ) → find_slot (e ∷ es) q ≡ find_slot (es ++ (e ∷ [])) q
unfolding find_slot
rotate-find es e absent q = elim (Bool-cases (e.key == q)) [
  | inl here ↦
      let gone : find_slot es q ≡ none =
        ap (find_slot es) (sym ((==_iff e.key q).0 here)) ∙ absent in
      ap (λ b. if b then some e.val else find_slot es q) here
      ∙ sym (
          find_slot-append es (e ∷ []) q
          ∙ ap (λ x. or_else x (find_slot (e ∷ []) q)) gone
          ∙ ap (λ b. if b then some e.val else none) here)
  | inr other ↦
      ap (λ b. if b then some e.val else find_slot es q) other
      ∙ sym (
          find_slot-append es (e ∷ []) q
          ∙ ap (λ b. or_else (find_slot es q) (if b then some e.val else none)) other
          ∙ or_else-none (find_slot es q))
]

-- Without its first entry, a list has lost the key of that.
head-Removed :
    (s : Slot) (ss ss' : List Slot)
    → Unique (s ∷ ss)
    → ((q : ℕ) → find_slot ss' q ≡ find_slot ss q)
    → Unique ss'
    → length ss' ≡ length ss
    → Removed (s ∷ ss) s.key ss'
unfolding find_slot
head-Removed s ss ss' (one, u) same u' counts = record {
  finds = λ q. same q ∙ ground (arith, one);
  unique = u';
  counts = omega (arith, counts);
}

pub cons-Removed :
    (s : Slot) (ss : List Slot) (key : ℕ) (ss' : List Slot)
    → (s.key == key) ≡ false
    → find_slot ss s.key ≡ none
    → Removed ss key ss'
    → Removed (s ∷ ss) key (s ∷ ss')
unfolding find_slot
cons-Removed s ss key ss' other one r = record {
  finds = λ q. let h = r.finds q in ground (arith, other, h);
  unique = (r.finds s.key ∙ ap (λ b. if b then none else find_slot ss s.key) other ∙ one, r.unique);
  counts = omega (arith, r.counts);
}

abbrev after_first : List Slot → List Slot
after_first [] = []
after_first (s ∷ ss) = ss

abbrev first_of : Slot → List Slot → Slot
first_of z [] = z
first_of z (s ∷ ss) = s

-- The key of each entry is found.
at-there :
    (ss : List Slot) (j key : ℕ) → j < length ss → (at ss j).key ≡ key → find_slot ss key ≢ none
unfolding at find_slot
at-there [] j key lt here e = absurd (omega (arith, lt))
at-there (s ∷ ss) zero key lt here e = ground (arith, here, e)
at-there (s ∷ ss) (suc j) key lt here e = elim (Bool-cases (s.key == key)) [
  | inl same ↦ absurd (cc (sym (ap (λ b. if b then some s.val else find_slot ss key) same) ∙ e))
  | inr other ↦
      at-there ss j key (omega (arith, lt)) here
        (sym (ap (λ b. if b then some s.val else find_slot ss key) other) ∙ e)
]

-- The removal of the entry in place `j`: what is left are `es` and the last entry `e`.
pub swap_lem :
    (ss es : List Slot) (e z : Slot) (j key : ℕ)
    → j < length ss
    → (at ss j).key ≡ key
    → Unique ss
    → write_slot ss j z ≡ es ++ (e ∷ [])
    → Removed ss key (write_slot es j e)
unfolding at write_slot
swap_lem [] es e z j key lt here u eq = absurd (omega (arith, lt))
swap_lem (s ∷ ss) [] e z zero key lt here u eq =
    let none_left : ss ≡ [] = ap after_first eq in
    subst (λ k. Removed (s ∷ ss) k []) here
      (head-Removed s ss [] u (λ q. ap (λ ss. find_slot ss q) (sym none_left)) tt
        (ap length (sym none_left)))
swap_lem (s ∷ ss) [] e z (suc j) key lt here u eq =
    let short : length ss ≡ 0 = sym (length-write ss j z) ∙ ap (λ ss. length (after_first ss)) eq in
    absurd (omega (arith, lt, short))
swap_lem (s ∷ ss) (x ∷ es) e z zero key lt here u eq =
    let left : ss ≡ es ++ (e ∷ []) = ap after_first eq in
    let (u', absent) = Unique-before es e (subst Unique left u.1) in
    subst (λ k. Removed (s ∷ ss) k (e ∷ es)) here
      (head-Removed s ss (e ∷ es) u
        (λ q. rotate-find es e absent q ∙ ap (λ ss. find_slot ss q) (sym left)) (absent, u')
        (omega (arith, ap length left, length-append es (e ∷ []))))
swap_lem (s ∷ ss) (x ∷ es) e z (suc j) key lt here u eq =
    let same : s ≡ x = ap (first_of s) eq in
    let found = at-there ss j key (omega (arith, lt)) here in
    let other : (s.key == key) ≡ false = elim (Bool-cases (s.key == key)) [
      | inl taken ↦
          absurd (found (subst (λ k. find_slot ss k ≡ none) ((==_iff s.key key).0 taken) u.0))
      | inr other ↦ other
    ] in
    subst (λ x. Removed (s ∷ ss) key (x ∷ write_slot es j e)) same
      (cons-Removed s ss key (write_slot es j e) other u.0
        (swap_lem ss es e z j key (omega (arith, lt)) here u.1 (ap after_first eq)))
