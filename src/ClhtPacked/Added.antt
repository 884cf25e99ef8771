-- ===== src/ClhtPacked/Added.antt =====
-- OtherTables/src/clht/src/clht_lb_packed.c: an entry behind those of a chain.
use lock_free_hop_scotch.Prelude.{
  ℕ, ◌+◌, ◌≡◌, Bool, true, false, ◌&&◌, List, [], ◌∷◌, ◌++◌, length, Option, none, some, ◌==◌,
  Bool-cases, inl, inr, if◌then◌else◌, refl, sym, ap, subst, ◌∙◌, arith,
}
use lock_free_hop_scotch.ClhtLb.Chain.{Slot, find_slot}
use lock_free_hop_scotch.ClhtLb.Laws.{is_none}
use lock_free_hop_scotch.ClhtPacked.Chain.{Chain}
use lock_free_hop_scotch.ClhtPacked.Entries.{entries, Unique, append_none}
use lock_free_hop_scotch.ClhtPacked.Laws.{length-append}
use lock_free_hop_scotch.ClhtPacked.Put.{PutSays}

module _ (new : Slot) where
  push-find :
      (ss : List Slot) (q : ℕ)
      → find_slot ss new.key ≡ none
      → find_slot (ss ++ (new ∷ [])) q ≡ (if q == new.key then some new.val else find_slot ss q)
  unfolding find_slot
  push-find [] q absent = ground arith
  push-find (s ∷ ss) q absent = elim (Bool-cases (s.key == new.key)) [
    | inl same ↦
        absurd (cc (sym (ap (λ b. if b then some s.val else find_slot ss new.key) same) ∙ absent))
    | inr other ↦
        let h =
          push-find ss q
            (sym (ap (λ b. if b then some s.val else find_slot ss new.key) other) ∙ absent) in
        ground (arith, h, other)
  ]

  push-Unique :
      (ss : List Slot) → find_slot ss new.key ≡ none → Unique ss → Unique (ss ++ (new ∷ []))
  unfolding find_slot
  push-Unique [] absent u = (refl, tt)
  push-Unique (s ∷ ss) absent (one, u) = elim (Bool-cases (s.key == new.key)) [
    | inl same ↦
        absurd (cc (sym (ap (λ b. if b then some s.val else find_slot ss new.key) same) ∙ absent))
    | inr other ↦
        let gone = sym (ap (λ b. if b then some s.val else find_slot ss new.key) other) ∙ absent in
        (
          push-find ss s.key gone
              ∙ ap (λ b. if b then some new.val else find_slot ss s.key) other
              ∙ one,
          push-Unique ss gone u,
        )
  ]

-- A chain after `clht_put`, as a map.
pub record Added (c : Chain) (key val : ℕ) (r : Bool × Chain) : Type 0 where
  pub finds :
      (q : ℕ)
      → find_slot (entries r.1) q ≡ (if q == key && r.0 then some val else find_slot (entries c) q)
  pub unique : Unique (entries r.1)
  pub counts : length (entries r.1) ≡ length (entries c) + (if r.0 then 1 else 0)

pub PutSays-Added :
    (before : ℕ → ℕ) (c : Chain) (key val : ℕ) (r : Bool × Chain)
    → Unique (entries c)
    → PutSays before key val c r
    → Added c key val r
PutSays-Added before c key val (true, c') u says =
    let new : Slot = record { key = key; val = val } in
    let absent = none_is (find_slot (entries c) key) says.result in
    record {
      finds = λ q.
          ap (λ ss. find_slot ss q) says.added
          ∙ push-find new (entries c) q absent
          ∙ ap (λ b. if b then some val else find_slot (entries c) q) (sym (and_true (q == key)));
      unique = subst Unique (sym says.added) (push-Unique new (entries c) absent u);
      counts = ap length says.added ∙ length-append (entries c) (new ∷ []);
    }
  where
    none_is : (x : Option ℕ) → true ≡ is_none x → x ≡ none
    none_is none e = refl
    none_is (some a) e = absurd (cc e)

    and_true : (b : Bool) → (b && true) ≡ b
    and_true true = refl
    and_true false = refl
PutSays-Added before c key val (false, c') u says =
    let same : entries c' ≡ entries c = says.added ∙ append_none (entries c) in
    record {
      finds = λ q.
          ap (λ ss. find_slot ss q) same
          ∙ ap (λ b. if b then some val else find_slot (entries c) q) (sym (and_false (q == key)));
      unique = subst Unique (sym same) u;
      counts = omega (arith, ap length same);
    }
  where
    and_false : (b : Bool) → (b && false) ≡ false
    and_false true = refl
    and_false false = refl
