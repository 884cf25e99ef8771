-- ===== src/ClhtLbRes/Copy.antt =====
-- OtherTables/src/clht/src/clht_lb_res.c: the loops that copy a table into a new one.
use lock_free_hop_scotch.Prelude.{
  ℕ, ◌+◌, ◌≤◌, ◌≡◌, ◌≢◌, List, [], ◌∷◌, ◌++◌, Option, none, some, ◌==◌, ==_iff, Bool-cases, inl,
  inr, if◌then◌else◌, refl, sym, ap, subst, ◌∙◌, arith,
}
use lock_free_hop_scotch.ClhtLb.Chain.{
  Slot, Chain, last, link, find_slot, or_else, find, count, size, slots,
}
use lock_free_hop_scotch.ClhtLb.Slots.{Distinct, find-here, find-other}
use lock_free_hop_scotch.ClhtLb.Flat.{find-slots, size-slots}
use lock_free_hop_scotch.ClhtLb.Laws.{IsChain}
use lock_free_hop_scotch.ClhtLbRes.Table.{Table, clht_hash, clht_size, clht_put_seq}
use lock_free_hop_scotch.ClhtLbRes.Status.{copy_slots, copy_chain}
use lock_free_hop_scotch.ClhtLbRes.Change.{lookup, IsTable}
use lock_free_hop_scotch.ClhtLbRes.Locked.{clht_put_seq_lem}

-- `t'` is `t` with `n` more entries, whose keys and values are those of `look`.
pub record Copied (look : ℕ → Option ℕ) (n : ℕ) (t t' : Table) : Type 0 where
  pub lookups : (q : ℕ) → q ≢ 0 → lookup t' q ≡ or_else (look q) (lookup t q)
  pub valid : IsTable t'
  pub sizes : clht_size t' ≡ clht_size t + n
  pub buckets : t'.num_buckets ≡ t.num_buckets
  pub expands : t'.num_expands ≤ t.num_expands + n

-- No key of the slots is in the table.
abbrev pub NoneIn : (ℕ → Option ℕ) → Table → Type 0
NoneIn look t = (q : ℕ) → q ≢ 0 → look q ≢ none → lookup t q ≡ none

-- A new entry, put with no search.
put-Copied :
    (before : ℕ → ℕ) (t : Table) (key val : ℕ)
    → key ≢ 0
    → IsTable t
    → lookup t key ≡ none
    → Copied
        (λ q. if key == q then some val else none)
        1
        t
        (clht_put_seq before t key val (clht_hash t key))
put-Copied before t key val nz v absent =
    let put = clht_put_seq_lem t key val nz v before absent in
    record {
      lookups = λ q qz. ground (arith, put.lookups q qz);
      valid = put.valid;
      sizes = put.sizes;
      buckets = put.buckets;
      expands = put.expands;
    }

-- More of the same.
pub Copied-same :
    (look look' : ℕ → Option ℕ) (n n' : ℕ) (t t' : Table)
    → ((q : ℕ) → q ≢ 0 → look' q ≡ look q)
    → n' ≡ n
    → Copied look n t t'
    → Copied look' n' t t'
Copied-same look look' n n' t t' same eq c = record {
  lookups = λ q nz. c.lookups q nz ∙ ap (λ x. or_else x (lookup t q)) (sym (same q nz));
  valid = c.valid;
  sizes = omega (arith, eq, c.sizes);
  buckets = c.buckets;
  expands = omega (arith, eq, c.expands);
}

or_else_assoc : (a b c : Option ℕ) → or_else a (or_else b c) ≡ or_else (or_else a b) c
or_else_assoc none b c = refl
or_else_assoc (some x) b c = refl

-- One copy after another.
pub Copied-trans :
    (first rest : ℕ → Option ℕ) (n m : ℕ) (t t1 t2 : Table)
    → Copied first n t t1
    → Copied rest m t1 t2
    → Copied (λ q. or_else (rest q) (first q)) (m + n) t t2
Copied-trans first rest n m t t1 t2 a b = record {
  lookups = λ q nz.
      b.lookups q nz
      ∙ ap (or_else (rest q)) (a.lookups q nz)
      ∙ or_else_assoc (rest q) (first q) (lookup t q);
  valid = b.valid;
  sizes = omega (arith, a.sizes, b.sizes);
  buckets = b.buckets ∙ a.buckets;
  expands = omega (arith, a.expands, b.expands);
}

pub or_else-none : (x : Option ℕ) → or_else x none ≡ x
or_else-none none = refl
or_else-none (some a) = refl

-- A key that is not in the rest is found in the same order.
put_first :
    (s : Slot) (ss : List Slot)
    → find_slot ss s.key ≡ none
    → (q : ℕ)
    → find_slot (s ∷ ss) q ≡ or_else (find_slot ss q) (if s.key == q then some s.val else none)
put_first s ss one q = elim (Bool-cases (s.key == q)) [
  | inl here ↦
      find-here s ss q here
      ∙ sym (
          ap (λ k. or_else (find_slot ss k) (if s.key == q then some s.val else none))
            (sym ((==_iff s.key q).0 here))
          ∙ ap (λ x. or_else x (if s.key == q then some s.val else none)) one
          ∙ ap (λ b. if b then some s.val else none) here)
  | inr other ↦
      find-other s ss q other
      ∙ sym (
          ap (λ b. or_else (find_slot ss q) (if b then some s.val else none)) other
          ∙ or_else-none (find_slot ss q))
]

module _ (before : ℕ → ℕ) where
  copy_slots_lem :
      (ss : List Slot) (t : Table)
      → IsTable t
      → Distinct ss
      → NoneIn (find_slot ss) t
      → Copied (find_slot ss) (count ss) t (copy_slots before ss t)
  unfolding copy_slots find_slot count
  copy_slots_lem [] t v distinct apart = record {
    lookups = λ q nz. refl;
    valid = v;
    sizes = omega arith;
    buckets = refl;
    expands = omega arith;
  }
  copy_slots_lem (s ∷ ss) t v (one, distinct) apart = elim (Bool-cases (s.key == 0)) [
    | inl empty ↦
        let zero_key = (==_iff s.key 0).0 empty in
        let rest =
          copy_slots_lem ss t v distinct
            (λ q nz there. apart q nz (ground (arith, zero_key, nz, there))) in
        subst (Copied (find_slot (s ∷ ss)) (count (s ∷ ss)) t)
          (sym (
            ap
              (λ b.
                copy_slots before ss
                  (if b then t else clht_put_seq before t s.key s.val (clht_hash t s.key)))
              empty))
          (Copied-same (find_slot ss) (find_slot (s ∷ ss)) (count ss) (count (s ∷ ss)) t
            (copy_slots before ss t) (λ q nz. ground (arith, zero_key, nz))
            (ground (arith, zero_key)) rest)
    | inr taken ↦
        let nz : s.key ≢ 0 = λ e. ground (arith, e, taken) in
        let t1 = clht_put_seq before t s.key s.val (clht_hash t s.key) in
        let first : ℕ → Option ℕ = λ q. if s.key == q then some s.val else none in
        let absent = apart s.key nz (λ e. ground (arith, e)) in
        let put = put-Copied before t s.key s.val nz v absent in
        let rest = copy_slots_lem ss t1 put.valid distinct (λ q qz there.
          elim (Bool-cases (s.key == q)) [
            | inl here ↦
                absurd
                  (there (subst (λ k. find_slot ss k ≡ none) ((==_iff s.key q).0 here) (one nz)))
            | inr other ↦
                put.lookups q qz
                ∙ ap (λ b. or_else (if b then some s.val else none) (lookup t q)) other
                ∙ apart q qz (λ e. there (sym (find-other s ss q other) ∙ e))
          ]) in
        subst (Copied (find_slot (s ∷ ss)) (count (s ∷ ss)) t)
          (sym (ap (λ b. copy_slots before ss (if b then t else t1)) taken))
          (Copied-same (λ q. or_else (find_slot ss q) (first q)) (find_slot (s ∷ ss)) (count ss + 1)
            (count (s ∷ ss)) t (copy_slots before ss t1) (λ q qz. put_first s ss (one nz) q)
            (ground (arith, nz))
            (Copied-trans first (find_slot ss) 1 (count ss) t t1 (copy_slots before ss t1) put
              rest))
  ]

  copy_slots-append :
      (xs ys : List Slot) (t : Table)
      → copy_slots before (xs ++ ys) t ≡ copy_slots before ys (copy_slots before xs t)
  unfolding copy_slots
  copy_slots-append [] ys t = refl
  copy_slots-append (x ∷ xs) ys t =
      copy_slots-append xs ys
        (if x.key == 0 then t else clht_put_seq before t x.key x.val (clht_hash t x.key))

  copy_chain-slots : (c : Chain) (t : Table) → copy_chain before c t ≡ copy_slots before (slots c) t
  unfolding copy_chain slots
  copy_chain-slots (last ss) t = refl
  copy_chain-slots (link ss next) t =
      copy_chain-slots next (copy_slots before ss t) ∙ sym (copy_slots-append ss (slots next) t)

  -- A chain is copied whole.
  pub copy_chain_lem :
      (c : Chain) (t : Table)
      → IsTable t
      → IsChain c
      → NoneIn (find c) t
      → Copied (find c) (size c) t (copy_chain before c t)
  copy_chain_lem c t v distinct apart =
      subst (Copied (find c) (size c) t) (sym (copy_chain-slots c t)) (
        Copied-same (find_slot (slots c)) (find c) (count (slots c)) (size c) t
          (copy_slots before (slots c) t) (λ q nz. find-slots c q) (size-slots c)
          (copy_slots_lem (slots c) t v distinct
            (λ q nz there. apart q nz (λ e. there (sym (find-slots c q) ∙ e)))))
