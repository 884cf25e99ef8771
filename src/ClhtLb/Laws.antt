-- ===== src/ClhtLb/Laws.antt =====
-- OtherTables/src/clht/src/clht_lb.c: what `clht_put` and `clht_remove` do to a chain.
use lock_free_hop_scotch.Prelude.{
  ℕ, ◌+◌, ◌≡◌, ◌≢◌, Bool, true, false, ◌&&◌, List, [], ◌∷◌, ◌++◌, Option, none, some, ◌==◌,
  if◌then◌else◌, refl, arith, subst, Bool-cases, not, sym, ap, ==_iff, ◌∙◌, inl, inr,
}
use mathlib.Core.Option.{some-injective}
use lock_free_hop_scotch.ClhtLb.Chain.{
  exists_slot, bucket_exists, link, last, or_else, Slot, Chain, clht_bucket_create, find_slot, find,
  scan, write_slot, write, append, put, store, new_bucket, value_or_0, remove, removed, remove_from,
  count, size, slots,
}
use lock_free_hop_scotch.ClhtLb.Slots.{
  EmptyAt, absent-rest, Distinct, ScanSays, scan_slots_lem, find-write, write-Distinct, count-write,
  RemoveSays, remove_slot_lem,
}
use lock_free_hop_scotch.ClhtLb.Flat.{
  find-slots, scan-slots, slots-write, slots-append, size-slots, with_slots, remove-slots,
  count-append,
}

abbrev pub is_none : Option ℕ → Bool
is_none none = true
is_none (some v) = false

-- Each key is in one slot of the chain.
abbrev pub IsChain : Chain → Type 0
IsChain c = Distinct (slots c)

-- A chain after `clht_put`.
pub record PutSays (c : Chain) (key val : ℕ) (r : Bool × Chain) : Type 0 where
  pub result : r.0 ≡ is_none (find c key)
  pub finds : (q : ℕ) → q ≢ 0 → find r.1 q ≡ (if q == key && r.0 then some val else find c q)
  pub valid : IsChain r.1
  pub count : size r.1 ≡ size c + (if r.0 then 1 else 0)

-- A change of the chain that is a write of the key into an empty slot, or into a new bucket.
pub written :
    (c c' : Chain) (key val : ℕ)
    → find c key ≡ none
    → ((q : ℕ)
        → q ≢ 0
        → find_slot (slots c') q ≡ (if q == key then some val else find_slot (slots c) q))
    → Distinct (slots c')
    → count (slots c') ≡ count (slots c) + 1
    → PutSays c key val (true, c')
written c c' key val absent finds distinct counts = record {
  result = rw absent refl;
  finds = λ q nz. ground (arith, find-slots c' q, find-slots c q, finds q nz);
  valid = distinct;
  count = size-slots c' ∙ counts ∙ ap (λ n. n + 1) (sym (size-slots c));
}

pub is_none-eq-false : (r : Option ℕ) → r ≢ none → false ≡ is_none r
is_none-eq-false none h = absurd (h refl)
is_none-eq-false (some v) h = refl

module _ (before : ℕ → ℕ) (key val : ℕ) (nz : key ≢ 0) where
  pub find-append-new :
      (ss : List Slot)
      → find_slot ss key ≡ none
      → (q : ℕ) → q ≢ 0
      → find_slot (ss ++ new_bucket before key val) q
        ≡ (if q == key then some val else find_slot ss q)
  unfolding new_bucket clht_bucket_create write_slot find_slot
  find-append-new [] absent q qz = ground arith
  find-append-new (s ∷ ss) absent q qz =
      let (other, absent') = absent-rest s ss key absent in
      let h = find-append-new ss absent' q qz in ground arith

  pub append-Distinct :
      (ss : List Slot)
      → find_slot ss key ≡ none
      → Distinct ss
      → Distinct (ss ++ new_bucket before key val)
  unfolding new_bucket clht_bucket_create write_slot find_slot
  append-Distinct [] absent d =
      (λ h. ground (arith, nz), ((λ h. absurd (h refl)), ((λ h. absurd (h refl)), tt)))
  append-Distinct (s ∷ ss) absent (one, d) =
      let (other, absent') = absent-rest s ss key absent in
      (
        λ h.
            find-append-new ss absent' s.key h
            ∙ ap (λ b. if b then some val else find_slot ss s.key) other
            ∙ one h,
        append-Distinct ss absent' d,
      )

  pub count-new : count (new_bucket before key val) ≡ 1
  unfolding new_bucket clht_bucket_create write_slot count
  count-new = ground (arith, nz)

  store_lem :
      (c : Chain) (r : Option (Option ℕ))
      → ScanSays (slots c) key none 0 r
      → IsChain c
      → PutSays c key val (store before c key val r)
  unfolding store
  store_lem c none present distinct = record {
    result = is_none-eq-false (find c key) (λ e. present (sym (find-slots c key) ∙ e));
    finds = λ q qz. ground arith;
    valid = distinct;
    count = omega arith;
  }
  store_lem c (some none) (absent, _) distinct =
      let bucket = new_bucket before key val in
      written c (append c bucket) key val (find-slots c key ∙ absent)
        (λ q qz.
          ap (λ ss. find_slot ss q) (slots-append c bucket) ∙ find-append-new (slots c) absent q qz)
        (subst Distinct (sym (slots-append c bucket)) (append-Distinct (slots c) absent distinct))
        (ap count (slots-append c bucket)
          ∙ count-append (slots c) bucket
          ∙ ap (λ n. count (slots c) + n) count-new)
  store_lem c (some (some e)) (absent, inl clash) distinct = absurd (cc clash)
  store_lem c (some (some e)) (absent, inr (_, (d, at, empty))) distinct =
      let new : Slot = record { key = key; val = val } in
      let here : EmptyAt (slots c) e =
        subst (EmptyAt (slots c)) (sym (some-injective e d (at ∙ ap some (omega arith)))) empty in
      written c (write c e new) key val (find-slots c key ∙ absent)
        (λ q qz.
          ap (λ ss. find_slot ss q) (slots-write c e new)
          ∙ find-write (slots c) e new here absent q qz)
        (subst Distinct (sym (slots-write c e new))
          (write-Distinct (slots c) e new here absent nz distinct))
        (ap count (slots-write c e new) ∙ count-write (slots c) e new here nz)

  pub put_lem : (c : Chain) → IsChain c → PutSays c key val (put before c key val)
  unfolding put
  put_lem c distinct =
      store_lem c (scan c key none 0)
        (subst (ScanSays (slots c) key none 0) (sym (scan-slots c key none 0))
          (scan_slots_lem (slots c) key none 0))
        distinct

-- A chain after `clht_remove`.
pub record RemoveEffect (c : Chain) (key : ℕ) (r : ℕ × Chain) : Type 0 where
  pub result : r.0 ≡ value_or_0 (find c key)
  pub finds : (q : ℕ) → q ≢ 0 → find r.1 q ≡ (if q == key then none else find c q)
  pub valid : IsChain r.1
  pub count : size c ≡ size r.1 + (if is_none (find c key) then 0 else 1)

removed_lem :
    (c : Chain) (key : ℕ) (r : Option (ℕ × Chain))
    → IsChain c
    → RemoveSays (slots c) key (with_slots r)
    → RemoveEffect c key (removed c r)
removed_lem c key none distinct absent = record {
  result = ap value_or_0 (sym (find-slots c key ∙ absent));
  finds = λ q nz. elim (Bool-cases (q == key)) [
    | inl here ↦ rw here (ap (find c) ((==_iff q key).0 here) ∙ find-slots c key ∙ absent)
    | inr other ↦ rw other refl
  ];
  valid = distinct;
  count = rw (find-slots c key, absent) omega arith;
}
removed_lem c key (some (val, c')) distinct (found, finds, distinct', counts) = record {
  result = ap value_or_0 (sym (find-slots c key ∙ found));
  finds = λ q nz. ground (arith, find-slots c q, find-slots c' q, finds q nz);
  valid = distinct';
  count =
      rw (find-slots c key, found) (size-slots c ∙ counts ∙ ap (λ n. n + 1) (sym (size-slots c')));
}

pub remove_lem : (c : Chain) (key : ℕ) → key ≢ 0 → IsChain c → RemoveEffect c key (remove c key)
unfolding remove
remove_lem c key nz distinct = removed_lem c key (remove_from c key) distinct (
    subst (RemoveSays (slots c) key) (sym (remove-slots c key))
      (remove_slot_lem (slots c) key nz distinct))

-- `bucket_exists` says whether the key has a value.
exists_slot_lem : (ss : List Slot) (key : ℕ) → exists_slot ss key ≡ not (is_none (find_slot ss key))
unfolding exists_slot find_slot
exists_slot_lem [] key = refl
exists_slot_lem (s ∷ ss) key =
    let h = exists_slot_lem ss key in
    elim (Bool-cases (s.key == key)) [ inl here ↦ rw here refl | inr other ↦ rw other h ]

or_else-some :
    (a b : Option ℕ)
    → (if not (is_none a) then true else not (is_none b)) ≡ not (is_none (or_else a b))
or_else-some none b = refl
or_else-some (some v) b = refl

pub bucket_exists_lem : (c : Chain) (key : ℕ) → bucket_exists c key ≡ not (is_none (find c key))
unfolding bucket_exists find
bucket_exists_lem (last ss) key = exists_slot_lem ss key
bucket_exists_lem (link ss next) key =
    ap (λ b. if b then true else bucket_exists next key) (exists_slot_lem ss key)
    ∙ ap (λ e. if not (is_none (find_slot ss key)) then true else e) (bucket_exists_lem next key)
    ∙ or_else-some (find_slot ss key) (find next key)

pub none_of : (r : Option ℕ) → false ≡ not (is_none r) → r ≡ none
none_of none h = refl
none_of (some v) h = absurd (cc h)
