-- ===== src/Workload/Split.antt =====
-- OurTable/src/workload.h: what `workSplit` gives to the threads.
use lock_free_hop_scotch.Prelude.{
  ℕ, zero, suc, ◌+◌, ◌-◌, ◌*◌, ◌/◌, ◌<◌, ◌≤◌, ◌≡◌, ◌≢◌, true, false, List, ◌∷◌, length, Option,
  none, some, ◌==◌, Bool-cases, inl, inr, if◌then◌else◌, update, update_same, update_other, refl,
  sym, ap, subst, ◌∙◌, arith, ℕ_discrete,
}
use lock_free_hop_scotch.Prelude.Options.{◌>>=◌}
use native.Mathlib.Nat.{div-mul-le_self}
use lock_free_hop_scotch.Workload.{Workload, find_key, new_key, copy, add_new, add_old, work_split}
use lock_free_hop_scotch.Workload.Keys.{Hits, new_key_lem, find-cons, Distinct}

copy_lem :
    (n offset : ℕ) (from to : ℕ → ℕ) (i : ℕ) → i < n → copy n offset from to i ≡ from (i + offset)
unfolding copy
copy_lem zero offset from to i lt = absurd (omega (arith, lt))
copy_lem (suc n) offset from to i lt = elim (ℕ_discrete i n) [
  | yes last ↦
      ap (update (copy n offset from to) n (from (n + offset))) last
      ∙ update_same (copy n offset from to) n (from (n + offset))
      ∙ ap (λ i. from (i + offset)) (sym last)
  | no earlier ↦
      update_other (copy n offset from to) n (from (n + offset)) earlier
      ∙ copy_lem n offset from to i (omega (arith, lt, earlier))
]

add_old_lem :
    (n half : ℕ) (from to : ℕ → ℕ) (i : ℕ) → i < n → add_old n half from to (half + i) ≡ from i
unfolding add_old
add_old_lem zero half from to i lt = absurd (omega (arith, lt))
add_old_lem (suc n) half from to i lt = elim (ℕ_discrete i n) [
  | yes last ↦
      ap (λ i. update (add_old n half from to) (half + n) (from n) (half + i)) last
      ∙ update_same (add_old n half from to) (half + n) (from n)
      ∙ ap from (sym last)
  | no earlier ↦
      update_other (add_old n half from to) (half + n) (from n) (λ e. earlier (omega (arith, e)))
      ∙ add_old_lem n half from to i (omega (arith, lt, earlier))
]

add_old-below : (n half : ℕ) (from to : ℕ → ℕ) (i : ℕ) → i < half → add_old n half from to i ≡ to i
unfolding add_old
add_old-below zero half from to i lt = refl
add_old-below (suc n) half from to i lt =
    update_other (add_old n half from to) (half + n) (from n) (λ e. omega (arith, e, lt))
    ∙ add_old-below n half from to i lt

-- The rounds add keys that are not in the map, and change nothing else of the split.
record Added (n : ℕ) (w w' : Workload) : Type 0 where
  absent : (i : ℕ) → i < n → find_key w.dataset (w'.adds i) ≡ false
  kept : (q : ℕ) → find_key w.dataset q ≡ true → find_key w'.dataset q ≡ true
  count : length w'.dataset ≡ length w.dataset + n
  look_ups : w'.look_ups ≡ w.look_ups
  removes : w'.removes ≡ w.removes
  store : w'.store ≡ w.store
  tcx : w'.tcx ≡ w.tcx
  tix : w'.tix ≡ w.tix
  trx : w'.trx ≡ w.trx

add_new_lem :
    (fuel : ℕ) (rand : ℕ → ℕ) (limit n : ℕ) (w : Workload)
    → Hits fuel rand limit
    → length w.dataset + n ≤ limit
    → (w' : Workload) × (add_new fuel rand n w ≡ some w') × Added n w w'
unfolding add_new
add_new_lem fuel rand limit zero w hits le = (
  w,
  refl,
  record {
    absent = λ i lt. absurd (omega (arith, lt));
    kept = λ q there. there;
    count = omega arith;
    look_ups = refl;
    removes = refl;
    store = refl;
    tcx = refl;
    tix = refl;
    trx = refl;
  },
)
add_new_lem fuel rand limit (suc n) w hits le =
    let (w1, eq, a) = add_new_lem fuel rand limit n w hits (omega (arith, le)) in
    let (r, found, fresh) =
      new_key_lem fuel rand limit w1.calls w1.dataset hits (omega (arith, le, a.count)) in
    let put : ℕ × ℕ → Option Workload = λ r.
      some (record w1 { dataset = r.0 ∷ w1.dataset; adds = update w1.adds n r.0; calls = r.1 }) in
    (
      record w1 { dataset = r.0 ∷ w1.dataset; adds = update w1.adds n r.0; calls = r.1 },
      ap
            (λ o. o >>= λ w'. new_key fuel rand w'.calls w'.dataset >>= λ r.
              some (record w' {
                dataset = r.0 ∷ w'.dataset;
                adds = update w'.adds n r.0;
                calls = r.1;
              }))
            eq
          ∙ ap (λ o. o >>= put) found,
      record {
        absent = λ i lt. elim (ℕ_discrete i n) [
          | yes last ↦
              subst (λ k. find_key w.dataset k ≡ false)
                (sym (ap (update w1.adds n r.0) last ∙ update_same w1.adds n r.0))
                (not_before w.dataset w1.dataset r.0 a.kept fresh.0)
          | no earlier ↦
              subst (λ k. find_key w.dataset k ≡ false) (sym (update_other w1.adds n r.0 earlier))
                (a.absent i (omega (arith, lt, earlier)))
        ];
        kept = λ q there. find-cons r.0 w1.dataset q (a.kept q there);
        count = omega (arith, a.count);
        look_ups = a.look_ups;
        removes = a.removes;
        store = a.store;
        tcx = a.tcx;
        tix = a.tix;
        trx = a.trx;
      },
    )
  where
    not_before :
        (old new : List ℕ) (key : ℕ)
        → ((q : ℕ) → find_key old q ≡ true → find_key new q ≡ true)
        → find_key new key ≡ false
        → find_key old key ≡ false
    not_before old new key kept absent = elim (Bool-cases (find_key old key)) [
      | inl there ↦ absurd (cc (sym absent ∙ kept key there))
      | inr gone ↦ gone
    ]

-- What the threads get.
pub record IsSplit (w : Workload) (n no_contains no_inserts no_remove threads : ℕ) (w' : Workload)
    : Type 0 where
  pub removes : (i : ℕ) → i < no_remove → w'.removes i ≡ w.store i
  pub look_ups : (i : ℕ) → i < no_contains → w'.look_ups i ≡ w.store (i + no_remove)
  pub apart : (i j : ℕ) → i < no_remove → j < no_contains → w'.removes i ≢ w'.look_ups j
  pub fresh : (i j : ℕ) → i < no_inserts / 2 → j < n → w'.adds i ≢ w.store j
  pub again :
      (i : ℕ) → i < no_inserts - no_inserts / 2 → w'.adds (no_inserts / 2 + i) ≡ w'.look_ups i
  pub shares :
      (w'.tcx * threads ≤ no_contains)
      × (w'.tix * threads ≤ no_inserts)
      × (w'.trx * threads ≤ no_remove)

-- Let the `n` keys of the store be different and in the map, as the constructor leaves them with
-- the offset 0; let there be as many keys as are to be removed and looked up, and a thread; and let
-- rand() hit a new key within `fuel` calls as long as there are less than n and half of the inserts.
-- Then `workSplit` ends. The keys to remove are the first of the store, those to look up the next
-- ones, and none of these is removed; the first half of the keys to insert are not in the store,
-- the others are the words of lookUps in order; and the shares of the threads together are no more
-- than there are keys.
pub work_split_lem :
    (fuel : ℕ) (rand : ℕ → ℕ) (w : Workload) (n no_contains no_inserts no_remove threads : ℕ)
    → Hits fuel rand (n + no_inserts / 2)
    → Distinct w.dataset w.store n
    → length w.dataset ≡ n
    → w.offset ≡ 0
    → no_remove + no_contains ≤ n
    → threads ≢ 0
    → (w' : Workload) × (work_split fuel rand w no_contains no_inserts no_remove threads ≡ some w')
      × IsSplit w n no_contains no_inserts no_remove threads w'
unfolding work_split
work_split_lem fuel rand w n no_contains no_inserts no_remove threads hits d count start le
      some_thread =
    let split : Workload = record w {
      tcx = no_contains / threads;
      tix = no_inserts / threads;
      trx = no_remove / threads;
      look_ups = copy no_contains no_remove w.store w.look_ups;
      removes = copy no_remove w.offset w.store w.removes;
      offset = no_remove;
    } in
    let half = no_inserts / 2 in
    let (w1, eq, a) = add_new_lem fuel rand (n + half) half split hits (omega (arith, count)) in
    let finish : Option Workload → Option Workload = λ o. o >>= λ w'.
    some (record w' { adds = add_old (no_inserts - half) half w'.look_ups w'.adds }) in
    let positive : (threads == 0) ≡ false = ground (arith, some_thread) in
    let removes : (i : ℕ) → i < no_remove → w1.removes i ≡ w.store i = λ i lt.
      ap (λ f. f i) a.removes
      ∙ copy_lem no_remove w.offset w.store w.removes i lt
      ∙ ap w.store (omega (arith, start)) in
    let look_ups : (i : ℕ) → i < no_contains → w1.look_ups i ≡ w.store (i + no_remove) =
      λ i lt. ap (λ f. f i) a.look_ups ∙ copy_lem no_contains no_remove w.store w.look_ups i lt in
    (
      record w1 { adds = add_old (no_inserts - half) half w1.look_ups w1.adds },
      ap (λ b. if b then none else finish (add_new fuel rand half split)) positive ∙ ap finish eq,
      record {
        removes = removes;
        look_ups = look_ups;
        apart = λ i j lt lt' same.
            d.different (j + no_remove) i (omega (arith, lt', le)) (omega (arith, lt))
              (sym (look_ups j lt') ∙ sym same ∙ removes i lt);
        fresh = λ i j lt lt' same.
            let key = add_old-below (no_inserts - half) half w1.look_ups w1.adds i lt in
            absurd
              (cc (sym (a.absent i lt) ∙ ap (find_key w.dataset) (sym key ∙ same) ∙ d.there j lt'));
        again = λ i lt. add_old_lem (no_inserts - half) half w1.look_ups w1.adds i lt;
        shares = (
          omega (arith, ap (λ m. m * threads) a.tcx, div-mul-le_self no_contains threads),
          omega (arith, ap (λ m. m * threads) a.tix, div-mul-le_self no_inserts threads),
          omega (arith, ap (λ m. m * threads) a.trx, div-mul-le_self no_remove threads),
        );
      },
    )
