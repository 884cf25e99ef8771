-- ===== src/ClhtLb/Seq/Laws.antt =====
-- OtherTables/src/clht/src/clht_lb.c: what `bucket_cpy` copies.
use lock_free_hop_scotch.Prelude.{
  ℕ, ◌≡◌, ◌≢◌, Bool, true, false, ◌&&◌, List, [], ◌∷◌, ◌++◌, Option, none, some, ◌==◌, ==_iff,
  Bool-cases, inl, inr, if◌then◌else◌, refl, sym, ap, subst, ◌∙◌, arith, update,
}
use mathlib.Core.Option.{some-injective}
use lock_free_hop_scotch.ClhtLb.Chain.{
  Slot, Chain, last, link, find_slot, or_else, find, slots, put,
}
use lock_free_hop_scotch.ClhtLb.Flat.{find-slots}
use lock_free_hop_scotch.ClhtLb.Table.{Locked, Table, clht_hash, lock_acq, put_locked}
use lock_free_hop_scotch.ClhtLb.Replace.{IsTable, lookup, clht_hash-IsIndex}
use lock_free_hop_scotch.ClhtLb.Laws.{is_none}
use lock_free_hop_scotch.ClhtLb.Refinement.{PutTable, acquired, put_locked_lem}
use lock_free_hop_scotch.ClhtLb.Seq.{clht_put_seq, copy_slots, copy_chain, locked_cpy, bucket_cpy}

-- `clht_put_seq` does what `clht_put` does under its lock.
put_locked-clht_put_seq :
    (before : ℕ → ℕ) (t : Table) (key val : ℕ)
    → IsTable t
    → put_locked before t (clht_hash t key) key val (lock_acq (t.table (clht_hash t key)))
      ≡ some (clht_put_seq before t key val (clht_hash t key))
unfolding clht_put_seq
put_locked-clht_put_seq before t key val v =
    let bin = clht_hash t key in
    let b = t.table bin in
    let free = v.free bin (clht_hash-IsIndex t v key) in
    let r = put before b.chain key val in
    ap (put_locked before t bin key val) (acquired b free)
    ∙ ap
        (λ l.
          some (r.0, record t { table = update t.table bin (record { lock = l; chain = r.1 }) }))
        (sym free)

pub clht_put_seq-PutTable :
    (before : ℕ → ℕ) (t : Table) (key val : ℕ)
    → IsTable t
    → key ≢ 0
    → PutTable t key val (clht_put_seq before t key val (clht_hash t key))
clht_put_seq-PutTable before t key val v nz =
    let (r, runs, says) = put_locked_lem before t key val v nz in
    let same = some-injective _ _ (sym runs ∙ put_locked-clht_put_seq before t key val v) in
    subst (PutTable t key val) same says

-- The key itself, where it has a value.
abbrev pub own_key : ℕ → Option ℕ → Option ℕ
own_key q none = none
own_key q (some v) = some q

-- The keys of the slots have been put, each as its own value, where the key was absent.
record CopiedKeys (look : ℕ → Option ℕ) (t t' : Table) : Type 0 where
  lookups : (q : ℕ) → q ≢ 0 → lookup t' q ≡ or_else (lookup t q) (own_key q (look q))
  valid : IsTable t'

put_first :
    (a z : Option ℕ) (q : ℕ) → or_else (if is_none a then some q else a) z ≡ or_else a (some q)
put_first none z q = refl
put_first (some v) z q = refl

find_slot_other :
    (s : Slot) (ss : List Slot) (q : ℕ)
    → (s.key == q) ≡ false
    → find_slot (s ∷ ss) q ≡ find_slot ss q
unfolding find_slot
find_slot_other s ss q other = rw other refl

find_slot_here :
    (s : Slot) (ss : List Slot) (q : ℕ) → (s.key == q) ≡ true → find_slot (s ∷ ss) q ≡ some s.val
unfolding find_slot
find_slot_here s ss q here = rw here refl

or_else-none : (a : Option ℕ) → a ≡ or_else a none
or_else-none none = refl
or_else-none (some v) = refl

-- The entry of one slot is put, and then those of the others.
put-CopiedKeys :
    (t t1 t2 : Table) (s : Slot) (ss : List Slot) (done : Bool)
    → PutTable t s.key s.key (done, t1)
    → CopiedKeys (find_slot ss) t1 t2
    → CopiedKeys (find_slot (s ∷ ss)) t t2
put-CopiedKeys t t1 t2 s ss done puts rest = record {
  lookups = λ q nz. rest.lookups q nz ∙ elim (Bool-cases (s.key == q)) [
    | inl here ↦
        let same : s.key ≡ q = (==_iff s.key q).0 here in
        let first : lookup t1 q ≡ (if is_none (lookup t q) then some q else lookup t q) =
          puts.lookups q nz
          ∙ ap (λ k. if q == k && done then some k else lookup t q) same
          ∙ ap (λ b. if b && done then some q else lookup t q) ((==_iff q q).1 refl)
          ∙ ap (λ b. if b then some q else lookup t q)
              (puts.result ∙ ap (λ k. is_none (lookup t k)) same) in
        ap (λ a. or_else a (own_key q (find_slot ss q))) first
        ∙ put_first (lookup t q) (own_key q (find_slot ss q)) q
        ∙ ap (λ x. or_else (lookup t q) (own_key q x)) (sym (find_slot_here s ss q here))
    | inr other ↦
        let differ : (q == s.key) ≡ false = ground (arith, other) in
        ap (λ a. or_else a (own_key q (find_slot ss q)))
          (puts.lookups q nz ∙ ap (λ b. if b && done then some s.key else lookup t q) differ)
        ∙ ap (λ x. or_else (lookup t q) (own_key q x)) (sym (find_slot_other s ss q other))
  ];
  valid = rest.valid;
}

copy_slots-CopiedKeys :
    (before : ℕ → ℕ) (ss : List Slot) (t : Table)
    → IsTable t
    → CopiedKeys (find_slot ss) t (copy_slots before ss t)
unfolding copy_slots find_slot
copy_slots-CopiedKeys before [] t v = record {
  lookups = λ q nz. or_else-none (lookup t q);
  valid = v;
}
copy_slots-CopiedKeys before (s ∷ ss) t v =
    let put = clht_put_seq before t s.key s.key (clht_hash t s.key) in
    elim (Bool-cases (s.key == 0)) [
      | inl empty ↦
          let rest = copy_slots-CopiedKeys before ss t v in
          subst (λ u. CopiedKeys (find_slot (s ∷ ss)) t (copy_slots before ss u))
            (sym (ap (λ b. if b then t else put.1) empty))
            (record {
              lookups = λ q nz.
                  rest.lookups q nz
                  ∙ ap (λ x. or_else (lookup t q) (own_key q x))
                      (sym (find_slot_other s ss q (ground (arith, empty, nz))));
              valid = rest.valid;
            })
      | inr taken ↦
          let puts = clht_put_seq-PutTable before t s.key s.key v (ground (arith, taken)) in
          subst (λ u. CopiedKeys (find_slot (s ∷ ss)) t (copy_slots before ss u))
            (sym (ap (λ b. if b then t else put.1) taken))
            (put-CopiedKeys t put.1 (copy_slots before ss put.1) s ss put.0 puts
              (copy_slots-CopiedKeys before ss put.1 puts.valid))
    ]

-- A chain is copied slot by slot.
copy_slots-append :
    (before : ℕ → ℕ) (xs ys : List Slot) (t : Table)
    → copy_slots before (xs ++ ys) t ≡ copy_slots before ys (copy_slots before xs t)
unfolding copy_slots
copy_slots-append before [] ys t = refl
copy_slots-append before (x ∷ xs) ys t = copy_slots-append before xs ys _

copy_chain-slots :
    (before : ℕ → ℕ) (c : Chain) (t : Table) → copy_chain before c t ≡ copy_slots before (slots c) t
unfolding copy_chain slots
copy_chain-slots before (last ss) t = refl
copy_chain-slots before (link ss next) t =
    copy_chain-slots before next (copy_slots before ss t)
    ∙ sym (copy_slots-append before ss (slots next) t)

-- With the lock of the old bucket free, and a table to copy to, `bucket_cpy` ends. It leaves the
-- lock taken and the old chain as it was. A key, other than 0, that the table has keeps its value;
-- any other key of the old chain is in the table then, with itself as its value; and no key else.
pub bucket_cpy_lem :
    (before : ℕ → ℕ) (b : Locked) (t : Table)
    → b.lock ≡ 0
    → IsTable t
    → (r : Table) × (bucket_cpy before b t ≡ some (record b { lock = 1 }, r))
      × IsTable r
      × ((q : ℕ) → q ≢ 0 → lookup r q ≡ or_else (lookup t q) (own_key q (find b.chain q)))
unfolding bucket_cpy
bucket_cpy_lem before b t free v =
    let copied = copy_slots-CopiedKeys before (slots b.chain) t v in
    let all = copy_chain-slots before b.chain t in
    (
      copy_chain before b.chain t,
      ap (locked_cpy before t) (acquired b free),
      subst IsTable (sym all) copied.valid,
      λ q nz.
          ap (λ r. lookup r q) all
          ∙ copied.lookups q nz
          ∙ ap (λ x. or_else (lookup t q) (own_key q x)) (sym (find-slots b.chain q)),
    )
