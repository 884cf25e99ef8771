-- ===== src/Workload/Keys.antt =====
-- OurTable/src/workload.h: the keys that the constructor chooses.
use lock_free_hop_scotch.Prelude.{
  ℕ, zero, suc, ◌+◌, ◌*◌, ◌<◌, ◌≤◌, ◌≡◌, ◌≢◌, true, false, List, [], ◌∷◌, length, Option, some,
  Bool-cases, inl, inr, if◌then◌else◌, update, update_same, update_other, refl, sym, ap, subst, ◌∙◌,
  arith, ℕ_discrete,
}
use lock_free_hop_scotch.Prelude.Options.{◌>>=◌}
use lock_free_hop_scotch.Workload.{Workload, find_key, key_from, new_key, fill_store, workload}

-- For each set of less than `limit` keys and each call there is one of the next `fuel` calls of
-- rand() that gives a key outside the set.
abbrev pub Hits : ℕ → (ℕ → ℕ) → ℕ → Type 0
Hits fuel rand limit =
    (k : ℕ) (ks : List ℕ)
    → length ks < limit
    → (d : ℕ) × (d < fuel) × (find_key ks (key_from (rand (k + d))) ≡ false)

-- A key that is new.
abbrev pub IsFresh : List ℕ → ℕ → Type 0
IsFresh ks key = (find_key ks key ≡ false) × (1 ≤ key) × (key ≤ 1024 * 1024 * 100)

new_key_at :
    (fuel : ℕ) (rand : ℕ → ℕ) (k : ℕ) (ks : List ℕ) (d : ℕ)
    → d < fuel
    → find_key ks (key_from (rand (k + d))) ≡ false
    → (r : ℕ × ℕ) × (new_key fuel rand k ks ≡ some r) × IsFresh ks r.0
unfolding new_key
new_key_at zero rand k ks d lt absent = absurd (omega (arith, lt))
new_key_at (suc fuel) rand k ks zero lt absent =
    let now : ℕ × ℕ = (key_from (rand k), suc k) in
    let free : find_key ks (key_from (rand k)) ≡ false =
      ap (λ j. find_key ks (key_from (rand j))) (let e : k ≡ k + 0 = omega arith in e) ∙ absent in
    (
      now,
      ap (λ b. if b then new_key fuel rand (suc k) ks else some now) free,
      (free, omega arith, omega arith),
    )
new_key_at (suc fuel) rand k ks (suc d) lt absent =
    let now : ℕ × ℕ = (key_from (rand k), suc k) in
    elim (Bool-cases (find_key ks (key_from (rand k)))) [
      | inr free ↦ (
        now,
        ap (λ b. if b then new_key fuel rand (suc k) ks else some now) free,
        (free, omega arith, omega arith),
      )
      | inl taken ↦
          let (r, eq, fresh) = new_key_at fuel rand (suc k) ks d (omega (arith, lt)) (
            ap (λ j. find_key ks (key_from (rand j)))
              (let e : suc k + d ≡ k + suc d = omega arith in e)
            ∙ absent) in
          (r, ap (λ b. if b then new_key fuel rand (suc k) ks else some now) taken ∙ eq, fresh)
    ]

pub new_key_lem :
    (fuel : ℕ) (rand : ℕ → ℕ) (limit k : ℕ) (ks : List ℕ)
    → Hits fuel rand limit
    → length ks < limit
    → (r : ℕ × ℕ) × (new_key fuel rand k ks ≡ some r) × IsFresh ks r.0
new_key_lem fuel rand limit k ks hits few =
    let (d, lt, absent) = hits k ks few in new_key_at fuel rand k ks d lt absent

pub find-cons : (k : ℕ) (ks : List ℕ) (q : ℕ) → find_key ks q ≡ true → find_key (k ∷ ks) q ≡ true
unfolding find_key
find-cons k ks q there = ground (arith, there)

pub find_self : (k : ℕ) (ks : List ℕ) → find_key (k ∷ ks) k ≡ true
unfolding find_key
find_self k ks = ground arith

-- The first `n` keys of an array are in a set, in range, and all different.
pub record Distinct (ks : List ℕ) (store : ℕ → ℕ) (n : ℕ) : Type 0 where
  pub there : (i : ℕ) → i < n → find_key ks (store i) ≡ true
  pub range : (i : ℕ) → i < n → (1 ≤ store i) × (store i ≤ 1024 * 1024 * 100)
  pub different : (i j : ℕ) → i < n → j < i → store i ≢ store j

new_Distinct :
    (ks : List ℕ) (store : ℕ → ℕ) (n key : ℕ)
    → Distinct ks store n
    → IsFresh ks key
    → Distinct (key ∷ ks) (update store n key) (suc n)
new_Distinct ks store n key d (absent, low, high) = record {
  there = λ i lt. elim (ℕ_discrete i n) [
    | yes last ↦
        subst (λ k. find_key (key ∷ ks) k ≡ true)
          (sym (ap (update store n key) last ∙ update_same store n key)) (find_self key ks)
    | no earlier ↦
        subst (λ k. find_key (key ∷ ks) k ≡ true) (sym (update_other store n key earlier))
          (find-cons key ks (store i) (d.there i (omega (arith, lt, earlier))))
  ];
  range = λ i lt. elim (ℕ_discrete i n) [
    | yes last ↦
        subst (λ k. (1 ≤ k) × (k ≤ 1024 * 1024 * 100))
          (sym (ap (update store n key) last ∙ update_same store n key)) (low, high)
    | no earlier ↦
        subst (λ k. (1 ≤ k) × (k ≤ 1024 * 1024 * 100)) (sym (update_other store n key earlier))
          (d.range i (omega (arith, lt, earlier)))
  ];
  different = λ i j lt before same.
      let old = update_other store n key {j = j} (λ e. omega (arith, e, lt, before)) in
      elim (ℕ_discrete i n) [
        | yes last ↦
            let is : key ≡ store j =
              sym (ap (update store n key) last ∙ update_same store n key) ∙ same ∙ old in
            absurd (cc (sym absent ∙ ap (find_key ks) is ∙ d.there j (omega (arith, lt, before))))
        | no earlier ↦
            d.different i j (omega (arith, lt, earlier)) before
              (sym (update_other store n key earlier) ∙ same ∙ old)
      ];
}

pub record Filled (n : ℕ) (w w' : Workload) : Type 0 where
  pub keys : Distinct w'.dataset w'.store n
  pub count : length w'.dataset ≡ n
  pub offset : w'.offset ≡ w.offset

fill_store_lem :
    (fuel : ℕ) (rand : ℕ → ℕ) (limit n : ℕ) (w : Workload)
    → Hits fuel rand limit
    → n ≤ limit
    → w.dataset ≡ []
    → (w' : Workload) × (fill_store fuel rand n w ≡ some w') × Filled n w w'
unfolding fill_store
fill_store_lem fuel rand limit zero w hits le empty = (
  w,
  refl,
  record {
    keys = record {
      there = λ i lt. absurd (omega (arith, lt));
      range = λ i lt. absurd (omega (arith, lt));
      different = λ i j lt before. absurd (omega (arith, lt));
    };
    count = ap length empty;
    offset = refl;
  },
)
fill_store_lem fuel rand limit (suc n) w hits le empty =
    let (w1, eq, f) = fill_store_lem fuel rand limit n w hits (omega (arith, le)) empty in
    let (r, found, fresh) =
      new_key_lem fuel rand limit w1.calls w1.dataset hits (omega (arith, le, f.count)) in
    let put : ℕ × ℕ → Option Workload = λ r.
      some (record w1 { dataset = r.0 ∷ w1.dataset; store = update w1.store n r.0; calls = r.1 }) in
    (
      record w1 { dataset = r.0 ∷ w1.dataset; store = update w1.store n r.0; calls = r.1 },
      ap
            (λ o. o >>= λ w'. new_key fuel rand w'.calls w'.dataset >>= λ r. some (record w' {
              dataset = r.0 ∷ w'.dataset;
              store = update w'.store n r.0;
              calls = r.1;
            }))
            eq
          ∙ ap (λ o. o >>= put) found,
      record {
        keys = new_Distinct w1.dataset w1.store n r.0 f.keys fresh;
        count = ap (λ n. suc n) f.count;
        offset = f.offset;
      },
    )

-- If rand() hits a new key within `fuel` calls as long as there are less than `totdata` keys, the
-- constructor ends; the `totdata` keys that it stores are in the map, between 1 and 100 * 2 ^ 20,
-- and all different, and the map has `totdata` keys. The offset is 0.
pub workload_lem :
    (fuel : ℕ) (rand before : ℕ → ℕ) (totdata : ℕ)
    → Hits fuel rand totdata
    → (w : Workload) × (workload fuel rand before totdata ≡ some w)
      × Distinct w.dataset w.store totdata
      × (length w.dataset ≡ totdata)
      × (w.offset ≡ 0)
unfolding workload
workload_lem fuel rand before totdata hits =
    let (w, eq, f) = fill_store_lem fuel rand totdata totdata _ hits (omega arith) refl in
    (w, eq, f.keys, f.count, f.offset)
