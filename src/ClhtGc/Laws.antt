-- ===== src/ClhtGc/Laws.antt =====
-- OtherTables/src/clht/src/clht_gc.c: which tables are freed.
use lock_free_hop_scotch.Prelude.{
  ℕ, suc, ◌-◌, ◌^◌, ◌<◌, ◌≤◌, ◌≡◌, ◌⊎◌, false, List, [], ◌∷◌, ◌++◌, length, Option, none, some, ltb,
  ltb→lt, Bool-cases, inl, inr, if◌then◌else◌, refl, sym, ap, subst, ◌∙◌, arith,
}
use lock_free_hop_scotch.Prelude.Options.{◌>>=◌}
use lock_free_hop_scotch.ClhtGc.Versions.{
  Thread, Table, Clht, min_version, clht_gc_thread_init, clht_gc_thread_version_max,
  clht_gc_min_version_used, clht_gc_free, sweep, ht_oldest,
}

-- What holds of each of them.
abbrev pub Each : {A : Type 0} → (A → Type 0) → List A → Type 0
Each P [] = Unit
Each P (x ∷ xs) = P x × Each P xs

-- One of them has the property.
abbrev pub Some : {A : Type 0} → (A → Type 0) → List A → Type 0
Some P [] = ⊥
Some P (x ∷ xs) = P x ⊎ Some P xs

-- `m` is the least of `min` and the versions.
abbrev pub IsMin : List Thread → ℕ → ℕ → Type 0
IsMin ts min m =
    (m ≤ min)
    × Each (λ (t : Thread). m ≤ t.version) ts
    × ((m ≡ min) ⊎ Some (λ (t : Thread). m ≡ t.version) ts)

min_version-IsMin : (ts : List Thread) (min : ℕ) → IsMin ts min (min_version ts min)
unfolding min_version
min_version-IsMin [] min = (omega arith, tt, inl refl)
min_version-IsMin (t ∷ ts) min = elim (Bool-cases (ltb t.version min)) [
  | inl lower ↦
      subst (λ b. IsMin (t ∷ ts) min (min_version ts (if b then t.version else min))) (sym lower)
        (lower_step (min_version ts t.version) (ltb→lt t.version min lower)
          (min_version-IsMin ts t.version))
  | inr other ↦
      subst (λ b. IsMin (t ∷ ts) min (min_version ts (if b then t.version else min))) (sym other)
        (other_step (min_version ts min) (ground (arith, other)) (min_version-IsMin ts min))
]
  where
    lower_step : (m : ℕ) → t.version < min → IsMin ts t.version m → IsMin (t ∷ ts) min m
    lower_step m lt (le, each, attained) = (omega (arith, lt, le), (le, each), inr attained)

    other_step : (m : ℕ) → min ≤ t.version → IsMin ts min m → IsMin (t ∷ ts) min m
    other_step m above (le, each, inl same) = (le, (omega (arith, above, le), each), inl same)
    other_step m above (le, each, inr attained) =
        (le, (omega (arith, above, le), each), inr (inr attained))

-- `clht_gc_min_version_used` returns the least of the version of the current table and the versions
-- of the threads.
pub clht_gc_min_version_used-IsMin :
    (h : Clht) → IsMin h.version_list h.ht.version (clht_gc_min_version_used h)
unfolding clht_gc_min_version_used
clht_gc_min_version_used-IsMin h = min_version-IsMin h.version_list h.ht.version

-- A thread that has just been added, and a thread that is not at work in a table, whose version is
-- less than 2 ^ 64, leave the least version as it is.
pub clht_gc_min_version_used-clht_gc_thread_init :
    (h : Clht) (id : ℕ) (ts : Thread)
    → h.ht.version < 2 ^ 64
    → (clht_gc_min_version_used (clht_gc_thread_init h id) ≡ clht_gc_min_version_used h)
      × (clht_gc_min_version_used
            (record h { version_list = clht_gc_thread_version_max ts ∷ h.version_list })
          ≡ clht_gc_min_version_used h)
unfolding clht_gc_min_version_used clht_gc_thread_init clht_gc_thread_version_max min_version
clht_gc_min_version_used-clht_gc_thread_init h id ts small =
    let self : ltb h.ht.version h.ht.version ≡ false = ground arith in
    let idle : ltb (2 ^ 64 - 1) h.ht.version ≡ false = ground (arith, small) in
    (
      ap (λ b. min_version h.version_list (if b then h.ht.version else h.ht.version)) self,
      ap (λ b. min_version h.version_list (if b then 2 ^ 64 - 1 else h.ht.version)) idle,
    )

-- Each table is older than the next one.
abbrev pub Ascending : List Table → Table → Type 0
Ascending [] ht = Unit
Ascending (t ∷ ts) ht = (t.version < (ht_oldest ts ht).version) × Ascending ts ht

abbrev pub blocks : List Table → List ℕ
blocks [] = []
blocks (t ∷ ts) = clht_gc_free t ++ blocks ts

-- The tables that are older than `min` have gone, and their blocks have been freed in order.
pub record Swept (min : ℕ) (ts : List Table) (ht : Table) (r : ℕ × List Table × List ℕ)
    : Type 0 where
  pub gone : List Table
  pub split : ts ≡ gone ++ r.1
  pub unused : Each (λ (t : Table). t.version < min) gone
  pub kept : Each (λ (t : Table). min ≤ t.version) r.1
  pub ascending : Ascending r.1 ht
  pub count : r.0 ≡ length gone
  pub freed : r.2 ≡ blocks gone

pub later-Each :
    (min : ℕ) (ts : List Table) (ht : Table)
    → min ≤ (ht_oldest ts ht).version
    → Ascending ts ht
    → Each (λ (t : Table). min ≤ t.version) ts
later-Each min [] ht le a = tt
later-Each min (t ∷ ts) ht le (lt, a) = (le, later-Each min ts ht (omega (arith, le, lt)) a)

pub sweep_lem :
    (min : ℕ) (ts : List Table) (ht : Table)
    → Ascending ts ht
    → min ≤ ht.version
    → (r : ℕ × List Table × List ℕ) × (sweep min ts ht ≡ some r) × Swept min ts ht r
unfolding sweep
sweep_lem min [] ht a le =
    let nothing : ℕ × List Table × List ℕ = (0, [], []) in
    let above : ltb ht.version min ≡ false = ground (arith, le) in
    (
      (0, [], []),
      ap (λ b. if b then none else some nothing) above,
      record {
        gone = [];
        split = refl;
        unused = tt;
        kept = tt;
        ascending = tt;
        count = refl;
        freed = refl;
      },
    )
sweep_lem min (t ∷ ts) ht (lt, a) le =
    let rest : Option (ℕ × List Table × List ℕ) =
      sweep min ts ht >>= λ r. some (suc r.0, r.1, clht_gc_free t ++ r.2) in
    let stop : ℕ × List Table × List ℕ = (0, t ∷ ts, []) in
    elim (Bool-cases (ltb t.version min)) [
      | inl old ↦
          let (r, eq, s) = sweep_lem min ts ht a le in
          (
            (suc r.0, r.1, clht_gc_free t ++ r.2),
            ap (λ b. if b then rest else some stop) old
                ∙ ap (λ o. o >>= λ r. some (suc r.0, r.1, clht_gc_free t ++ r.2)) eq,
            record {
              gone = t ∷ s.gone;
              split = ap (λ ts. t ∷ ts) s.split;
              unused = (ltb→lt t.version min old, s.unused);
              kept = s.kept;
              ascending = s.ascending;
              count = ap (λ n. suc n) s.count;
              freed = ap (λ bs. clht_gc_free t ++ bs) s.freed;
            },
          )
      | inr used ↦ (
        (0, t ∷ ts, []),
        ap (λ b. if b then rest else some stop) used,
        record {
          gone = [];
          split = refl;
          unused = tt;
          kept = later-Each min (t ∷ ts) ht (ground (arith, used)) (lt, a);
          ascending = (lt, a);
          count = refl;
          freed = refl;
        },
      )
    ]
