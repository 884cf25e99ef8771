-- ===== src/ClhtGc/Collect.antt =====
-- OtherTables/src/clht/src/clht_gc.c: what a collection frees.
use lock_free_hop_scotch.Prelude.{
  ℕ, ◌<◌, ◌≤◌, ◌≡◌, Bool, true, false, not, List, [], ◌∷◌, ◌++◌, length, Option, some, leb, leb→le,
  ◌==◌, Bool-cases, inl, inr, if◌then◌else◌, refl, sym, ap, subst, ◌∙◌, arith,
}
use lock_free_hop_scotch.Prelude.Options.{◌>>=◌}
use lock_free_hop_scotch.ClhtGc.Versions.{
  Thread, Table, Clht, clht_gc_min_version_used, sweep, ht_oldest, clht_gc_collect_cond,
}
use lock_free_hop_scotch.ClhtGc.Laws.{
  Each, clht_gc_min_version_used-IsMin, Ascending, blocks, Swept, sweep_lem, later-Each,
}

-- The tables are in order of their versions, and `version_min` is that of the oldest.
pub record IsGc (h : Clht) : Type 0 where
  pub ascending : Ascending h.older h.ht
  pub oldest : h.version_min ≡ (ht_oldest h.older h.ht).version

-- The tables that are older than `min` have been freed, block by block, and no others.
pub record Collected (h : Clht) (min : ℕ) (r : ℕ × Clht) : Type 0 where
  pub gone : List Table
  pub split : h.older ≡ gone ++ r.1.older
  pub unused : Each (λ (t : Table). t.version < min) gone
  pub kept : Each (λ (t : Table). min ≤ t.version) r.1.older
  pub count : r.0 ≡ length gone
  pub freed : r.1.freed ≡ h.freed ++ blocks gone
  pub valid : IsGc r.1
  pub unlocked : r.1.gc_lock ≡ 0
  pub current : r.1.ht ≡ h.ht
  pub threads : r.1.version_list ≡ h.version_list
  pub place : r.1.address ≡ h.address

pub append_none : (xs : List ℕ) → xs ++ [] ≡ xs
append_none [] = refl
append_none (x ∷ xs) = ap (λ ss. x ∷ ss) (append_none xs)

-- The least version that a collection keeps.
abbrev pub keeps_from : Clht → Bool → ℕ
keeps_from h collect_not_referenced_only =
    if collect_not_referenced_only then clht_gc_min_version_used h else h.ht.version

module _ (h : Clht) (v : IsGc h) (free : h.gc_lock ≡ 0) where
  -- There is nothing to collect.
  none_gone :
      (min : ℕ)
      → min ≤ h.version_min
      → min ≤ h.ht.version
      → Collected h min (0, record h { gc_lock = 0 })
  none_gone min le below = record {
    gone = [];
    split = refl;
    unused = tt;
    kept = later-Each min h.older h.ht (omega (arith, le, v.oldest)) v.ascending;
    count = refl;
    freed = sym (append_none h.freed);
    valid = record { ascending = v.ascending; oldest = v.oldest };
    unlocked = refl;
    current = refl;
    threads = refl;
    place = refl;
  }

  some_gone :
      (min : ℕ) (r : ℕ × List Table × List ℕ)
      → Swept min h.older h.ht r
      → Collected h min (
        r.0,
        record h {
          older = r.1;
          version_min = (ht_oldest r.1 h.ht).version;
          gc_lock = 0;
          freed = h.freed ++ r.2;
        },
      )
  some_gone min r s = record {
    gone = s.gone;
    split = s.split;
    unused = s.unused;
    kept = s.kept;
    count = s.count;
    freed = ap (λ bs. h.freed ++ bs) s.freed;
    valid = record { ascending = s.ascending; oldest = refl };
    unlocked = refl;
    current = refl;
    threads = refl;
    place = refl;
  }

  below_current : (only : Bool) → keeps_from h only ≤ h.ht.version
  below_current true = (clht_gc_min_version_used-IsMin h).0
  below_current false = omega arith

  -- Let the tables be in order of their versions, `version_min` the version of the oldest, and the
  -- lock free. Then a collection ends, with the lock free and both as before; of the tables before
  -- the current one it frees those with a version below the least that is in use, or all if the
  -- threads do not count, block by block in order, and keeps the others; it returns their number.
  pub clht_gc_collect_cond_lem :
      (only : Bool)
      → (r : ℕ × Clht) × (clht_gc_collect_cond h only ≡ some r) × Collected h (keeps_from h only) r
  unfolding clht_gc_collect_cond
  clht_gc_collect_cond_lem only =
      let min = keeps_from h only in
      let below = below_current only in
      let idle : ℕ × Clht = (0, record h { gc_lock = 0 }) in
      let busy : ℕ × Clht = (0, record h { gc_lock = 0xff }) in
      let early : ℕ × Clht = (0, h) in
      let swept : Option (ℕ × List Table × List ℕ) → Option (ℕ × Clht) = λ o. o >>= λ r. some (
        r.0,
        record h {
          older = r.1;
          version_min = (ht_oldest r.1 h.ht).version;
          gc_lock = 0;
          freed = h.freed ++ r.2;
        },
      ) in
      let late : Option (ℕ × Clht) =
        if leb min h.version_min then some idle else swept (sweep min h.older h.ht) in
      elim (Bool-cases (leb h.ht.version h.version_min)) [
        | inl newest ↦ (
          early,
          ap (λ b. if b then some early else if not (h.gc_lock == 0) then some busy else late)
              newest,
          subst (λ h'. Collected h min (0, h'))
              (sym (ap (λ (l : ℕ). record h { gc_lock = l }) free))
              (none_gone min (omega (arith, below, leb→le h.ht.version h.version_min newest))
                below),
        )
        | inr older ↦
            let lock =
              ap (λ b. if b then some early else if not (h.gc_lock == 0) then some busy else late)
                older
              ∙ ap (λ (l : ℕ). if not (l == 0) then some busy else late) free in
            elim (Bool-cases (leb min h.version_min)) [
              | inl used ↦ (
                idle,
                lock ∙ ap (λ b. if b then some idle else swept (sweep min h.older h.ht)) used,
                none_gone min (leb→le min h.version_min used) below,
              )
              | inr unused ↦
                  let (r, eq, s) = sweep_lem min h.older h.ht v.ascending below in
                  (
                    (
                      r.0,
                      record h {
                        older = r.1;
                        version_min = (ht_oldest r.1 h.ht).version;
                        gc_lock = 0;
                        freed = h.freed ++ r.2;
                      },
                    ),
                    lock
                        ∙ ap (λ b. if b then some idle else swept (sweep min h.older h.ht)) unused
                        ∙ ap swept eq,
                    some_gone min r s,
                  )
            ]
      ]

Each-map :
    {A : Type 0} (P Q : A → Type 0) → ((x : A) → P x → Q x) → (xs : List A) → Each P xs → Each Q xs
Each-map P Q f [] e = tt
Each-map P Q f (x ∷ xs) (p, e) = (f x p, Each-map P Q f xs e)

-- Let the tables be in order of their versions, `version_min` the version of the oldest, and the
-- lock free. Then each table that `clht_gc_collect_cond` frees, if the threads count, is older than
-- the current one and than the version of each thread; it frees all blocks of these tables, and the
-- other tables stay.
pub clht_gc_collect_cond-spares :
    (h : Clht)
    → IsGc h
    → h.gc_lock ≡ 0
    → (r : ℕ × Clht) × (clht_gc_collect_cond h true ≡ some r)
      × ((gone : List Table) × (h.older ≡ gone ++ r.1.older)
          × (r.1.freed ≡ h.freed ++ blocks gone)
          × Each
              (λ (t : Table).
                (t.version < h.ht.version)
                × Each (λ (ts : Thread). t.version < ts.version) h.version_list)
              gone)
clht_gc_collect_cond-spares h v free =
    let (r, eq, c) = clht_gc_collect_cond_lem h v free true in
    let (below, each, attained) = clht_gc_min_version_used-IsMin h in
    let m = clht_gc_min_version_used h in
    (
      r,
      eq,
      (
        c.gone,
        c.split,
        c.freed,
        Each-map (λ (t : Table). t.version < m)
            (λ (t : Table).
              (t.version < h.ht.version)
              × Each (λ (ts : Thread). t.version < ts.version) h.version_list)
            (λ t lt. (
              omega (arith, lt, below),
              Each-map (λ (ts : Thread). m ≤ ts.version) (λ (ts : Thread). t.version < ts.version)
                  (λ ts le. omega (arith, lt, le)) h.version_list each,
            ))
            c.gone c.unused,
      ),
    )
