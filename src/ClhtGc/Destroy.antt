-- ===== src/ClhtGc/Destroy.antt =====
-- OtherTables/src/clht/src/clht_gc.c: what `clht_gc_destroy` frees.
use lock_free_hop_scotch.Prelude.{
  ℕ, ◌≤◌, ◌≡◌, false, not, List, [], ◌∷◌, ◌++◌, some, leb, ◌==◌, ==_iff, Bool-cases, inl, inr,
  if◌then◌else◌, refl, sym, ap, subst, ◌∙◌, arith,
}
use lock_free_hop_scotch.Prelude.Options.{◌>>=◌}
use mathlib.Core.List.{append_assoc}
use lock_free_hop_scotch.ClhtGc.Versions.{
  Table, Clht, clht_gc_free, sweep, ht_oldest, clht_gc_collect_cond, clht_gc_collect_all,
  clht_gc_destroy,
}
use lock_free_hop_scotch.ClhtGc.Laws.{Each, Ascending, blocks}
use lock_free_hop_scotch.ClhtGc.Collect.{IsGc, append_none, clht_gc_collect_cond_lem}

oldest_le :
    (ts : List Table) (ht : Table) → Ascending ts ht → (ht_oldest ts ht).version ≤ ht.version
oldest_le [] ht a = omega arith
oldest_le (t ∷ ts) ht (lt, a) = omega (arith, lt, oldest_le ts ht a)

-- Only the current table has its version or a later one.
none_later :
    (ts : List Table) (ht : Table)
    → Ascending ts ht
    → ht.version ≤ (ht_oldest ts ht).version
    → ts ≡ []
none_later [] ht a le = refl
none_later (t ∷ ts) ht (lt, a) le = absurd (omega (arith, lt, le, oldest_le ts ht a))

first_kept :
    (ts : List Table) (ht : Table)
    → Each (λ (t : Table). ht.version ≤ t.version) ts
    → ht.version ≤ (ht_oldest ts ht).version
first_kept [] ht e = omega arith
first_kept (t ∷ ts) ht (le, e) = le

blocks-append : (xs ys : List Table) → blocks (xs ++ ys) ≡ blocks xs ++ blocks ys
blocks-append [] ys = refl
blocks-append (t ∷ xs) ys =
    ap (λ bs. clht_gc_free t ++ bs) (blocks-append xs ys)
    ∙ sym (append_assoc (clht_gc_free t) (blocks xs) (blocks ys))

-- A collection of all old tables, by the lock.
collect_all_lem :
    (h : Clht)
    → IsGc h
    → (n : ℕ) × (h' : Clht) × (clht_gc_collect_all h ≡ some (n, h'))
      × (h'.freed ≡ h.freed ++ (if h.gc_lock == 0 then blocks h.older else []))
      × (h'.ht ≡ h.ht)
      × (h'.address ≡ h.address)
unfolding clht_gc_collect_all clht_gc_collect_cond
collect_all_lem h v = elim (Bool-cases (h.gc_lock == 0)) [
  | inl free ↦
      let (r, eq, c) = clht_gc_collect_cond_lem h v ((==_iff h.gc_lock 0).0 free) false in
      let nothing = none_later r.1.older r.1.ht c.valid.ascending (
        first_kept r.1.older r.1.ht (
          subst (λ (ht : Table). Each (λ (t : Table). ht.version ≤ t.version) r.1.older)
            (sym c.current) c.kept)) in
      let all : blocks h.older ≡ blocks c.gone =
        ap blocks c.split
        ∙ blocks-append c.gone r.1.older
        ∙ ap (λ ts. blocks c.gone ++ blocks ts) nothing
        ∙ append_none (blocks c.gone) in
      (
        r.0,
        r.1,
        eq,
        c.freed
            ∙ ap (λ bs. h.freed ++ bs)
                (sym (ap (λ b. if b then blocks h.older else []) free ∙ all)),
        c.current,
        c.place,
      )
  | inr held ↦
      let early : ℕ × Clht = (0, h) in
      let busy : ℕ × Clht = (0, record h { gc_lock = 0xff }) in
      let late =
        if leb h.ht.version h.version_min
        then some (0, record h { gc_lock = 0 })
        else (sweep h.ht.version h.older h.ht >>= λ r. some (
          r.0,
          record h {
            older = r.1;
            version_min = (ht_oldest r.1 h.ht).version;
            gc_lock = 0;
            freed = h.freed ++ r.2;
          },
        )) in
      let kept =
        sym (ap (λ b. h.freed ++ (if b then blocks h.older else [])) held ∙ append_none h.freed) in
      elim (Bool-cases (leb h.ht.version h.version_min)) [
        | inl newest ↦ (
          0,
          h,
          ap (λ b. if b then some early else if not (h.gc_lock == 0) then some busy else late)
              newest,
          kept,
          refl,
          refl,
        )
        | inr older ↦ (
          0,
          record h { gc_lock = 0xff },
          ap (λ b. if b then some early else if not (h.gc_lock == 0) then some busy else late) older
              ∙ ap (λ b. if not b then some busy else late) held,
          kept,
          refl,
          refl,
        )
      ]
]

-- Let the tables be in order of their versions, and `version_min` the version of the oldest. Then
-- `clht_gc_destroy` frees the current table and the structure itself; it frees the older tables,
-- oldest first, if the lock of the collection is free, and never frees them if it is held.
pub clht_gc_destroy_lem :
    (h : Clht)
    → IsGc h
    → clht_gc_destroy h
      ≡ some (
          (h.freed ++ (if h.gc_lock == 0 then blocks h.older else []))
          ++ (clht_gc_free h.ht ++ (h.address ∷ [])))
unfolding clht_gc_destroy
clht_gc_destroy_lem h v =
    let (n, h', eq, freed, current, place) = collect_all_lem h v in
    ap (λ o. o >>= λ r. some (r.1.freed ++ (clht_gc_free r.1.ht ++ (r.1.address ∷ [])))) eq
    ∙ ap (λ bs. some (bs ++ (clht_gc_free h'.ht ++ (h'.address ∷ [])))) freed
    ∙ ap
        (λ (t : Table). some (
          (h.freed ++ (if h.gc_lock == 0 then blocks h.older else []))
          ++ (clht_gc_free t ++ (h'.address ∷ []))))
        current
    ∙ ap
        (λ a. some (
          (h.freed ++ (if h.gc_lock == 0 then blocks h.older else []))
          ++ (clht_gc_free h.ht ++ (a ∷ []))))
        place
