-- ===== src/ClhtLf/Table/Refinement.antt =====
-- OtherTables/src/clht/src/clht_lf.c: the whole table as a map that changes in single steps.
use lock_free_hop_scotch.Prelude.{
  ℕ, ◌+◌, ◌^◌, ◌<◌, ◌≡◌, ◌≢◌, ◌↔◌, arith, refl, sym, ap, subst, ◌∙◌, ◌⊎◌, inl, inr, update,
  update_same, update_other, ℕ_discrete, if◌then◌else◌, ==_iff,
}
use lock_free_hop_scotch.ClhtLf.Bucket.{Bucket}
use lock_free_hop_scotch.ClhtLf.Worker.{Pc, idle, Values, AllNonzero, Move, commits}
use lock_free_hop_scotch.ClhtLf.Refinement.{Contents, Holds, Label, label, Spec, Move-Spec}
use lock_free_hop_scotch.ClhtLf.Invariant.Local.{Local}
use lock_free_hop_scotch.ClhtLf.Invariant.Reachable.{Reach-Inv}
use lock_free_hop_scotch.ClhtLf.Table.{Table, clht_hash}
use lock_free_hop_scotch.ClhtLf.Table.Threads.{
  key_at, Threads, store, TableStep, enter, act, label_of, added, TableReach,
}
use lock_free_hop_scotch.ClhtLf.Table.Keys.{About, Move-About, TableReach-Homed}
use lock_free_hop_scotch.ClhtLf.Table.Bins.{pc_in, TableReach-BinReach}

-- A key is in the table with a value: the bucket of the key holds them.
abbrev pub TableHolds : Table → Contents
TableHolds t k v = Holds (t.table (clht_hash t k)) k v

-- What a change of bucket `bin` does, seen from the bucket of a key.
module _ (t : Table) (bin : ℕ) (m : Bucket) (j : ℕ) (R : Bucket → Bucket → Type 0) where
  from_home :
      (clht_hash t j ≡ bin → R (t.table bin) m)
      → (clht_hash t j ≢ bin → (b : Bucket) → R b b)
      → R (t.table (clht_hash t j)) (update t.table bin m (clht_hash t j))
  from_home mine other = elim (ℕ_discrete (clht_hash t j) bin) [
    | yes here ↦
        subst (λ i. R (t.table i) (update t.table bin m i)) (sym here)
          (subst (R (t.table bin)) (sym (update_same t.table bin m)) (mine here))
    | no there ↦
        subst (R (t.table (clht_hash t j))) (sym (update_other t.table bin m there))
          (other there (t.table (clht_hash t j)))
  ]

-- What a step means for its bucket it means for the table.
module _ (t : Table) (bin k : ℕ) (m : Bucket) (home : bin ≡ clht_hash t k) where
  elsewhere : {j : ℕ} → clht_hash t j ≢ bin → j ≢ k
  elsewhere there same = there (ap (clht_hash t) same ∙ sym home)

  Spec-store :
      (l : Label)
      → About k l
      → Spec l (Holds (t.table bin)) (Holds m)
      → Spec l (TableHolds t) (TableHolds (store t bin m))
  unfolding clht_hash
  Spec-store Label.silent about spec = λ j v.
      from_home t bin m j (λ a b. Holds a j v ↔ Holds b j v) (λ here. spec j v)
        (λ there b. (λ h. h, λ h. h))
  Spec-store (Label.puts i v) about (absent, adds) = (
    λ w h. absent w (subst (λ b. Holds (t.table b) i w) (sym (home ∙ ap (clht_hash t) about)) h),
    λ j w.
        from_home t bin m j (λ a b. Holds b j w ↔ ((Holds a j w) ⊎ ((j ≡ i) × (w ≡ v))))
          (λ here. adds j w)
          (λ there b. (
            λ h. inl h,
            λ r. elim r [
              | inl h ↦ h
              | inr (same, wv) ↦ absurd (elsewhere there (same ∙ sym about))
            ],
          )),
  )
  Spec-store (Label.removes i w) about (there, keeps) = (
    subst (λ b. Holds (t.table b) i w) (home ∙ ap (clht_hash t) about) there,
    λ j x.
        from_home t bin m j (λ a b. Holds b j x ↔ ((Holds a j x) × (j ≢ i))) (λ here. keeps j x)
          (λ there b. (λ h. (h, λ same. elsewhere there (same ∙ sym about)), λ (h, ne). h)),
  )

-- What a thread knows of the bucket on which it works.
pub bin-Local :
    {P : Values} {n size c : ℕ} {s : Threads}
    → TableReach P n size c s
    → (t : ℕ) → c < 2 ^ 32
    → Local P (s.ht.table (s.bin t)) (s.pc t)
bin-Local {P} {s} r t small =
    let (d, le, run) = TableReach-BinReach r (s.bin t) in
    let inv = Reach-Inv run (omega (arith, le, small)) in
    let place : pc_in (s.bin t) s t ≡ s.pc t =
      ap (λ b. if b then s.pc t else idle) ((==_iff (s.bin t) (s.bin t)).1 refl) in
    subst (Local P (s.ht.table (s.bin t))) place (inv.local t)

-- What a step does to the bucket of its thread.
pub bin-Spec :
    {P : Values} {n size c : ℕ} {s : Threads}
    → AllNonzero P
    → TableReach P n size c s
    → (t : ℕ) {p : Pc} {m : Bucket} (mv : Move P (s.ht.table (s.bin t)) (s.pc t) m p)
    → c + commits mv < 2 ^ 32
    → Spec (label mv) (Holds (s.ht.table (s.bin t))) (Holds m)
bin-Spec {s} all r t mv small =
    let (d, le, run) = TableReach-BinReach r (s.bin t) in
    let inv = Reach-Inv run (omega (arith, le, small)) in
    Move-Spec all inv.kept mv (bin-Local r t (omega (arith, small))) (omega (arith, le, small))

-- On a new table, where no caller of `clht_put` puts the value 0, in every state that any number of
-- threads reach with fewer than 2 ^ 32 entries put in, each step of a thread does to the entries of the whole table what its label says: the
-- second CAS of `clht_put` adds a key that was absent from the table; the CAS of `clht_remove`
-- takes out the entry of its key, with the value that it returns; every other step, the
-- computation of `bin` included, leaves the entries alone.
pub TableStep-Spec :
    {P : Values} {n size c : ℕ} {s t : Threads}
    → AllNonzero P
    → TableReach P n size c s
    → (st : TableStep P n s t) → c + added st < 2 ^ 32
    → Spec (label_of st) (TableHolds s.ht) (TableHolds t.ht)
TableStep-Spec all r (enter t lt quiet at mv) small = λ k v. (λ h. h, λ h. h)
TableStep-Spec {s} all r (act t {p} {m} lt busy mv) small =
    Spec-store s.ht (s.bin t) (key_at (s.pc t)) m (TableReach-Homed r t busy) (label mv)
      (Move-About mv) (bin-Spec all r t mv small)
