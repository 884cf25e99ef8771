-- ===== src/ClhtLf/Invariant/Change.antt =====
-- OtherTables/src/clht/src/clht_lf.c: every step of a thread changes one slot at most, and only its
-- own, a free one, or, to remove it, a valid one.
use lock_free_hop_scotch.Prelude.{
  ℕ, zero, suc, ◌+◌, ◌^◌, ◌<◌, ◌≡◌, ◌≢◌, some, arith, refl, sym, ap, ◌⊎◌, inl, inr, update,
  update_same, update_other, ==_iff, Bool-cases, ◌==◌, if◌then◌else◌, ◌∙◌, ℕ_discrete,
}
use mathlib.Core.Option.{some-injective}
use lock_free_hop_scotch.ClhtLf.Bucket.{
  invalid, valid, inserting, entries, Bucket, Snapshot, Same, snap_get_empty_index, empty_from,
  snap_set_map, snap_set_map_and_inc_version, store_snapshot,
}
use lock_free_hop_scotch.ClhtLf.Worker.{
  commits, Pc, Move, Values, give_up, claim_win, store_val, store_key, commit_win, remove_win,
}
use lock_free_hop_scotch.ClhtLf.Invariant.Local.{Filled, Local, claim_of}
use lock_free_hop_scotch.ClhtLf.Invariant.Env.{Env}

-- The slot found is invalid in the snapshot.
empty_from_lem :
    (s : Snapshot) (n i : ℕ) {e : ℕ} → empty_from s n i ≡ some e → (e < i + n) × (s.map e ≡ invalid)
unfolding empty_from
empty_from_lem s zero i h = absurd (cc h)
empty_from_lem s (suc n) i {e} h =
    let rest = empty_from s n (i + 1) in
    elim (Bool-cases (s.map i == invalid)) [
      | inl free ↦
          let same : i ≡ e =
            some-injective i e (ap (λ b. if b then some i else rest) (sym free) ∙ h) in
          (omega arith, ap s.map (sym same) ∙ (==_iff (s.map i) invalid).0 free)
      | inr taken ↦
          let (lt, free) =
            empty_from_lem s n (i + 1) (ap (λ b. if b then some i else rest) (sym taken) ∙ h) in
          (omega (arith, lt), free)
    ]

pub snap_get_empty_index_lem :
    (s : Snapshot) {e : ℕ} → snap_get_empty_index s ≡ some e → (e < entries) × (s.map e ≡ invalid)
unfolding snap_get_empty_index
snap_get_empty_index_lem s h = empty_from_lem s entries 0 h

-- A change of slot `e` alone: the entry goes, or it comes with a new version.
pub record At (e : ℕ) (m m' : Bucket) : Type 0 where
  pub bound : e < entries
  pub others :
      (j : ℕ)
      → j < entries
      → j ≢ e
      → (m'.map j ≡ m.map j) × (m'.key j ≡ m.key j) × (m'.val j ≡ m.val j)
  pub how :
      ((m'.version ≡ m.version) × (m'.map e ≢ valid))
      ⊎ ((m.version < m'.version) × (m.map e ≢ valid))

pub At-Env :
    {p : Pc} {e : ℕ} {m m' : Bucket}
    → At e m m'
    → (claim_of p ≡ some e) ⊎ (m.map e ≢ inserting)
    → Env p m m'
At-Env {p} {e} {m} {m'} at own = record {
  grows = ground (arith, at.how);
  shrinks = λ same j lt h. elim (ℕ_discrete j e) [
    | yes here ↦ ground (arith, at.how, same, h, here)
    | no ne ↦ sym (at.others j lt ne).0 ∙ h
  ];
  stays = λ j lt h h'. elim (ℕ_discrete j e) [
    | yes here ↦ ground (arith, at.how, h, h', here)
    | no ne ↦ let (map, key, val) = at.others j lt ne in (key, val)
  ];
  keeps = λ a lt held ne. elim (ℕ_discrete a e) [
    | yes here ↦ elim own [
      | inl mine ↦ absurd (ne (rw here mine))
      | inr free ↦ absurd (free (rw (sym here) held))
    ]
    | no other ↦ let (map, key, val) = at.others a lt other in (map ∙ held, key, val)
  ];
}

pub same-Env : {p : Pc} {m : Bucket} → Env p m m
same-Env = record {
  grows = omega arith;
  shrinks = λ same j lt h. h;
  stays = λ j lt h h'. (refl, refl);
  keeps = λ e lt held ne. (held, refl, refl);
}

-- A write of the snapshot word that its test has let through.
pub store-At :
    (s : Snapshot) (m : Bucket) (e v : ℕ)
    → e < entries
    → v ≢ valid
    → Same s m
    → At e m (store_snapshot m (snap_set_map s e v))
store-At s m e v lt ne same = record {
  bound = lt;
  others = λ j jlt other. (update_other s.map e v other ∙ sym (same.map j jlt), refl, refl);
  how = inl (sym same.version, λ h. ne (sym (update_same s.map e v) ∙ h));
}

pub commit-At :
    (s : Snapshot) (m : Bucket) (e : ℕ)
    → e < entries
    → m.version + 1 < 2 ^ 32
    → Same (snap_set_map s e inserting) m
    → At e m (store_snapshot m (snap_set_map_and_inc_version (snap_set_map s e inserting) e valid))
commit-At s m e lt small same = record {
  bound = lt;
  others = λ j jlt other.
      (update_other (update s.map e inserting) e valid other ∙ sym (same.map j jlt), refl, refl);
  how = inr (
    omega (arith, same.version, small),
    λ h. ground (arith, update_same s.map e inserting, same.map e lt, h),
  );
}

pub give_up-At :
    (m : Bucket) (k v e : ℕ) → Filled m k v e → At e m (record m { map = update m.map e invalid })
give_up-At m k v e l = record {
  bound = l.bound;
  others = λ j lt ne. (update_other m.map e invalid ne, refl, refl);
  how = inl (refl, λ h. ground (arith, update_same m.map e invalid, h));
}

pub store_val-At :
    (m : Bucket) (e v : ℕ)
    → e < entries
    → m.map e ≡ inserting
    → At e m (record m { val = update m.val e v })
store_val-At m e v lt held = record {
  bound = lt;
  others = λ j jlt ne. (refl, refl, update_other m.val e v ne);
  how = inl (refl, λ h. ground (arith, held, h));
}

pub store_key-At :
    (m : Bucket) (e k : ℕ)
    → e < entries
    → m.map e ≡ inserting
    → At e m (record m { key = update m.key e k })
store_key-At m e k lt held = record {
  bound = lt;
  others = λ j jlt ne. (refl, update_other m.key e k ne, refl);
  how = inl (refl, λ h. ground (arith, held, h));
}

-- What a step changes, and in which case.
pub Move-Env :
    {P : Values} {p p' : Pc} {m m' : Bucket}
    → Local P m p
    → (mv : Move P m p m' p') → m.version + commits mv < 2 ^ 32
    → Env p m m'
Move-Env {m} l (give_up {k} {v} {e}) small = At-Env (give_up-At m k v e l) (inl refl)
Move-Env {m} l (claim_win {k} {v} {e} {s} found same) small =
    let (lt, free) = snap_get_empty_index_lem s found in
    At-Env (store-At s m e inserting lt (omega arith) same)
      (inr (λ h. ground (arith, same.map e lt, free, h)))
Move-Env {m} l (store_val {k} {v} {e}) small = At-Env (store_val-At m e v l.bound l.held) (inl refl)
Move-Env {m} l (store_key {k} {v} {e}) small =
    At-Env (store_key-At m e k l.0.bound l.0.held) (inl refl)
Move-Env {m} l (commit_win {k} {v} {e} {s} same) small =
    At-Env (commit-At s m e l.0.bound small same) (inl refl)
Move-Env {m} l (remove_win {k} {i} {w} {s} same) small =
    At-Env (store-At s m i invalid l.0.bound (omega arith) same)
      (inr (λ h. ground (arith, same.map i l.0.bound, l.0.shown, h)))
Move-Env l _ small = same-Env
