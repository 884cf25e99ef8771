-- ===== src/ClhtLf/Invariant/Kept.antt =====
-- OtherTables/src/clht/src/clht_lf.c: what every step keeps of the entries of the bucket.
use lock_free_hop_scotch.Prelude.{
  ℕ, ◌+◌, ◌^◌, ◌<◌, ◌≡◌, ◌≢◌, arith, refl, sym, ap, ◌∙◌, update, update_other, ℕ_discrete,
}
use lock_free_hop_scotch.ClhtLf.Bucket.{
  valid, inserting, entries, Bucket, Snapshot, Same, snap_set_map, store_snapshot,
  snap_set_map_and_inc_version,
}
use lock_free_hop_scotch.ClhtLf.Worker.{
  Pc, Move, Values, AllNonzero, claim_win, commit_win, remove_win, commits,
}
use lock_free_hop_scotch.ClhtLf.Invariant.Local.{Fresh, Claimed, Local}
use lock_free_hop_scotch.ClhtLf.Invariant.Env.{Env}
use lock_free_hop_scotch.ClhtLf.Invariant.Thread.{Full}

-- Two valid slots never hold the same key.
abbrev pub Unique : Bucket → Type 0
Unique m =
    (a b : ℕ)
    → a < entries
    → b < entries
    → m.map a ≡ valid
    → m.map b ≡ valid
    → m.key a ≡ m.key b
    → a ≡ b

-- The second CAS of `clht_put` finds its snapshot fresh: no entry was put in since.
pub commit-Fresh :
    {m : Bucket} {s : Snapshot} (e : ℕ)
    → s.map e ≢ valid
    → Same (snap_set_map s e inserting) m
    → Fresh s m
commit-Fresh {s} e hidden same = record {
  version = same.version;
  shown = λ j lt h.
      same.map j lt ∙ update_other s.map e inserting (λ here. hidden (ap s.map (sym here) ∙ h)) ∙ h;
}

module _ {p : Pc} {m m' : Bucket} (env : Env p m m') (quiet : m'.version ≡ m.version) where
  quiet-Full : Full m → Full m'
  quiet-Full full j lt h =
      let was = env.shrinks quiet j lt h in λ z. full j lt was (sym (env.stays j lt was h).1 ∙ z)

  quiet-Unique : Unique m → Unique m'
  quiet-Unique unique a b alt blt ha hb eq =
      let wa = env.shrinks quiet a alt ha in
      let wb = env.shrinks quiet b blt hb in
      unique a b alt blt wa wb (sym (env.stays a alt wa ha).0 ∙ eq ∙ (env.stays b blt wb hb).0)

-- The bucket after the second CAS of `clht_put`.
abbrev pub committed : Bucket → Snapshot → ℕ → Bucket
committed m s e =
    store_snapshot m (snap_set_map_and_inc_version (snap_set_map s e inserting) e valid)

-- The entry is put at `e`; each other slot is what it was.
pub committed-other :
    (m : Bucket) (s : Snapshot) (e : ℕ)
    → Same (snap_set_map s e inserting) m
    → (j : ℕ) → j < entries
    → j ≢ e
    → (committed m s e).map j ≡ m.map j
committed-other m s e same j lt ne =
    update_other (update s.map e inserting) e valid ne ∙ sym (same.map j lt)

module _ {P : Values} (all : AllNonzero P) {m : Bucket} {k v e : ℕ} {s : Snapshot}
    (l : Claimed P m k v e s) (val : m.val e ≡ v) (key : m.key e ≡ k)
    (same : Same (snap_set_map s e inserting) m) where
  pub commit-absent : (j : ℕ) → j < entries → m.map j ≡ valid → m.key j ≢ k
  commit-absent j lt h = l.clear all (commit-Fresh e l.hidden same) j lt lt h

  commit-Full : Full m → Full (committed m s e)
  commit-Full full j lt h = elim (ℕ_discrete j e) [
    | yes here ↦ λ z. all v l.allowed (sym val ∙ ap m.val (sym here) ∙ z)
    | no ne ↦ full j lt (sym (committed-other m s e same j lt ne) ∙ h)
  ]

  was : (j : ℕ) → j < entries → j ≢ e → (committed m s e).map j ≡ valid → m.map j ≡ valid
  was j lt ne h = sym (committed-other m s e same j lt ne) ∙ h

  commit-Unique : Unique m → Unique (committed m s e)
  commit-Unique unique a b alt blt ha hb eq = elim (ℕ_discrete a e) [
    | yes x ↦ elim (ℕ_discrete b e) [
      | yes y ↦ x ∙ sym y
      | no ne ↦ absurd (commit-absent b blt (was b blt ne hb) (sym eq ∙ ap m.key x ∙ key))
    ]
    | no ne ↦ elim (ℕ_discrete b e) [
      | yes y ↦ absurd (commit-absent a alt (was a alt ne ha) (eq ∙ ap m.key y ∙ key))
      | no other ↦ unique a b alt blt (was a alt ne ha) (was b blt other hb) eq
    ]
  ]

-- What one step keeps of the entries.
pub record Kept (P : Values) (c : ℕ) (m : Bucket) : Type 0 where
  pub version : m.version ≡ c
  pub full : AllNonzero P → Full m
  pub unique : AllNonzero P → Unique m

pub Move-Kept :
    {P : Values} {c : ℕ} {p p' : Pc} {m m' : Bucket}
    → Kept P c m
    → (mv : Move P m p m' p') → Local P m p
    → Env p m m'
    → c + commits mv < 2 ^ 32
    → Kept P (c + commits mv) m'
Move-Kept {c} {m} kept (commit_win {k} {v} {e} {s} same) (l, val, key) env small = record {
  version = ground (arith, same.version, kept.version);
  full = λ all. commit-Full all l val key same (kept.full all);
  unique = λ all. commit-Unique all l val key same (kept.unique all);
}
Move-Kept kept (claim_win found same) l env small = record {
  version = omega (arith, same.version, kept.version);
  full = λ all. quiet-Full env (sym same.version) (kept.full all);
  unique = λ all. quiet-Unique env (sym same.version) (kept.unique all);
}
Move-Kept kept (remove_win same) l env small = record {
  version = omega (arith, same.version, kept.version);
  full = λ all. quiet-Full env (sym same.version) (kept.full all);
  unique = λ all. quiet-Unique env (sym same.version) (kept.unique all);
}
Move-Kept kept _ l env small = record {
  version = omega (arith, kept.version);
  full = λ all. quiet-Full env refl (kept.full all);
  unique = λ all. quiet-Unique env refl (kept.unique all);
}
