-- ===== src/ClhtLf/Refinement.antt =====
-- OtherTables/src/clht/src/clht_lf.c: the bucket as a map that changes in single steps.
use lock_free_hop_scotch.Prelude.{
  ℕ, ◌+◌, ◌^◌, ◌<◌, ◌≡◌, ◌≢◌, ◌↔◌, some, arith, sym, ap, ◌∙◌, ◌⊎◌, inl, inr, update, update_same,
  ℕ_discrete,
}
use lock_free_hop_scotch.ClhtLf.Bucket.{
  invalid, valid, inserting, entries, Bucket, Snapshot, Same, snap_set_map, store_snapshot,
}
use lock_free_hop_scotch.ClhtLf.Worker.{
  commit, remove_cas, Pc, Values, AllNonzero, Move, give_up, claim_win, store_val, store_key,
  commit_win, remove_win, commits,
}
use lock_free_hop_scotch.ClhtLf.System.{System, Step, pick, added, Reach}
use lock_free_hop_scotch.ClhtLf.Invariant.Local.{Fresh, Local, claim_of}
use lock_free_hop_scotch.ClhtLf.Invariant.Change.{
  At, store-At, give_up-At, store_val-At, store_key-At, snap_get_empty_index_lem,
}
use lock_free_hop_scotch.ClhtLf.Invariant.Kept.{
  Kept, Unique, commit-absent, committed, committed-other,
}
use lock_free_hop_scotch.ClhtLf.Invariant.Claims.{Local-claim}
use lock_free_hop_scotch.ClhtLf.Invariant.Reachable.{Reach-Inv}

-- A key is in the bucket with a value: some valid slot holds them.
abbrev pub Contents : Type 1
Contents = ℕ → ℕ → Type 0

abbrev pub Holds : Bucket → Contents
Holds m k v = (j : ℕ) × (j < entries) × (m.map j ≡ valid) × (m.key j ≡ k) × (m.val j ≡ v)

-- What a step means to a caller.
pub data Label : Type 0 where
  silent : Label
  puts : (k v : ℕ) → Label
  removes : (k w : ℕ) → Label

abbrev pub label : {P : Values} {p p' : Pc} {m m' : Bucket} → Move P m p m' p' → Label
label (commit_win {k} {v} same) = Label.puts k v
label (remove_win {k} {i} {w} same) = Label.removes k w
label _ = Label.silent

-- A map with an atomic insert of a key that is absent, and an atomic removal of an entry.
abbrev pub Spec : Label → Contents → Contents → Type 0
Spec Label.silent old new = (k v : ℕ) → old k v ↔ new k v
Spec (Label.puts k v) old new =
    ((w : ℕ) → ¬ old k w) × ((j w : ℕ) → new j w ↔ ((old j w) ⊎ ((j ≡ k) × (w ≡ v))))
Spec (Label.removes k w) old new = (old k w) × ((j x : ℕ) → new j x ↔ ((old j x) × (j ≢ k)))

-- A change of a slot that is valid neither before nor after.
At-silent :
    {e : ℕ} {m m' : Bucket}
    → At e m m'
    → m.map e ≢ valid
    → m'.map e ≢ valid
    → Spec Label.silent (Holds m) (Holds m')
At-silent {e} {m} {m'} at off off' k v = (
  λ (j, lt, h, hk, hv).
      let (map, key, val) = at.others j lt (λ here. off (ap m.map (sym here) ∙ h)) in
      (j, lt, map ∙ h, key ∙ hk, val ∙ hv),
  λ (j, lt, h, hk, hv).
      let (map, key, val) = at.others j lt (λ here. off' (ap m'.map (sym here) ∙ h)) in
      (j, lt, sym map ∙ h, sym key ∙ hk, sym val ∙ hv),
)

pub Same-Fresh : {s : Snapshot} {m : Bucket} → Same s m → Fresh s m
Same-Fresh same = record { version = same.version; shown = λ j lt h. same.map j lt ∙ h }

-- The second CAS of `clht_put` adds its entry.
commit-Spec :
    (P : Values)
    → AllNonzero P
    → (m : Bucket) (k v e : ℕ) (s : Snapshot) → Local P m (commit k v e s)
    → Same (snap_set_map s e inserting) m
    → Spec (Label.puts k v) (Holds m) (Holds (committed m s e))
commit-Spec P all m k v e s (l, val, key) same =
    let other = committed-other m s e same in
    (
      λ w (j, lt, h, hk, hv). commit-absent all l val key same j lt h hk,
      λ a w. (
        λ (j, lt, h, hk, hv). elim (ℕ_discrete j e) [
          | yes here ↦ inr (sym hk ∙ ap m.key here ∙ key, sym hv ∙ ap m.val here ∙ val)
          | no ne ↦ inl (j, lt, sym (other j lt ne) ∙ h, hk, hv)
        ],
        λ r. elim r [
          | inl (j, lt, h, hk, hv) ↦ (
            j,
            lt,
            other j lt (λ here. absurd (ground (arith, l.held, h, ap m.map here))) ∙ h,
            hk,
            hv,
          )
          | inr (ak, wv) ↦ (
            e,
            l.bound,
            update_same (update s.map e inserting) e valid,
            key ∙ sym ak,
            val ∙ sym wv,
          )
        ],
      ),
    )

-- The CAS of `clht_remove` takes out the entry whose value it has read.
remove-Spec :
    (P : Values) (m : Bucket) (k i w : ℕ) (s : Snapshot)
    → Unique m
    → Local P m (remove_cas k s i w)
    → Same s m
    → Spec (Label.removes k w) (Holds m) (Holds (store_snapshot m (snap_set_map s i invalid)))
remove-Spec P m k i w s unique (l, val) same =
    let fresh = Same-Fresh same in
    let held = fresh.shown i l.bound l.shown in
    let at = store-At s m i invalid l.bound (omega arith) same in
    (
      (i, l.bound, held, l.key fresh, val fresh),
      λ a x. (
        λ (j, lt, h, hk, hv).
            let ne : j ≢ i = λ here.
              ground (arith, update_same s.map i invalid, ap (update s.map i invalid) here, h) in
            let was = sym (at.others j lt ne).0 ∙ h in
            (
              (j, lt, was, hk, hv),
              λ ak. ne (unique j i lt l.bound was held (hk ∙ ak ∙ sym (l.key fresh))),
            ),
        λ ((j, lt, h, hk, hv), ak). (
          j,
          lt,
          (at.others j lt (λ here. ak (sym hk ∙ ap m.key here ∙ l.key fresh))).0 ∙ h,
          hk,
          hv,
        ),
      ),
    )

same-Spec : (m : Bucket) → Spec Label.silent (Holds m) (Holds m)
same-Spec m k v = (λ h. h, λ h. h)

pub Move-Spec :
    {P : Values} {c : ℕ} {p p' : Pc} {m m' : Bucket}
    → AllNonzero P
    → Kept P c m
    → (mv : Move P m p m' p') → Local P m p
    → c + commits mv < 2 ^ 32
    → Spec (label mv) (Holds m) (Holds m')
Move-Spec {P} {m} all kept (give_up {k} {v} {e}) l small =
    At-silent (give_up-At m k v e l) (λ h. ground (arith, l.held, h))
      (λ h. ground (arith, update_same m.map e invalid, h))
Move-Spec {P} {m} all kept (claim_win {k} {v} {e} {s} found same) l small =
    let (lt, free) = snap_get_empty_index_lem s found in
    At-silent (store-At s m e inserting lt (omega arith) same)
      (λ h. ground (arith, same.map e lt, free, h))
      (λ h. ground (arith, update_same s.map e inserting, h))
Move-Spec {P} {m} all kept (store_val {k} {v} {e}) l small =
    let off : m.map e ≢ valid = λ h. ground (arith, l.held, h) in
    At-silent (store_val-At m e v l.bound l.held) off off
Move-Spec {P} {m} all kept (store_key {k} {v} {e}) (l, val) small =
    let off : m.map e ≢ valid = λ h. ground (arith, l.held, h) in
    At-silent (store_key-At m e k l.bound l.held) off off
Move-Spec {P} {m} all kept (commit_win {k} {v} {e} {s} same) l small =
    commit-Spec P all m k v e s l same
Move-Spec {P} {m} all kept (remove_win {k} {i} {w} {s} same) l small =
    remove-Spec P m k i w s (kept.unique all) l same
Move-Spec {P} {m} all kept _ l small = same-Spec m

abbrev pub label_of : {P : Values} {n : ℕ} {s t : System} → Step P n s t → Label
label_of (pick t lt mv) = label mv

-- Where no caller puts the value 0, in every state that is reached with fewer than 2 ^ 32 entries
-- put in, each step of a thread
-- does to the entries of the bucket what its label says, whatever the other threads are doing: the
-- second CAS of `clht_put` adds a key that was absent; the CAS of `clht_remove` takes out the
-- entry of its key, with the value that it returns; every other step leaves the entries alone.
pub Step-Spec :
    {P : Values} {n c : ℕ} {s t : System}
    → AllNonzero P
    → Reach P n c s
    → (st : Step P n s t) → c + added st < 2 ^ 32
    → Spec (label_of st) (Holds s.mem) (Holds t.mem)
Step-Spec all r (pick t lt mv) small =
    let inv = Reach-Inv r (omega (arith, small)) in Move-Spec all inv.kept mv (inv.local t) small

-- Where no caller puts the value 0, in every state that is reached with fewer than 2 ^ 32 entries
-- put in, a key has one value at most, which is not 0, and it is in one slot.
pub Reach-Unique :
    {P : Values} {n c : ℕ} {s : System}
    → AllNonzero P
    → Reach P n c s
    → c < 2 ^ 32
    → {k v w : ℕ} → (a : Holds s.mem k v) → (b : Holds s.mem k w) → (a.0 ≡ b.0) × (v ≡ w) × (v ≢ 0)
Reach-Unique {s} all r small (a, alt, ha, ka, va) (b, blt, hb, kb, vb) =
    let inv = Reach-Inv r small in
    let same = inv.kept.unique all a b alt blt ha hb (ka ∙ sym kb) in
    (same, sym va ∙ ap s.mem.val same ∙ vb, λ z. inv.kept.full all a alt ha (va ∙ z))

-- In every state that is reached with fewer than 2 ^ 32 entries put in, two threads that have
-- claimed a slot, by the first CAS of `clht_put`, are the same thread, and the slot is marked as
-- being filled.
pub Reach-Claims :
    {P : Values} {n c : ℕ} {s : System}
    → Reach P n c s
    → c < 2 ^ 32
    → (t u e : ℕ) → claim_of (s.pc t) ≡ some e
    → claim_of (s.pc u) ≡ some e
    → (t ≡ u) × (s.mem.map e ≡ inserting)
Reach-Claims {P} {s} r small t u e ct cu =
    let inv = Reach-Inv r small in
    (
      elim (ℕ_discrete t u) [ yes same ↦ same | no ne ↦ absurd (inv.apart t u ne e ct cu) ],
      Local-claim s.mem P (s.pc t) (inv.local t) ct,
    )
