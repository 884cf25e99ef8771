-- ===== src/ClhtLf/Invariant/Claims.antt =====
-- OtherTables/src/clht/src/clht_lf.c: no two threads claim the same slot.
use lock_free_hop_scotch.Prelude.{
  ℕ, ◌≡◌, ◌≢◌, Option, none, some, arith, sym, ap, ◌∙◌, ◌⊎◌, inl, inr,
}
use mathlib.Core.Option.{some-injective}
use lock_free_hop_scotch.ClhtLf.Bucket.{inserting, Bucket}
use lock_free_hop_scotch.ClhtLf.Worker.{
  retry, scan, at_map, at_key, at_val, release, missed, write_val, write_key, commit, Call, get,
  put, hit, miss, Pc, Move, Values, scan_end, val_hit, val_zero, val_changed, give_up, claim_win,
  commit_win,
}
use lock_free_hop_scotch.ClhtLf.Invariant.Local.{FilledAt, Searches, Local, claim_of, claim_of_call}
use lock_free_hop_scotch.ClhtLf.Invariant.Change.{snap_get_empty_index_lem}

module _ (m : Bucket) {a : ℕ} where
  claim-held : {e : ℕ} → m.map e ≡ inserting → some e ≡ some a → m.map a ≡ inserting
  claim-held {e} held h = ap m.map (sym (some-injective e a h)) ∙ held

  FilledAt-claim : (k v : ℕ) (e : Option ℕ) → FilledAt m k v e → e ≡ some a → m.map a ≡ inserting
  FilledAt-claim k v none f h = absurd (cc h)
  FilledAt-claim k v (some e) f h = claim-held f.held h

  Searches-claim :
      (P : Values) (c : Call) (i : ℕ)
      → Searches P m c i
      → claim_of_call c ≡ some a
      → m.map a ≡ inserting
  Searches-claim P (get k) i l h = absurd (cc h)
  Searches-claim P (put k v e s) i l h = FilledAt-claim k v e l.filled h

  -- A thread's claimed slot is marked.
  pub Local-claim : (P : Values) (q : Pc) → Local P m q → claim_of q ≡ some a → m.map a ≡ inserting
  Local-claim P (retry k v e) (nz, f) h = FilledAt-claim k v e f h
  Local-claim P (scan c i) l h = Searches-claim P c i l h
  Local-claim P (at_map c i w) (lt, l, saw) h = Searches-claim P c i l h
  Local-claim P (at_key c i w) (lt, l, saw) h = Searches-claim P c i l h
  Local-claim P (at_val c i w) (lt, l, saw) h = Searches-claim P c i l h
  Local-claim P (release k v e) l h = claim-held l.held h
  Local-claim P (missed k v e s) l h = FilledAt-claim k v e l.filled h
  Local-claim P (write_val k v e s) l h = claim-held l.held h
  Local-claim P (write_key k v e s) (l, val) h = claim-held l.held h
  Local-claim P (commit k v e s) (l, val, key) h = claim-held l.held h
  Local-claim P _ l h = absurd (cc h)

-- The claim of a call stays with it when its search ends.
miss-claim : (c : Call) {a : ℕ} → claim_of (miss c) ≡ some a → claim_of_call c ≡ some a
miss-claim (get k) h = h
miss-claim (put k v e s) h = h

hit-claim : (c : Call) {a : ℕ} → claim_of (hit c) ≡ some a → claim_of_call c ≡ some a
hit-claim (get k) h = h
hit-claim (put k v none s) h = h
hit-claim (put k v (some e) s) h = h

-- A claim is carried over, or it is made on a slot that was not marked.
pub Move-claim :
    {P : Values} {p p' : Pc} {m m' : Bucket} {a : ℕ}
    → Move P m p m' p'
    → claim_of p' ≡ some a
    → (claim_of p ≡ some a) ⊎ (m.map a ≢ inserting)
Move-claim {m} {a} (claim_win {e} {s} found same) h =
    let (lt, free) = snap_get_empty_index_lem s found in
    let here : e ≡ a = some-injective e a h in
    inr (λ held. ground (arith, same.map e lt, free, ap m.map here, held))
Move-claim (scan_end {c} end) h = inl (miss-claim c h)
Move-claim (val_hit {c} eq nz) h = inl (hit-claim c h)
Move-claim (val_zero {c} eq z) h = inl (miss-claim c h)
Move-claim (val_changed {c} ne) h = inl (miss-claim c h)
Move-claim give_up h = absurd (cc h)
Move-claim (commit_win same) h = absurd (cc h)
Move-claim _ h = inl h
