-- ===== src/ClhtLf/Invariant/Thread.antt =====
-- OtherTables/src/clht/src/clht_lf.c: what a thread knows after its own step.
use lock_free_hop_scotch.Prelude.{
  ℕ, ◌+◌, ◌≤◌, ◌<◌, ◌≡◌, ◌≢◌, Option, none, some, arith, refl, sym, ap, subst, ◌∙◌, ◌⊎◌, inl, inr,
  update_same, ℕ_discrete,
}
use lock_free_hop_scotch.ClhtLf.Bucket.{valid, inserting, entries, Bucket, Snapshot, snapshot}
use lock_free_hop_scotch.ClhtLf.Worker.{
  Call, get, put, key_of, hit, miss, Pc, Move, call_get, call_put, call_remove, read_snapshot,
  read_val, scan_end, map_skip, map_valid, key_skip, key_match, val_hit, val_zero, val_changed,
  give_up, no_room, claim_win, claim_lose, keep_claim, store_val, store_key, commit_win,
  commit_lose, remove_snapshot, remove_end, remove_skip, remove_match, remove_read, remove_win,
  remove_lose, Values, AllNonzero,
}
use lock_free_hop_scotch.ClhtLf.Invariant.Local.{
  Fresh, Past, FilledAt, NotShown, Searches, Saw, SawValid, Claimed, Local,
}
use lock_free_hop_scotch.ClhtLf.Invariant.Env.{Env, Past-stable, Clear-stable}
use lock_free_hop_scotch.ClhtLf.Invariant.Change.{snap_get_empty_index_lem}

-- No entry has the value 0, which stands for "absent".
abbrev pub Full : Bucket → Type 0
Full m = (j : ℕ) → j < entries → m.map j ≡ valid → m.val j ≢ 0

pub snapshot-Past : (m : Bucket) → Past (snapshot m) m
snapshot-Past m = record { version = omega arith; shows = λ same j lt h. h }

-- A search that ends without a match has seen all slots, or its snapshot is out of date.
abbrev pub Over : Values → Bucket → Call → ℕ → Type 0
Over P m (get k) i = Unit
Over P m (put k v e s) i = (entries ≤ i) ⊎ (AllNonzero P → ¬ Fresh s m)

module _ (P : Values) (m : Bucket) where
  -- The search has looked at one more slot, which is no match.
  Searches-next :
      (c : Call) (i : ℕ)
      → (m.map i ≡ valid → m.key i ≢ key_of c)
      → Searches P m c i
      → Searches P m c (i + 1)
  Searches-next (get k) i other l = tt
  Searches-next (put k v e s) i other l = record {
    allowed = l.allowed;
    filled = l.filled;
    hidden = l.hidden;
    past = l.past;
    clear = λ all fresh j below lt h. elim (ℕ_discrete j i) [
      | yes here ↦ subst (λ a. m.key a ≢ k) (sym here) (other (ap m.map (sym here) ∙ h))
      | no ne ↦ l.clear all fresh j (omega arith) lt h
    ];
  }

  miss-Local : (c : Call) (i : ℕ) → Over P m c i → Searches P m c i → Local P m (miss c)
  miss-Local (get k) i over l = tt
  miss-Local (put k v e s) i over l = record {
    allowed = l.allowed;
    filled = l.filled;
    hidden = l.hidden;
    past = l.past;
    clear = λ all fresh j below lt h. elim over [
      | inl end ↦ l.clear all fresh j (omega arith) lt h
      | inr stale ↦ absurd (stale all fresh)
    ];
  }

  hit-Local : (c : Call) (i : ℕ) → Searches P m c i → Local P m (hit c)
  hit-Local (get k) i l = tt
  hit-Local (put k v none s) i l = tt
  hit-Local (put k v (some e) s) i l = l.filled

  -- A slot seen to be valid now has the value read before, if the snapshot is fresh.
  Saw-SawValid :
      (c : Call) (i w : ℕ)
      → i < entries
      → m.map i ≡ valid
      → Searches P m c i
      → Saw m c i w
      → SawValid m c i w
  Saw-SawValid (get k) i w lt h l saw = tt
  Saw-SawValid (put k v e s) i w lt h l saw =
      λ fresh. let shown = l.past.shows fresh.version i lt h in (shown, saw fresh shown)

  read-Saw : (c : Call) (i : ℕ) → Saw m c i (m.val i)
  read-Saw (get k) i = tt
  read-Saw (put k v e s) i = λ fresh shown. refl

  end-Over : (c : Call) (i : ℕ) → entries ≤ i → Over P m c i
  end-Over (get k) i end = tt
  end-Over (put k v e s) i end = inl end

  zero-Over :
      (c : Call) (i : ℕ) → (AllNonzero P → Full m) → i < entries → SawValid m c i 0 → Over P m c i
  zero-Over (get k) i full lt saw = tt
  zero-Over (put k v e s) i full lt saw =
      inr (λ all fresh. let (shown, val) = saw fresh in full all i lt (fresh.shown i lt shown) val)

  changed-Over : (c : Call) (i w : ℕ) → m.val i ≢ w → SawValid m c i w → Over P m c i
  changed-Over (get k) i w ne saw = tt
  changed-Over (put k v e s) i w ne saw = inr (λ all fresh. ne (saw fresh).1)

-- After a claim or a write to the claimed slot, what the search found still holds.
keep-Claimed :
    {P : Values} {m m' : Bucket} {k v e : ℕ} {s : Snapshot} {p : Pc}
    → Env p m m'
    → m'.map e ≡ inserting
    → Claimed P m k v e s
    → Claimed P m' k v e s
keep-Claimed {k} env held l = record {
  allowed = l.allowed;
  bound = l.bound;
  held = held;
  hidden = l.hidden;
  past = Past-stable env l.past;
  clear = λ all. Clear-stable env k entries l.past (l.clear all);
}

-- A fresh snapshot does not show a filled slot as valid.
hidden_of : (m : Bucket) (k v : ℕ) (e : Option ℕ) → FilledAt m k v e → NotShown (snapshot m) e
hidden_of m k v none f = tt
hidden_of m k v (some e) f = λ h. ground (arith, f.held, h)

-- What a thread knows after its step.
pub Move-Local :
    (P : Values) {p p' : Pc} {m m' : Bucket}
    → (AllNonzero P → Full m)
    → Move P m p m' p'
    → Local P m p
    → Env p m m'
    → Local P m' p'
Move-Local P full (call_get k) l env = tt
Move-Local P full (call_put k v nz) l env = (nz, tt)
Move-Local P full (call_remove k) l env = tt
Move-Local P {m} full (read_snapshot {k} {v} {e}) (nz, f) env = record {
  allowed = nz;
  filled = f;
  hidden = hidden_of m k v e f;
  past = snapshot-Past m;
  clear = λ all fresh j below lt h. absurd (omega (arith, below));
}
Move-Local P {m} full (read_val {c} {i} lt) l env = (lt, l, read-Saw P m c i)
Move-Local P {m} full (scan_end {c} {i} end) l env = miss-Local P m c i (end-Over P m c i end) l
Move-Local P {m} full (map_skip {c} {i} h) (lt, l, saw) env =
    Searches-next P m c i (λ yes. absurd (h yes)) l
Move-Local P {m} full (map_valid {c} {i} {w} h) (lt, l, saw) env =
    (lt, l, Saw-SawValid P m c i w lt h l saw)
Move-Local P {m} full (key_skip {c} {i} h) (lt, l, saw) env = Searches-next P m c i (λ v. h) l
Move-Local P full (key_match h) l env = l
Move-Local P {m} full (val_hit {c} {i} same nz) (lt, l, saw) env = hit-Local P m c i l
Move-Local P {m} full (val_zero {c} {i} {w} same z) (lt, l, saw) env =
    miss-Local P m c i (zero-Over P m c i full lt (subst (SawValid m c i) z saw)) l
Move-Local P {m} full (val_changed {c} {i} {w} ne) (lt, l, saw) env =
    miss-Local P m c i (changed-Over P m c i w ne saw) l
Move-Local P full give_up l env = tt
Move-Local P full (no_room h) l env = (l.allowed, tt)
Move-Local P full (claim_win {k} {v} {e} {s} found same) l env =
    let (lt, free) = snap_get_empty_index_lem s found in
    record {
      allowed = l.allowed;
      bound = lt;
      held = update_same s.map e inserting;
      hidden = ground (arith, free);
      past = Past-stable env l.past;
      clear = λ all. Clear-stable env k entries l.past (l.clear all);
    }
Move-Local P full (claim_lose found h) l env = (l.allowed, tt)
Move-Local P full (keep_claim {e}) l env = (
  record {
    allowed = l.allowed;
    bound = l.filled.bound;
    held = l.filled.held;
    hidden = l.hidden;
    past = l.past;
    clear = l.clear;
  },
  l.filled.val,
  l.filled.key,
)
Move-Local P {m} full (store_val {v} {e}) l env = (keep-Claimed env l.held l, update_same m.val e v)
Move-Local P {m} full (store_key {k} {e}) (l, val) env =
    (keep-Claimed env l.held l, val, update_same m.key e k)
Move-Local P full (commit_win same) l env = tt
Move-Local P full (commit_lose h) (l, val, key) env =
    (l.allowed, record { bound = l.bound; held = l.held; key = key; val = val })
Move-Local P {m} full remove_snapshot l env = snapshot-Past m
Move-Local P full (remove_end h) l env = tt
Move-Local P full (remove_skip lt h) l env = l
Move-Local P full (remove_match lt key shown) l env = record {
  bound = lt;
  shown = shown;
  past = l;
  key = λ fresh. key;
}
Move-Local P full remove_read l env = (l, λ fresh. refl)
Move-Local P full (remove_win h) l env = tt
Move-Local P full (remove_lose h) l env = tt
