-- ===== src/ClhtLf/Invariant/Env.antt =====
-- OtherTables/src/clht/src/clht_lf.c: what a step of one thread may change, and that no other
-- thread's knowledge is lost by it.
use lock_free_hop_scotch.Prelude.{ℕ, ◌≤◌, ◌<◌, ◌≡◌, ◌≢◌, Option, none, some, arith, refl}
use lock_free_hop_scotch.ClhtLf.Bucket.{valid, inserting, entries, Bucket, Snapshot}
use lock_free_hop_scotch.ClhtLf.Worker.{
  Call, get, put, Pc, idle, retry, scan, at_map, at_key, at_val, release, missed, write_val,
  write_key, commit, remove_retry, remove_scan, remove_val, remove_cas, Values,
}
use lock_free_hop_scotch.ClhtLf.Invariant.Local.{
  Fresh, Past, Clear, Filled, FilledAt, Puts, Searches, Saw, SawValid, Claimed, Found, Local,
  claim_of, claim_of_call,
}

-- A change of the bucket by a thread that stands at `p`: the version does not fall; while it
-- stays, no entry becomes valid; a slot that stays valid keeps its entry; and a slot that another
-- thread has claimed is left alone.
pub record Env (p : Pc) (m m' : Bucket) : Type 0 where
  pub grows : m.version ≤ m'.version
  pub shrinks : m'.version ≡ m.version → (j : ℕ) → j < entries → m'.map j ≡ valid → m.map j ≡ valid
  pub stays :
      (j : ℕ)
      → j < entries
      → m.map j ≡ valid
      → m'.map j ≡ valid
      → (m'.key j ≡ m.key j) × (m'.val j ≡ m.val j)
  pub keeps :
      (e : ℕ)
      → e < entries
      → m.map e ≡ inserting
      → claim_of p ≢ some e
      → (m'.map e ≡ inserting) × (m'.key e ≡ m.key e) × (m'.val e ≡ m.val e)

module _ {p : Pc} {m m' : Bucket} (env : Env p m m') where
  Fresh-back : {s : Snapshot} → Past s m → Fresh s m' → Fresh s m
  Fresh-back past fresh = record {
    version = omega (arith, env.grows, past.version, fresh.version);
    shown = λ j lt h.
        env.shrinks (omega (arith, env.grows, past.version, fresh.version)) j lt
          (fresh.shown j lt h);
  }

  pub Past-stable : {s : Snapshot} → Past s m → Past s m'
  Past-stable past = record {
    version = omega (arith, env.grows, past.version);
    shows = λ e j lt h.
        past.shows (omega (arith, env.grows, past.version)) j lt
          (env.shrinks (omega (arith, env.grows, past.version)) j lt h);
  }

  -- A slot that is valid now, under a fresh snapshot, has the entry that it had.
  entry_stable :
      {s : Snapshot}
      → Past s m
      → Fresh s m'
      → (j : ℕ) → j < entries
      → m'.map j ≡ valid
      → (m.map j ≡ valid) × (m'.key j ≡ m.key j) × (m'.val j ≡ m.val j)
  entry_stable past fresh j lt h =
      let same : m'.version ≡ m.version = omega (arith, env.grows, past.version, fresh.version) in
      let was = env.shrinks same j lt h in let (k, v) = env.stays j lt was h in (was, k, v)

  pub Clear-stable : {s : Snapshot} (k i : ℕ) → Past s m → Clear s m k i → Clear s m' k i
  Clear-stable k i past clear fresh j below lt h =
      let (was, key, val) = entry_stable past fresh j lt h in
      rw key (clear (Fresh-back past fresh) j below lt was)

  Filled-stable : {k v e : ℕ} → claim_of p ≢ some e → Filled m k v e → Filled m' k v e
  Filled-stable {e} ne f =
      let (map, key, val) = env.keeps e f.bound f.held ne in
      record { bound = f.bound; held = map; key = rw key f.key; val = rw val f.val }

  FilledAt-stable :
      (k v : ℕ) (e : Option ℕ)
      → ((a : ℕ) → e ≡ some a → claim_of p ≢ some a)
      → FilledAt m k v e
      → FilledAt m' k v e
  FilledAt-stable k v none ne f = tt
  FilledAt-stable k v (some e) ne f = Filled-stable (ne e refl) f

  Puts-stable :
      {P : Values} {k v i : ℕ} {e : Option ℕ} {s : Snapshot}
      → ((a : ℕ) → e ≡ some a → claim_of p ≢ some a)
      → Puts P m k v e s i
      → Puts P m' k v e s i
  Puts-stable {k} {v} {i} {e} ne q = record {
    allowed = q.allowed;
    filled = FilledAt-stable k v e ne q.filled;
    hidden = q.hidden;
    past = Past-stable q.past;
    clear = λ all. Clear-stable k i q.past (q.clear all);
  }

  Claimed-stable :
      {P : Values} {k v e : ℕ} {s : Snapshot}
      → claim_of p ≢ some e
      → Claimed P m k v e s
      → Claimed P m' k v e s
  Claimed-stable {k} {e} ne q = record {
    allowed = q.allowed;
    bound = q.bound;
    held = (env.keeps e q.bound q.held ne).0;
    hidden = q.hidden;
    past = Past-stable q.past;
    clear = λ all. Clear-stable k entries q.past (q.clear all);
  }

  Found-stable : {k i : ℕ} {s : Snapshot} → Found m k s i → Found m' k s i
  Found-stable {i} f = record {
    bound = f.bound;
    shown = f.shown;
    past = Past-stable f.past;
    key = λ fresh.
        let (was, key, val) = entry_stable f.past fresh i f.bound (fresh.shown i f.bound f.shown) in
        rw key (f.key (Fresh-back f.past fresh));
  }

  -- Two threads at `p` and `q` have not claimed the same slot.
  Searches-stable :
      (P : Values) (c : Call) (i : ℕ)
      → ((a : ℕ) → claim_of_call c ≡ some a → claim_of p ≢ some a)
      → Searches P m c i
      → Searches P m' c i
  Searches-stable P (get k) i ne l = tt
  Searches-stable P (put k v e s) i ne l = Puts-stable ne l

  Saw-stable :
      (P : Values) (c : Call) (i w : ℕ)
      → i < entries
      → Searches P m c i
      → Saw m c i w
      → Saw m' c i w
  Saw-stable P (get k) i w lt l h = tt
  Saw-stable P (put k v e s) i w lt l h = λ fresh shown.
      let (was, key, val) = entry_stable l.past fresh i lt (fresh.shown i lt shown) in
      rw val (h (Fresh-back l.past fresh) shown)

  SawValid-stable :
      (P : Values) (c : Call) (i w : ℕ)
      → i < entries
      → Searches P m c i
      → SawValid m c i w
      → SawValid m' c i w
  SawValid-stable P (get k) i w lt l h = tt
  SawValid-stable P (put k v e s) i w lt l h = λ fresh.
      let (shown, seen) = h (Fresh-back l.past fresh) in
      let (was, key, val) = entry_stable l.past fresh i lt (fresh.shown i lt shown) in
      (shown, rw val seen)

  -- What a thread at `q` knows is kept by a step of a thread at `p` with another claim.
  pub Local-stable :
      (P : Values) (q : Pc)
      → ((a : ℕ) → claim_of q ≡ some a → claim_of p ≢ some a)
      → Local P m q
      → Local P m' q
  Local-stable P idle ne l = tt
  Local-stable P (retry k v e) ne (nz, f) = (nz, FilledAt-stable k v e ne f)
  Local-stable P (scan c i) ne l = Searches-stable P c i ne l
  Local-stable P (at_map c i w) ne (lt, l, h) =
      (lt, Searches-stable P c i ne l, Saw-stable P c i w lt l h)
  Local-stable P (at_key c i w) ne (lt, l, h) =
      (lt, Searches-stable P c i ne l, SawValid-stable P c i w lt l h)
  Local-stable P (at_val c i w) ne (lt, l, h) =
      (lt, Searches-stable P c i ne l, SawValid-stable P c i w lt l h)
  Local-stable P (release k v e) ne l = Filled-stable (ne e refl) l
  Local-stable P (missed k v e s) ne l = Puts-stable ne l
  Local-stable P (write_val k v e s) ne l = Claimed-stable (ne e refl) l
  Local-stable P (write_key k v e s) ne (l, val) =
      let (map', key', val') = env.keeps e l.bound l.held (ne e refl) in
      (Claimed-stable (ne e refl) l, rw val' val)
  Local-stable P (commit k v e s) ne (l, val, key) =
      let (map', key', val') = env.keeps e l.bound l.held (ne e refl) in
      (Claimed-stable (ne e refl) l, rw val' val, rw key' key)
  Local-stable P (remove_retry k) ne l = tt
  Local-stable P (remove_scan k s i) ne l = Past-stable l
  Local-stable P (remove_val k s i) ne l = Found-stable l
  Local-stable P (remove_cas k s i w) ne (l, h) = (
    Found-stable l,
    λ fresh.
        let (was, key, val) = entry_stable l.past fresh i l.bound (fresh.shown i l.bound l.shown) in
        rw val (h (Fresh-back l.past fresh)),
  )
