-- ===== src/ClhtLbRes/Refinement.antt =====
-- OtherTables/src/clht/src/clht_lb_res.c: the growing table as a map from keys to values.
use lock_free_hop_scotch.Prelude.{
  ℕ, suc, ◌+◌, ◌*◌, ◌^◌, ◌<◌, ◌≤◌, ◌≡◌, ◌≢◌, Bool, true, false, not, ◌&&◌, Option, none, some, ◌==◌,
  ==_iff, Bool-cases, inl, inr, [], if◌then◌else◌, refl, sym, ap, ◌∙◌, arith,
}
use lock_free_hop_scotch.Prelude.Options.{◌>>=◌}
use native.Mathlib.Nat.{pow-le-pow_right, mul-le-mul_right}
use lock_free_hop_scotch.ClhtLb.Chain.{bucket_exists, value_or_0}
use lock_free_hop_scotch.ClhtLb.Table.{Locked}
use lock_free_hop_scotch.ClhtLb.Laws.{bucket_exists_lem, none_of, is_none, is_none-eq-false}
use lock_free_hop_scotch.ClhtLbRes.Table.{
  Table, clht_hash, clht_size, lock_free, lock_update, lock_acq_chk_resize, put_in, remove_in,
}
use lock_free_hop_scotch.ClhtLbRes.Status.{Clht}
use lock_free_hop_scotch.ClhtLbRes.Ops.{put_end, clht_put, clht_remove}
use lock_free_hop_scotch.ClhtLbRes.Change.{lookup, IsTable, clht_hash-IsIndex}
use lock_free_hop_scotch.ClhtLbRes.Locked.{PutIn, put_in_lem, remove_in_lem}
use lock_free_hop_scotch.ClhtLbRes.Grow.{Grown}
use lock_free_hop_scotch.ClhtLbRes.Factor.{InBounds}
use lock_free_hop_scotch.ClhtLbRes.Settle.{one_bucket, ht_status_lem}

-- The table is one, and no lock is held.
pub record IsClht (h : Clht) : Type 0 where
  pub valid : IsTable h.ht
  pub resizable : h.resize_lock ≡ lock_free
  pub settled : h.status_lock ≡ lock_free

-- Enough fuel, for tables below 2 ^ 30 entries.
-- Fuel of 30 is enough for a table of less than 2 ^ 30 entries.
pub enough :
    (fuel : ℕ) (t : Table)
    → IsTable t
    → 29 ≤ fuel
    → clht_size t < 2 ^ 30
    → clht_size t < t.num_buckets * 2 ^ suc fuel
enough fuel t v le few = omega (
  arith,
  few,
  pow-le-pow_right {n = 2} (omega arith) {i = 30} {j = suc fuel} (omega (arith, le)),
  mul-le-mul_right {m = 1} {n = t.num_buckets} (2 ^ suc fuel) (one_bucket t v),
)

-- The key has the value, and each other key what it had; the size counts the key.
pub record PutClht (h : Clht) (key val : ℕ) (ok : Bool) (h' : Clht) : Type 0 where
  pub result : ok ≡ is_none (lookup h.ht key)
  pub lookups :
      (q : ℕ) → q ≢ 0 → lookup h'.ht q ≡ (if q == key && ok then some val else lookup h.ht q)
  pub valid : IsClht h'
  pub sizes : clht_size h'.ht ≡ clht_size h.ht + (if ok then 1 else 0)
  pub larger : h.ht.num_buckets ≤ h'.ht.num_buckets

pub record RemoveClht (h : Clht) (key : ℕ) (r : ℕ × Clht) : Type 0 where
  pub result : r.0 ≡ value_or_0 (lookup h.ht key)
  pub lookups : (q : ℕ) → q ≢ 0 → lookup r.1.ht q ≡ (if q == key then none else lookup h.ht q)
  pub valid : IsClht r.1
  pub sizes : clht_size h.ht ≡ clht_size r.1.ht + (if is_none (lookup h.ht key) then 0 else 1)

-- The lock of a bucket is free, and is taken.
acquired :
    (b : Locked)
    → b.lock ≡ lock_free
    → lock_acq_chk_resize false b ≡ some (true, record b { lock = lock_update })
unfolding lock_acq_chk_resize
acquired b free = rw free refl

-- The end of `clht_put`, when the table may grow.
put_end_lem :
    (before : ℕ → ℕ) (fuel : ℕ) (h : Clht) (resize : Bool)
    → 29 ≤ fuel
    → IsClht h
    → InBounds h.ht
    → (h' : Clht) × (put_end (suc fuel) before h resize ≡ some h')
      × Grown h h'
      × (h'.status_lock ≡ lock_free)
unfolding put_end
put_end_lem before fuel h false le v b = (
  h,
  refl,
  record {
    lookups = λ q nz. refl;
    sizes = refl;
    valid = v.valid;
    unlocked = v.resizable;
    larger = omega arith;
    replaced = ([], refl, refl);
  },
  v.settled,
)
put_end_lem before fuel h true le v b =
    let (h', eq, g, free) =
      ht_status_lem before fuel h v.valid true false b v.resizable
        (ap (λ l. not (l == 0) && false) v.settled) (enough fuel h.ht v.valid le b.sizes) in
    (h', ap (λ o. o >>= λ r. some r.1) eq, g, free)

-- An entry that has been put stays in the table when it grows.
Grown-PutClht :
    (h h' h'' : Clht) (key val : ℕ) (ok : Bool)
    → PutIn h.ht key val ok h'.ht
    → Grown h' h''
    → h''.status_lock ≡ lock_free
    → PutClht h key val ok h''
Grown-PutClht h h' h'' key val ok p g free = record {
  result = p.result;
  lookups = λ q nz. g.lookups q nz ∙ p.lookups q nz;
  valid = record { valid = g.valid; resizable = g.unlocked; settled = free };
  sizes = g.sizes ∙ p.sizes;
  larger = omega (arith, p.buckets, g.larger);
}

-- The key is there, and nothing changes.
put_there : (h : Clht) (key val : ℕ) → IsClht h → lookup h.ht key ≢ none → PutClht h key val false h
put_there h key val v present = record {
  result = is_none-eq-false (lookup h.ht key) present;
  lookups =
      λ q nz. elim (Bool-cases (q == key)) [ inl here ↦ rw here refl | inr other ↦ rw other refl ];
  valid = v;
  sizes = omega arith;
  larger = omega arith;
}

one_more : (n m : ℕ) (ok : Bool) → m ≡ n + (if ok then 1 else 0) → m ≤ n + 1
one_more n m true e = omega (arith, e)
one_more n m false e = omega (arith, e)

-- In a table of 2 ^ 30 buckets at most, with no lock held, room for one entry more below 2 ^ 30, a
-- key other than 0 and fuel for 30 calls of `ht_status` at least, `clht_put` ends, also when the
-- table grows, and leaves no lock held. It returns true if and only if the key was absent; then the
-- key has the new value. Each other key keeps its value, and so does the key if it was there;
-- `clht_size` grows by one if the key is new, and there are no fewer buckets than before.
pub clht_put-PutClht :
    (before : ℕ → ℕ) (fuel : ℕ) (h : Clht) (key val : ℕ)
    → 29 ≤ fuel
    → IsClht h
    → h.ht.num_buckets ≤ 2 ^ 30
    → clht_size h.ht + 1 < 2 ^ 30
    → key ≢ 0
    → (ok : Bool) × (h' : Clht) × (clht_put (suc fuel) before h key val ≡ some (ok, h'))
      × PutClht h key val ok h'
unfolding clht_put
clht_put-PutClht before fuel h key val le v small few nz =
    let bin = clht_hash h.ht key in
    let r = put_in before h.ht bin key val in
    let h1 = record h { ht = r.2 } in
    let found = bucket_exists_lem (h.ht.table bin).chain key in
    let p = put_in_lem h.ht key val nz v.valid before in
    let bounds : InBounds r.2 = record {
      buckets = omega (arith, small, p.buckets);
      sizes = omega (arith, few, one_more (clht_size h.ht) (clht_size r.2) r.1 p.sizes);
    } in
    let v1 : IsClht h1 = record { valid = p.valid; resizable = v.resizable; settled = v.settled } in
    let (h2, eq, g, free) = put_end_lem before fuel h1 r.0 le v1 bounds in
    let finish : Option Clht → Option (Bool × Clht) = λ o. o >>= λ h. some (r.1, h) in
    let locked : Option (Bool × Locked) → Option (Bool × Clht) =
      λ o. o >>= λ b. finish (if b.0 then put_end (suc fuel) before h1 r.0 else none) in
    elim (Bool-cases (bucket_exists (h.ht.table bin).chain key)) [
      | inl there ↦ (
        false,
        h,
        ap (λ b. if b then some (false, h) else locked (lock_acq_chk_resize false (h.ht.table bin)))
            there,
        put_there h key val v (λ e. absurd (cc (sym there ∙ found))),
      )
      | inr other ↦ (
        r.1,
        h2,
        ap (λ b. if b then some (false, h) else locked (lock_acq_chk_resize false (h.ht.table bin)))
              other
            ∙ ap locked
                (acquired (h.ht.table bin) (v.valid.free bin (clht_hash-IsIndex h.ht v.valid key)))
            ∙ ap finish eq,
        Grown-PutClht h h1 h2 key val r.1 p g free,
      )
    ]

-- With no lock held, and a key other than 0, `clht_remove` ends and leaves no lock held. It returns
-- the value of the key, or 0 if the key was absent; then the key is absent, and each other key has
-- the value that it had; `clht_size` falls by one if the key was there.
pub clht_remove-RemoveClht :
    (h : Clht) (key : ℕ)
    → IsClht h
    → key ≢ 0
    → (r : ℕ × Clht) × (clht_remove h key ≡ some r) × RemoveClht h key r
unfolding clht_remove
clht_remove-RemoveClht h key v nz =
    let bin = clht_hash h.ht key in
    let r = remove_in h.ht bin key in
    let h1 = record h { ht = r.1 } in
    let found = bucket_exists_lem (h.ht.table bin).chain key in
    let locked : Option (Bool × Locked) → Option (ℕ × Clht) =
      λ o. o >>= λ b. if b.0 then some (r.0, h1) else none in
    elim (Bool-cases (bucket_exists (h.ht.table bin).chain key)) [
      | inl there ↦
          let p = remove_in_lem h.ht key 0 nz v.valid in
          (
            (r.0, h1),
            ap
                  (λ b.
                    if not b
                    then some (0, h)
                    else locked (lock_acq_chk_resize false (h.ht.table bin)))
                  there
                ∙ ap locked (
                    acquired (h.ht.table bin)
                      (v.valid.free bin (clht_hash-IsIndex h.ht v.valid key))),
            record {
              result = p.result;
              lookups = p.lookups;
              valid = record { valid = p.valid; resizable = v.resizable; settled = v.settled };
              sizes = p.sizes;
            },
          )
      | inr other ↦ (
        (0, h),
        ap (λ b. if not b then some (0, h) else locked (lock_acq_chk_resize false (h.ht.table bin)))
            other,
        remove_absent h key v (none_of (lookup h.ht key) (sym other ∙ found)),
      )
    ]
  where
    remove_absent :
        (h : Clht) (key : ℕ) → IsClht h → lookup h.ht key ≡ none → RemoveClht h key (0, h)
    remove_absent h key v absent = record {
      result = ap value_or_0 (sym absent);
      lookups = λ q qz. elim (Bool-cases (q == key)) [
        | inl here ↦ rw here (ap (lookup h.ht) ((==_iff q key).0 here) ∙ absent)
        | inr other ↦ rw other refl
      ];
      valid = v;
      sizes = rw absent omega arith;
    }
