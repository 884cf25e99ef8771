-- ===== src/ClhtLf/Table/Count.antt =====
-- OtherTables/src/clht/src/clht_lf.c: what `clht_size` counts, step by step.
use lock_free_hop_scotch.Prelude.{
  ℕ, zero, suc, ◌+◌, ◌<◌, ◌≡◌, ◌≢◌, arith, refl, sym, ap, ◌==◌, if◌then◌else◌, update, update_same,
  ℕ_discrete,
}
use lock_free_hop_scotch.ClhtLf.Bucket.{
  invalid, valid, inserting, entries, Bucket, snap_set_map, store_snapshot,
}
use lock_free_hop_scotch.ClhtLf.Worker.{
  Pc, Values, Move, give_up, claim_win, store_val, store_key, commit_win, remove_win,
}
use lock_free_hop_scotch.ClhtLf.Invariant.Local.{Local}
use lock_free_hop_scotch.ClhtLf.Invariant.Change.{
  At, store-At, give_up-At, store_val-At, store_key-At, snap_get_empty_index_lem,
}
use lock_free_hop_scotch.ClhtLf.Invariant.Kept.{committed, committed-other}
use lock_free_hop_scotch.ClhtLf.Refinement.{Label, label, Same-Fresh}
use lock_free_hop_scotch.ClhtLf.Table.{total, counted, bucket_size}

-- Sums of equal terms, and of terms that differ at one index.
pub total_same : (f g : ℕ → ℕ) (n : ℕ) → ((j : ℕ) → j < n → g j ≡ f j) → total g n ≡ total f n
unfolding total
total_same f g zero same = refl
total_same f g (suc n) same =
    omega (arith, total_same f g n (λ j lt. same j (omega (arith, lt))), same n (omega arith))

pub total_change :
    (f g : ℕ → ℕ) (n e : ℕ)
    → e < n
    → ((j : ℕ) → j < n → j ≢ e → g j ≡ f j)
    → total g n + f e ≡ total f n + g e
unfolding total
total_change f g zero e lt others = absurd (omega arith)
total_change f g (suc n) e lt others = elim (ℕ_discrete e n) [
  | yes here ↦ omega (
    arith,
    total_same f g n (λ j low. others j (omega (arith, low)) (λ s. omega (arith, s, here, low))),
    ap f here,
    ap g here,
  )
  | no ne ↦ omega (
    arith,
    total_change f g n e (omega (arith, lt, ne)) (λ j low. others j (omega (arith, low))),
    others n (omega arith) (λ s. ne (sym s)),
  )
]

-- What the label adds to the size, and what it takes: a key 0 is not counted.
abbrev pub puts_of : Label → ℕ
puts_of (Label.puts k v) = if k == 0 then 0 else 1
puts_of _ = 0

abbrev pub removes_of : Label → ℕ
removes_of (Label.removes k w) = if k == 0 then 0 else 1
removes_of _ = 0

-- A change of the state and the key of one slot.
bucket_change :
    (m m' : Bucket) (e : ℕ)
    → e < entries
    → ((j : ℕ) → j < entries → j ≢ e → (m'.map j ≡ m.map j) × (m'.key j ≡ m.key j))
    → bucket_size m' + counted m e ≡ bucket_size m + counted m' e
bucket_change m m' e lt others =
    total_change (counted m) (counted m') entries e lt
      (λ j low ne. let (map, key) = others j low ne in ground (arith, map, key))

not_counted : (m : Bucket) (e : ℕ) → m.map e ≢ valid → counted m e ≡ 0
not_counted m e off = ground (arith, off)

is_counted :
    (m : Bucket) (e : ℕ) {k : ℕ}
    → m.map e ≡ valid
    → m.key e ≡ k
    → counted m e ≡ (if k == 0 then 0 else 1)
is_counted m e on key = ground (arith, on, key)

At-count :
    {e : ℕ} {m m' : Bucket}
    → At e m m'
    → m.map e ≢ valid
    → m'.map e ≢ valid
    → bucket_size m' ≡ bucket_size m
At-count {e} {m} {m'} at off off' = omega (
  arith,
  bucket_change m m' e at.bound (λ j lt ne. let (map, key, val) = at.others j lt ne in (map, key)),
  not_counted m e off,
  not_counted m' e off',
)

pub Move-count :
    {P : Values} {p p' : Pc} {m m' : Bucket}
    → (mv : Move P m p m' p') → Local P m p
    → bucket_size m' + removes_of (label mv) ≡ bucket_size m + puts_of (label mv)
Move-count {m} (give_up {k} {v} {e}) l = omega (
  arith,
  At-count (give_up-At m k v e l) (λ h. ground (arith, l.held, h))
      (λ h. ground (arith, update_same m.map e invalid, h)),
)
Move-count {m} (claim_win {k} {v} {e} {s} found same) l =
    let (lt, free) = snap_get_empty_index_lem s found in
    omega (
      arith,
      At-count (store-At s m e inserting lt (omega arith) same)
          (λ h. ground (arith, same.map e lt, free, h))
          (λ h. ground (arith, update_same s.map e inserting, h)),
    )
Move-count {m} (store_val {k} {v} {e}) l =
    let off : m.map e ≢ valid = λ h. ground (arith, l.held, h) in
    omega (arith, At-count (store_val-At m e v l.bound l.held) off off)
Move-count {m} (store_key {k} {v} {e}) (l, val) =
    let off : m.map e ≢ valid = λ h. ground (arith, l.held, h) in
    omega (arith, At-count (store_key-At m e k l.bound l.held) off off)
Move-count {m} (commit_win {k} {v} {e} {s} same) (l, val, key) =
    let m' = committed m s e in
    omega (
      arith,
      bucket_change m m' e l.bound (λ j lt ne. (committed-other m s e same j lt ne, refl)),
      not_counted m e (λ h. ground (arith, l.held, h)),
      is_counted m' e (update_same (update s.map e inserting) e valid) key,
    )
Move-count {m} (remove_win {k} {i} {w} {s} same) (l, val) =
    let fresh = Same-Fresh same in
    let m' = store_snapshot m (snap_set_map s i invalid) in
    let at = store-At s m i invalid l.bound (omega arith) same in
    omega (
      arith,
      bucket_change m m' i l.bound
          (λ j lt ne. let (map, key, val) = at.others j lt ne in (map, key)),
      is_counted m i (fresh.shown i l.bound l.shown) (l.key fresh),
      not_counted m' i (λ h. ground (arith, update_same s.map i invalid, h)),
    )
Move-count _ l = omega arith
