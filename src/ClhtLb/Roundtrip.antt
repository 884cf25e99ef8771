-- ===== src/ClhtLb/Roundtrip.antt =====
-- OtherTables/src/clht/src/clht_lb.c: a put, then a get and a remove of the same key.
use lock_free_hop_scotch.Prelude.{
  ℕ, ◌+◌, ◌≡◌, ◌≢◌, Bool, true, ◌&&◌, none, some, ◌==◌, if◌then◌else◌, refl, sym, ap, ◌∙◌, arith,
  Bool-cases, ==_iff, inl, inr,
}
use lock_free_hop_scotch.ClhtLb.Chain.{value_or_0}
use lock_free_hop_scotch.ClhtLb.Table.{Table, clht_get, clht_put, clht_remove, clht_size}
use lock_free_hop_scotch.ClhtLb.Replace.{IsTable, lookup}
use lock_free_hop_scotch.ClhtLb.Laws.{is_none}
use lock_free_hop_scotch.ClhtLb.Refinement.{PutTable, RemoveTable, clht_put_lem, clht_remove_lem}

module _ (t : Table) (key val : ℕ) (nz : key ≢ 0) (absent : lookup t key ≡ none) where
  added_lookup : (a : Bool × Table) → PutTable t key val a → lookup a.1 key ≡ some val
  added_lookup a puts =
      let ok : a.0 ≡ true = puts.result ∙ ap is_none absent in
      let here : (key == key) ≡ true = (==_iff key key).1 refl in
      puts.lookups key nz
      ∙ ap (λ e. if e && a.0 then some val else lookup t key) here
      ∙ ap (λ e. if e then some val else lookup t key) ok

  restored :
      (a : Bool × Table) (r : ℕ × Table)
      → PutTable t key val a
      → RemoveTable a.1 key r
      → (r.0 ≡ val) × ((q : ℕ) → q ≢ 0 → lookup r.1 q ≡ lookup t q) × (clht_size r.1 ≡ clht_size t)
  restored a r puts removes =
      let now = added_lookup a puts in
      let ok : a.0 ≡ true = puts.result ∙ ap is_none absent in
      let more : clht_size a.1 ≡ clht_size t + 1 =
        puts.counts ∙ ap (λ b. clht_size t + (if b then 1 else 0)) ok in
      let less : clht_size a.1 ≡ clht_size r.1 + 1 =
        removes.counts ∙ ap (λ f. clht_size r.1 + (if is_none f then 0 else 1)) now in
      (
        removes.result ∙ ap value_or_0 now,
        λ q qz. elim (Bool-cases (q == key)) [
          | inl here ↦
              removes.lookups q qz
              ∙ ap (λ e. if e then none else lookup a.1 q) here
              ∙ sym (ap (lookup t) ((==_iff q key).0 here) ∙ absent)
          | inr other ↦
              removes.lookups q qz
              ∙ ap (λ e. if e then none else lookup a.1 q) other
              ∙ puts.lookups q qz
              ∙ ap (λ e. if e && a.0 then some val else lookup t q) other
        ],
        omega (arith, more, less),
      )

-- In a table, after a `clht_put` of an absent key other than 0, `clht_get` returns its value, and
-- `clht_remove` returns it too and leaves each key other than 0 with the value, and the table with
-- the size, that it had before both.
pub clht_put-remove :
    (before : ℕ → ℕ) (t : Table) (key val : ℕ)
    → IsTable t
    → key ≢ 0
    → lookup t key ≡ none
    → (a : Bool × Table) × (clht_put before t key val ≡ some a)
      × (clht_get a.1 key ≡ val)
      × ((r : Table) × (clht_remove a.1 key ≡ some (val, r))
          × ((q : ℕ) → q ≢ 0 → lookup r q ≡ lookup t q)
          × (clht_size r ≡ clht_size t))
unfolding clht_get
clht_put-remove before t key val v nz absent =
    let (a, runs, puts) = clht_put_lem before t key val v nz in
    let ((w, r), runs', removes) = clht_remove_lem a.1 key puts.valid nz in
    let (result, lookups, sizes) = restored t key val nz absent a (w, r) puts removes in
    (
      a,
      runs,
      ap value_or_0 (added_lookup t key val nz absent a puts),
      (r, runs' ∙ ap (λ w. some (w, r)) result, lookups, sizes),
    )
