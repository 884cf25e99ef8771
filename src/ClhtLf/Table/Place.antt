-- ===== src/ClhtLf/Table/Place.antt =====
-- OtherTables/src/clht/src/clht_lf.c: each key of the table is in its bucket, and once.
use lock_free_hop_scotch.Prelude.{
  ℕ, ◌^◌, ◌<◌, ◌≡◌, arith, sym, ap, subst, ◌∙◌, inl, inr, update, update_same, update_other,
  ℕ_discrete,
}
use lock_free_hop_scotch.ClhtLf.Bucket.{Bucket}
use lock_free_hop_scotch.ClhtLf.Worker.{Values, AllNonzero}
use lock_free_hop_scotch.ClhtLf.Refinement.{Holds, Label, label, Spec, Reach-Unique}
use lock_free_hop_scotch.ClhtLf.Table.{Table, clht_hash}
use lock_free_hop_scotch.ClhtLf.Table.Threads.{
  key_at, Threads, enter, act, TableReach, start, later,
}
use lock_free_hop_scotch.ClhtLf.Table.Keys.{About, Move-About, TableReach-Homed}
use lock_free_hop_scotch.ClhtLf.Table.Refinement.{bin-Spec}
use lock_free_hop_scotch.ClhtLf.Table.Bins.{TableReach-BinReach, clht_hashtable_create-zero}

-- The entries of a bucket are those of keys whose bucket it is.
abbrev Placed : Table → ℕ → Bucket → Type 0
Placed t b m = (k v : ℕ) → Holds m k v → clht_hash t k ≡ b

Spec-Placed :
    (t : Table) (b : ℕ) (m m' : Bucket) (k : ℕ) (l : Label)
    → b ≡ clht_hash t k
    → About k l
    → Spec l (Holds m) (Holds m')
    → Placed t b m
    → Placed t b m'
Spec-Placed t b m m' k Label.silent home about spec old = λ j v h. old j v ((spec j v).1 h)
Spec-Placed t b m m' k (Label.puts i w) home about (absent, adds) old = λ j v h.
    elim ((adds j v).0 h) [
      | inl was ↦ old j v was
      | inr (same, vw) ↦ ap (clht_hash t) (same ∙ sym about) ∙ sym home
    ]
Spec-Placed t b m m' k (Label.removes i w) home about (there, keeps) old =
    λ j v h. old j v ((keeps j v).0 h).0

TableReach-Placed :
    {P : Values} {n size c : ℕ} {s : Threads}
    → AllNonzero P
    → TableReach P n size c s
    → c < 2 ^ 32
    → (b : ℕ) → Placed s.ht b (s.ht.table b)
unfolding clht_hash
TableReach-Placed {n} {size} {c} {s} all (start z made quiet) small b =
    subst (λ t. Placed t b (t.table b)) (clht_hashtable_create-zero size made)
      (λ k v (j, lt, h, hk, hv). absurd (omega (arith, h)))
TableReach-Placed all (later r (enter t lt quiet at mv) e) small b =
    TableReach-Placed all r (omega (arith, e, small)) b
TableReach-Placed all (later {s} r (act t {p} {m} lt busy mv) e) small b =
    let old = TableReach-Placed all r (omega (arith, e, small)) in
    elim (ℕ_discrete b (s.bin t)) [
      | yes here ↦
          subst (λ i. Placed s.ht i (update s.ht.table (s.bin t) m i)) (sym here)
            (subst (Placed s.ht (s.bin t)) (sym (update_same s.ht.table (s.bin t) m)) (
              Spec-Placed s.ht (s.bin t) (s.ht.table (s.bin t)) m (key_at (s.pc t)) (label mv)
                (TableReach-Homed r t busy) (Move-About mv)
                (bin-Spec all r t mv (subst (λ d. d < 2 ^ 32) e small)) (old (s.bin t))))
      | no other ↦ subst (Placed s.ht b) (sym (update_other s.ht.table (s.bin t) m other)) (old b)
    ]

-- On a new table, where no caller of `clht_put` puts the value 0, in every state that any number of
-- threads reach with fewer than 2 ^ 32 entries put in: if two buckets of the table have an entry of
-- one key, they are one bucket, the one that `clht_hash` gives for the key, the entries are in one
-- slot, and have one value.
pub TableReach-Unique :
    {P : Values} {n size c : ℕ} {s : Threads}
    → AllNonzero P
    → TableReach P n size c s
    → c < 2 ^ 32
    → (a b : ℕ) {k v w : ℕ} → (x : Holds (s.ht.table a) k v) → (y : Holds (s.ht.table b) k w)
    → (a ≡ clht_hash s.ht k) × (b ≡ clht_hash s.ht k) × (x.0 ≡ y.0) × (v ≡ w)
TableReach-Unique {s} all r small a b {k} {v} {w} x y =
    let at = TableReach-Placed all r small a k v x in
    let bt = TableReach-Placed all r small b k w y in
    let (d, le, run) = TableReach-BinReach r a in
    let (slot, value, nz) =
      Reach-Unique all run (omega (arith, le, small)) x
        (subst (λ i. Holds (s.ht.table i) k w) (sym bt ∙ at) y) in
    (sym at, sym bt, slot, value)
