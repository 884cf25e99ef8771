-- ===== src/ClhtLf/Table/Bins.antt =====
-- OtherTables/src/clht/src/clht_lf.c: what the threads do to one bucket of the table is a run on
-- that bucket alone.
use lock_free_hop_scotch.Prelude.{
  ℕ, ◌+◌, ◌≤◌, ◌<◌, ◌≡◌, ◌≢◌, some, none, true, false, ◌==◌, ==_iff, Bool-cases, if◌then◌else◌, inl,
  inr, update, update_same, update_other, refl, sym, ap, subst, ◌∙◌, fun_ext, arith,
}
use mathlib.Core.Option.{some-injective}
use lock_free_hop_scotch.ClhtLf.Bucket.{Bucket}
use lock_free_hop_scotch.ClhtLf.Worker.{Pc, idle, Values, Move, commit_win, commits}
use lock_free_hop_scotch.ClhtLf.System.{System, Step, pick, added, init, Reach}
use lock_free_hop_scotch.ClhtLf.System as Bin
use lock_free_hop_scotch.ClhtLf.Table.{Table, zero_table, clht_hashtable_create, clht_hash}
use lock_free_hop_scotch.ClhtLf.Table.Threads.{
  key_at, Threads, store, enter, act, TableReach, start, later,
}

-- A new table is zero.
pub clht_hashtable_create-zero :
    (n : ℕ) {t : Table} → clht_hashtable_create true true n ≡ some t → zero_table n ≡ t
unfolding clht_hashtable_create
clht_hashtable_create-zero n {t} h = elim (Bool-cases (n == 0)) [
  | inl z ↦ absurd (cc (sym (ap (λ b. if b then none else some (zero_table n)) z) ∙ h))
  | inr z ↦ some-injective _ _ (sym (ap (λ b. if b then none else some (zero_table n)) z) ∙ h)
]

-- A thread seen from bucket `b`.
abbrev pub pc_in : ℕ → Threads → ℕ → Pc
pc_in b s t = if s.bin t == b then s.pc t else idle

abbrev pub bin_of : ℕ → Threads → System
bin_of b s = record { mem = s.ht.table b; pc = pc_in b s }

System-eq :
    {m m' : Bucket} {p q : ℕ → Pc}
    → m ≡ m'
    → ((t : ℕ) → p t ≡ q t)
    → ◌≡◌ {A = System} (record { mem = m; pc = p }) (record { mem = m'; pc = q })
System-eq e h i = record { mem = e i; pc = fun_ext h i }

-- A thread that is between two calls adds nothing.
commits-idle :
    {P : Values} {m m' : Bucket} {p p' : Pc} (mv : Move P m p m' p') → p ≡ idle → commits mv ≡ 0
commits-idle (commit_win same) e = absurd (cc e)
commits-idle _ e = refl

-- A step of a thread whose place is known by an equation.
pick_at :
    {P : Values} (n : ℕ) {s : System} (t : ℕ) {q p : Pc} {m : Bucket}
    → t < n
    → s.pc t ≡ q
    → (mv : Move P s.mem q m p)
    → (st : Step P n s (record { mem = m; pc = update s.pc t p })) × (Bin.added st ≡ commits mv)
pick_at {P} n {s} t {q} {p} {m} lt e =
    subst
      (λ q.
        (mv : Move P s.mem q m p)
        → (st : Step P n s (record { mem = m; pc = update s.pc t p })) × (Bin.added st
            ≡ commits mv))
      e (λ mv. (pick t lt mv, refl))

-- What a step makes of the thread `t`, and of each other thread `u`, as bucket `b` sees it.
module _ (pc : ℕ → Pc) (bin : ℕ → ℕ) (b t : ℕ) (p : Pc) (u : ℕ) where
  module _ (home : ℕ) where
    enter_here :
        (home == b) ≡ true
        → update (λ u. if bin u == b then pc u else idle) t p u
          ≡ (if update bin t home u == b then update pc t p u else idle)
    enter_here h = ground arith

    enter_away :
        (home == b) ≡ false
        → pc t ≡ idle
        → (if bin u == b then pc u else idle)
          ≡ (if update bin t home u == b then update pc t p u else idle)
    enter_away h quiet = ground arith

  act_here :
      (bin t == b) ≡ true
      → update (λ u. if bin u == b then pc u else idle) t p u
        ≡ (if bin u == b then update pc t p u else idle)
  act_here h = ground arith

  act_away :
      (bin t == b) ≡ false
      → (if bin u == b then pc u else idle) ≡ (if bin u == b then update pc t p u else idle)
  act_away h = ground arith

-- A run on bucket `b`, of at most `c` entries put in.
abbrev pub BinReach : Values → ℕ → ℕ → Threads → ℕ → Type 0
BinReach P n c s b = (d : ℕ) × (d ≤ c) × Bin.Reach P n d (bin_of b s)

module _ {P : Values} {n c : ℕ} (s : Threads) (b t : ℕ) {p : Pc} {m : Bucket} (lt : t < n) where
  enter-BinReach :
      BinReach P n c s b
      → s.pc t ≡ idle
      → m ≡ s.ht.table (clht_hash s.ht (key_at p))
      → Move P m (s.pc t) m p
      → BinReach P n c
          (record s { pc = update s.pc t p; bin = update s.bin t (clht_hash s.ht (key_at p)) })
          b
  enter-BinReach (d, le, r) quiet at mv =
      let home = clht_hash s.ht (key_at p) in
      elim (Bool-cases (home == b)) [
        | inl here ↦
            let mem : m ≡ s.ht.table b = at ∙ ap s.ht.table ((==_iff home b).0 here) in
            let mv' : Move P (s.ht.table b) (s.pc t) (s.ht.table b) p =
              subst (λ x. Move P x (s.pc t) x p) mem mv in
            let place : pc_in b s t ≡ s.pc t = ground (arith, quiet) in
            let (st, quiet_step) = pick_at n {s = bin_of b s} t lt place mv' in
            let next = Bin.later r st refl in
            (
              d + Bin.added st,
              omega (arith, le, quiet_step, commits-idle mv' quiet),
              subst (Bin.Reach P n (d + Bin.added st))
                  (System-eq refl (λ u. enter_here s.pc s.bin b t p u home here)) next,
            )
        | inr away ↦ (
          d,
          le,
          subst (Bin.Reach P n d)
              (System-eq refl (λ u. enter_away s.pc s.bin b t p u home away quiet)) r,
        )
      ]

  act-BinReach :
      BinReach P n c s b
      → (mv : Move P (s.ht.table (s.bin t)) (s.pc t) m p)
      → BinReach P n
          (c + commits mv)
          (record s { ht = store s.ht (s.bin t) m; pc = update s.pc t p })
          b
  act-BinReach (d, le, r) mv = elim (Bool-cases (s.bin t == b)) [
    | inl here ↦
        let at : s.bin t ≡ b = (==_iff (s.bin t) b).0 here in
        let place : pc_in b s t ≡ s.pc t = ap (λ c. if c then s.pc t else idle) here in
        let old : System = record { mem = s.ht.table (s.bin t); pc = pc_in b s } in
        let (st, same) = pick_at n {s = old} t lt place mv in
        let back = subst (Bin.Reach P n d) (System-eq (ap s.ht.table (sym at)) (λ u. refl)) r in
        let next = Bin.later back st refl in
        (
          d + Bin.added st,
          omega (arith, le, same),
          subst (Bin.Reach P n (d + Bin.added st))
              (System-eq
                (sym (update_same s.ht.table (s.bin t) m) ∙ ap (update s.ht.table (s.bin t) m) at)
                (λ u. act_here s.pc s.bin b t p u here))
              next,
        )
    | inr away ↦
        let other : b ≢ s.bin t = λ e. absurd (ground (arith, away, e)) in
        (
          d,
          omega (arith, le),
          subst (Bin.Reach P n d)
              (System-eq (sym (update_other s.ht.table (s.bin t) m other))
                (λ u. act_away s.pc s.bin b t p u away))
              r,
        )
  ]

-- What is done to bucket `b` of the table is a run on that bucket.
pub TableReach-BinReach :
    {P : Values} {n size c : ℕ} {s : Threads}
    → TableReach P n size c s
    → (b : ℕ) → BinReach P n c s b
TableReach-BinReach {P} {n} {size} {c} {s} (start z made quiet) b = (
  0,
  omega arith,
  subst (Bin.Reach P n 0)
      (System-eq (ap (λ t. t.table b) (clht_hashtable_create-zero size made))
        (λ u. ground (arith, quiet u)))
      (Bin.start refl),
)
TableReach-BinReach {n} {size} (later {c} {d} {s} r (enter t lt quiet at mv) e) b =
    let (k, le, run) = enter-BinReach s b t lt (TableReach-BinReach r b) quiet at mv in
    (k, omega (arith, le, e), run)
TableReach-BinReach {n} {size} (later {c} {d} {s} r (act t lt busy mv) e) b =
    let (k, le, run) = act-BinReach s b t lt (TableReach-BinReach r b) mv in
    (k, omega (arith, le, e), run)
