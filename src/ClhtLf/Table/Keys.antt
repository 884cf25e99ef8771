-- ===== src/ClhtLf/Table/Keys.antt =====
-- OtherTables/src/clht/src/clht_lf.c: each thread of the table works on the bucket of its key.
use lock_free_hop_scotch.Prelude.{
  ℕ, ◌≡◌, ◌≢◌, some, none, refl, sym, ap, subst, ◌∙◌, update, update_same, update_other, ℕ_discrete,
}
use lock_free_hop_scotch.ClhtLf.Bucket.{Bucket}
use lock_free_hop_scotch.ClhtLf.Worker.{
  Call, get, put, Pc, idle, Move, commit_win, remove_win, val_hit, val_zero, val_changed, give_up,
  remove_end, hit, miss, key_of, scan_end, Values, call_get, call_put, call_remove,
}
use lock_free_hop_scotch.ClhtLf.Refinement.{Label, label}
use lock_free_hop_scotch.ClhtLf.Table.{clht_hash}
use lock_free_hop_scotch.ClhtLf.Table.Threads.{
  key_at, Threads, enter, act, TableReach, start, later,
}

key_at-hit : (c : Call) → hit c ≢ idle → key_at (hit c) ≡ key_of c
key_at-hit (get k) more = absurd (more refl)
key_at-hit (put k v none s) more = absurd (more refl)
key_at-hit (put k v (some e) s) more = refl

key_at-miss : (c : Call) → miss c ≢ idle → key_at (miss c) ≡ key_of c
key_at-miss (get k) more = absurd (more refl)
key_at-miss (put k v e s) more = refl

-- Within a call the key stays the same.
Move-key_at :
    {P : Values} {m m' : Bucket} {p p' : Pc}
    → Move P m p m' p'
    → p ≢ idle
    → p' ≢ idle
    → key_at p' ≡ key_at p
Move-key_at (call_get k) busy more = absurd (busy refl)
Move-key_at (call_put k v nz) busy more = absurd (busy refl)
Move-key_at (call_remove k) busy more = absurd (busy refl)
Move-key_at (scan_end {c} end) busy more = key_at-miss c more
Move-key_at (val_hit {c} same nz) busy more = key_at-hit c more
Move-key_at (val_zero {c} same z) busy more = key_at-miss c more
Move-key_at (val_changed {c} ne) busy more = key_at-miss c more
Move-key_at give_up busy more = absurd (more refl)
Move-key_at (commit_win same) busy more = absurd (more refl)
Move-key_at (remove_end end) busy more = absurd (more refl)
Move-key_at (remove_win same) busy more = absurd (more refl)
Move-key_at _ busy more = refl

-- The label of a step is about this key.
abbrev pub About : ℕ → Label → Type 0
About k Label.silent = Unit
About k (Label.puts j v) = k ≡ j
About k (Label.removes j w) = k ≡ j

pub Move-About :
    {P : Values} {m m' : Bucket} {p p' : Pc} (mv : Move P m p m' p') → About (key_at p) (label mv)
Move-About (commit_win same) = refl
Move-About (remove_win same) = refl
Move-About _ = tt

-- Each thread that is in a call works on the bucket of its key.
abbrev pub Homed : Threads → Type 0
Homed s = (t : ℕ) → s.pc t ≢ idle → s.bin t ≡ clht_hash s.ht (key_at (s.pc t))

at_each : (P : ℕ → Type 0) (t : ℕ) → P t → ((u : ℕ) → u ≢ t → P u) → (u : ℕ) → P u
at_each P t mine others u = elim (ℕ_discrete u t) [
  | yes here ↦ subst P (sym here) mine
  | no ne ↦ others u ne
]

pub TableReach-Homed : {P : Values} {n size c : ℕ} {s : Threads} → TableReach P n size c s → Homed s
unfolding clht_hash
TableReach-Homed (start z made quiet) = λ t busy. absurd (busy (quiet t))
TableReach-Homed (later {s} r (enter t {p} {m} lt quiet at mv) e) =
    let home = clht_hash s.ht (key_at p) in
    let homed = TableReach-Homed r in
    at_each
      (λ u.
        update s.pc t p u ≢ idle
        → update s.bin t home u ≡ clht_hash s.ht (key_at (update s.pc t p u)))
      t
      (λ busy.
        update_same s.bin t home ∙ sym (ap (λ q. clht_hash s.ht (key_at q)) (update_same s.pc t p)))
      (λ u ne busy.
        let pc = update_other s.pc t p ne in
        update_other s.bin t home ne
        ∙ homed u (λ h. busy (pc ∙ h))
        ∙ sym (ap (λ q. clht_hash s.ht (key_at q)) pc))
TableReach-Homed (later {s} r (act t {p} {m} lt busy mv) e) =
    let homed = TableReach-Homed r in
    at_each (λ u. update s.pc t p u ≢ idle → s.bin u ≡ clht_hash s.ht (key_at (update s.pc t p u)))
      t
      (λ more.
        let pc = update_same s.pc t p in
        homed t busy
        ∙ sym (ap (clht_hash s.ht) (ap key_at pc ∙ Move-key_at mv busy (λ h. more (pc ∙ h)))))
      (λ u ne more.
        let pc = update_other s.pc t p ne in
        homed u (λ h. more (pc ∙ h)) ∙ sym (ap (λ q. clht_hash s.ht (key_at q)) pc))
