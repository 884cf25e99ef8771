-- ===== src/LfHash/Threads/Answer.antt =====
-- OurTable/src/LFHash.h: what `contains` answers while other threads are at work.
use lock_free_hop_scotch.Prelude.{
  ℕ, ◌+◌, ◌≤◌, ◌<◌, ◌≡◌, Bool, true, false, ◌||◌, arith, refl, sym, ap, subst, ◌∙◌, ℕ_discrete,
}
use lock_free_hop_scotch.LfHash.Table.{hop, Table, is_entry_of}
use lock_free_hop_scotch.LfHash.Threads.{Pc, Move, user}
use lock_free_hop_scotch.LfHash.Threads as Thread
use lock_free_hop_scotch.LfHash.Threads.System.{System}
use lock_free_hop_scotch.LfHash.Threads.Calls.{Calling, Stays, Stays_keeps}

-- Slot `b + i` has an entry of the key; or no slot of the neighbourhood of `b` has one.
abbrev pub Shows : (k b i : ℕ) → Bool → Table → Type 0
Shows k b i true m = is_entry_of k (m.slots (b + i)) ≡ true
Shows k b i false m = (j : ℕ) → j ≤ hop → is_entry_of k (m.slots (b + j)) ≡ false

-- What the thread has found after `p` slots.
abbrev Finds : (i : ℕ) → Bool → ℕ → Bool → Type 0
Finds i true p found = i < p → found ≡ true
Finds i false p found = found ≡ false

abbrev Asking : (k b i : ℕ) → Bool → Pc → Type 0
Asking k b i v (Pc.ended r) = r ≡ v
Asking k b i v (Pc.look Thread.user q a p found) = (q ≡ k) × (a ≡ b) × Finds i v p found
Asking k b i v _ = ⊥

true-or : (f : Bool) → (f || true) ≡ true
true-or true = refl
true-or false = refl

Finds-next :
    (k b i : ℕ) (v : Bool) (m : Table) (p : ℕ) (f : Bool)
    → p ≤ hop
    → Shows k b i v m
    → Finds i v p f
    → Finds i v (p + 1) (f || is_entry_of k (m.slots (b + p)))
Finds-next k b i true m p f le shows finds = λ lt. elim (ℕ_discrete i p) [
  | yes here ↦
      ap (λ e. f || e) (ap (λ j. is_entry_of k (m.slots (b + j))) (sym here) ∙ shows) ∙ true-or f
  | no ne ↦ ap (λ g. g || is_entry_of k (m.slots (b + p))) (finds (omega (arith, lt, ne)))
]
Finds-next k b i false m p f le shows finds =
    ap (λ g. g || is_entry_of k (m.slots (b + p))) finds ∙ shows p le

Finds-end : (i : ℕ) (v : Bool) (p : ℕ) (f : Bool) → i ≤ hop → hop < p → Finds i v p f → f ≡ v
Finds-end i true p f le lt finds = finds (omega (arith, le, lt))
Finds-end i false p f le lt finds = finds

Finds-zero : (i : ℕ) (v : Bool) → Finds i v 0 false
Finds-zero i true = λ lt. absurd (omega (arith, lt))
Finds-zero i false = refl

Move-Asking :
    (k b i : ℕ) (v : Bool) {m m' : Table} {p p' : Pc}
    → i ≤ hop
    → Move m p m' p'
    → Shows k b i v m
    → Calling p
    → Asking k b i v p
    → Asking k b i v p'
Move-Asking k b i v small (Thread.call_contains q lt) shows calling asking = absurd calling
Move-Asking k b i v small (Thread.call_add q lt) shows calling asking = absurd calling
Move-Asking k b i v small (Thread.call_remove q lt) shows calling asking = absurd calling
Move-Asking k b i v {m} small (Thread.look_slot {c = Thread.user} {k = q} {b = a} {p = n} {f} le)
      shows calling (same, at, finds) =
    (
      same,
      at,
      subst (λ q. Finds i v (n + 1) (f || is_entry_of q (m.slots (a + n)))) (sym same)
          (subst (λ a. Finds i v (n + 1) (f || is_entry_of k (m.slots (a + n)))) (sym at)
            (Finds-next k b i v m n f le shows finds)),
    )
Move-Asking k b i v small (Thread.look_slot {c = Thread.adder} le) shows calling asking =
    absurd asking
Move-Asking k b i v small (Thread.look_end {c = Thread.user} {k = q} {b = a} {p = n} {f} lt) shows
      calling (same, at, finds) =
    Finds-end i v n f small lt finds
Move-Asking k b i v small (Thread.look_end {c = Thread.adder} lt) shows calling asking =
    absurd asking
Move-Asking k b i v small _ shows calling asking = absurd asking

-- Whatever the other threads do, during a call of `contains` of a key with home `b`: if one slot,
-- `b + i` with i at most 16, has an entry of the key all the time, the call answers true; if at no
-- time any of the slots from `b` to `b + 16` has one, it answers false.
pub Stays-Shows :
    {n t c : ℕ} {s u : System} (k b i : ℕ) (answer : Bool) {r : Bool}
    → i ≤ hop
    → s.pc t ≡ Pc.look user k b 0 false
    → Stays n t (Shows k b i answer) s c u
    → u.pc t ≡ Pc.ended r
    → r ≡ answer
Stays-Shows {t} {s} {u} k b i v {r} small begins run returned =
    let (kept, q) =
      Stays_keeps (λ d. Asking k b i v)
        (λ d m m' p p' shows asking calling mv. Move-Asking k b i v small mv shows calling asking)
        (subst (Asking k b i v) (sym begins) (refl, refl, Finds-zero i v)) run in
    subst (Asking k b i v) returned kept
