-- ===== src/LfHash/Threads/Absent.antt =====
-- OurTable/src/LFHash.h: what `Remove` answers for a key that is not there, while other threads are
-- at work.
use lock_free_hop_scotch.Prelude.{
  ℕ, ◌+◌, ◌^◌, ◌≤◌, ◌<◌, ◌≡◌, ◌≢◌, Bool, true, false, List, [], ◌∷◌, ◌++◌, arith, refl, sym, ap,
  subst, ◌∙◌, bit_or, bit_or_high,
}
use lock_free_hop_scotch.LfHash.Entry.{with_tag, with_tag_lem}
use lock_free_hop_scotch.LfHash.Table.{hop, Table, is_entry_of}
use lock_free_hop_scotch.LfHash.Remove.{first_set}
use lock_free_hop_scotch.LfHash.Threads.{Pc, Move}
use lock_free_hop_scotch.LfHash.Threads as Thread
use lock_free_hop_scotch.LfHash.Threads.System.{System}
use lock_free_hop_scotch.LfHash.Threads.Calls.{Calling, Stays, Stays_keeps}
use lock_free_hop_scotch.LfHash.Threads.Answer.{Shows}

-- No bit of the bitset is set.
abbrev Unset : List Bool → Type 0
Unset [] = Unit
Unset (bit ∷ bits) = (bit ≡ false) × Unset bits

Unset-append : (bits : List Bool) → Unset bits → Unset (bits ++ false ∷ [])
Unset-append [] u = (refl, tt)
Unset-append (bit ∷ bits) (off, u) = (off, Unset-append bits u)

first_set-Unset : (from i : ℕ) (bits : List Bool) → Unset bits → first_set from i bits ≡ hop
unfolding first_set
first_set-Unset from i [] u = refl
first_set-Unset from i (bit ∷ bits) (off, u) =
    ground (arith, off, first_set-Unset from (i + 1) bits u)

-- `Remove` has found nothing so far.
abbrev Misses : (k b : ℕ) → Pc → Type 0
Misses k b (Pc.ended r) = r ≡ false
Misses k b (Pc.mark q a final p bits) = (q ≡ k) × (a ≡ b) × Unset bits
Misses k b (Pc.mark_again q a final p bits) = (q ≡ k) × (a ≡ b) × (p ≤ hop) × Unset bits
Misses k b (Pc.first_cas q a final i1 i2) = (q ≡ k) × (a ≡ b) × (i1 ≡ hop) × (i2 ≡ hop)
Misses k b (Pc.second_cas q a final i2 won) = (q ≡ k) × (a ≡ b) × (i2 ≡ hop) × (won ≡ false)
Misses k b (Pc.sweep q a p won) = won ≡ false
Misses k b (Pc.sweep_test q a p slot won) = won ≡ false
Misses k b (Pc.sweep_cas q a p slot won) = won ≡ false
Misses k b _ = ⊥

-- The words for which `Remove` looks are entries of the key.
plain-entry : (k : ℕ) → is_entry_of k k ≡ true
unfolding is_entry_of
plain-entry k = ground arith

moved-entry : (k : ℕ) → is_entry_of k (with_tag 1 k) ≡ true
unfolding is_entry_of
moved-entry k = ground arith

tagged-entry : (k : ℕ) → k < 2 ^ 32 → is_entry_of k (bit_or k (2 ^ 62)) ≡ true
tagged-entry k lt =
    let high = bit_or_high 62 k 1 (omega (arith, lt)) in
    let tag = with_tag_lem 1 k (omega arith) in
    let same : bit_or k (2 ^ 62) ≡ with_tag 1 k = omega (arith, high, tag, lt) in
    ap (is_entry_of k) same ∙ moved-entry k

module _ (k b : ℕ) (lt : k < 2 ^ 32) (m : Table) (absent : Shows k b 0 false m) where
  -- No slot of the neighbourhood has a word that is an entry of the key.
  no_entry : (q a p w : ℕ) → q ≡ k → a ≡ b → p ≤ hop → is_entry_of k w ≡ true → m.slots (a + p) ≢ w
  no_entry q a p w same at le entry h =
      let off = absent p le in
      let here : m.slots (b + p) ≡ w = ap (λ a. m.slots (a + p)) (sym at) ∙ h in
      cc (sym off ∙ ap (is_entry_of k) here ∙ entry)

  Move-Misses : {m' : Table} {p p' : Pc} → Move m p m' p' → Calling p → Misses k b p → Misses k b p'
  Move-Misses (Thread.call_contains q small) calling miss = absurd calling
  Move-Misses (Thread.call_add q small) calling miss = absurd calling
  Move-Misses (Thread.call_remove q small) calling miss = absurd calling
  Move-Misses (Thread.mark_plain {k = q} {b = a} {p} le h) calling (same, at, u) =
      absurd (no_entry q a p k same at le (plain-entry k) (h ∙ same))
  Move-Misses (Thread.mark_other le ne) calling (same, at, u) = (same, at, le, u)
  Move-Misses (Thread.mark_moved {k = q} {b = a} {p} h) calling (same, at, le, u) =
      absurd (no_entry q a p (with_tag 1 k) same at le (moved-entry k) (h ∙ ap (with_tag 1) same))
  Move-Misses (Thread.mark_none {bits} ne) calling (same, at, le, u) =
      (same, at, Unset-append bits u)
  Move-Misses (Thread.mark_end {bits} high) calling (same, at, u) =
      (same, at, first_set-Unset 0 0 bits u, first_set-Unset _ 0 bits u)
  Move-Misses (Thread.first_win {k = q} {b = a} {i1} h) calling (same, at, first, second) =
      absurd (no_entry q a i1 k same at (omega (arith, first)) (plain-entry k) (h ∙ same))
  Move-Misses (Thread.first_lose ne) calling (same, at, first, second) = (same, at, second, refl)
  Move-Misses (Thread.second_win {k = q} {b = a} {i2} h) calling (same, at, second, lost) = absurd (
      no_entry q a i2 (bit_or k (2 ^ 62)) same at (omega (arith, second)) (tagged-entry k lt)
        (h ∙ ap (λ q. bit_or q (2 ^ 62)) same))
  Move-Misses (Thread.second_lose ne) calling (same, at, second, lost) = lost
  Move-Misses (Thread.sweep_load le) calling miss = miss
  Move-Misses (Thread.sweep_skip ne) calling miss = miss
  Move-Misses (Thread.sweep_reserved e) calling miss = miss
  Move-Misses (Thread.sweep_win e) calling miss = miss
  Move-Misses Thread.sweep_lose calling miss = miss
  Move-Misses (Thread.sweep_end high) calling miss = miss
  Move-Misses (Thread.look_end {c = Thread.user} high) calling miss = absurd miss
  Move-Misses (Thread.look_end {c = Thread.adder} high) calling miss = absurd miss
  Move-Misses _ calling miss = absurd miss

-- Whatever the other threads do, during a call of `Remove` of a key with home `b` that has taken its
-- stamp: if at no time any of the slots from `b` to `b + 16` has an entry of the key, the call
-- answers false.
pub Stays-Remove :
    {n t c : ℕ} {s u : System} (k b : ℕ) {final : ℕ} {r : Bool}
    → k < 2 ^ 32
    → s.pc t ≡ Pc.mark k b final 0 []
    → Stays n t (Shows k b 0 false) s c u
    → u.pc t ≡ Pc.ended r
    → r ≡ false
Stays-Remove k b lt begins run returned =
    let (kept, q) =
      Stays_keeps (λ d. Misses k b)
        (λ d m m' p p' absent miss calling mv. Move-Misses k b lt m absent mv calling miss)
        (subst (Misses k b) (sym begins) (refl, refl, tt)) run in
    subst (Misses k b) returned kept
