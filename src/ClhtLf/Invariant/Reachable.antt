-- ===== src/ClhtLf/Invariant/Reachable.antt =====
-- OtherTables/src/clht/src/clht_lf.c: the invariant of the bucket and all its threads.
use lock_free_hop_scotch.Prelude.{
  ℕ, ◌+◌, ◌^◌, ◌<◌, ◌≡◌, ◌≢◌, some, arith, refl, sym, subst, inl, inr, update, update_same,
  update_other, ℕ_discrete,
}
use lock_free_hop_scotch.ClhtLf.Bucket.{Bucket}
use lock_free_hop_scotch.ClhtLf.Worker.{Pc, Values, Move, commits}
use lock_free_hop_scotch.ClhtLf.System.{System, Step, pick, added, init, Reach, start, later}
use lock_free_hop_scotch.ClhtLf.Invariant.Local.{Local, claim_of}
use lock_free_hop_scotch.ClhtLf.Invariant.Env.{Local-stable}
use lock_free_hop_scotch.ClhtLf.Invariant.Change.{Move-Env}
use lock_free_hop_scotch.ClhtLf.Invariant.Thread.{Move-Local}
use lock_free_hop_scotch.ClhtLf.Invariant.Kept.{Kept, Move-Kept}
use lock_free_hop_scotch.ClhtLf.Invariant.Claims.{Local-claim, Move-claim}

-- The claims of two threads are apart.
abbrev pub Apart : Pc → Pc → Type 0
Apart q p = (a : ℕ) → claim_of q ≡ some a → claim_of p ≢ some a

-- The bucket has its entries, each thread knows its part of it, and no two threads claim one slot.
pub record Inv (P : Values) (c : ℕ) (s : System) : Type 0 where
  pub kept : Kept P c s.mem
  pub local : (t : ℕ) → Local P s.mem (s.pc t)
  pub apart : (t u : ℕ) → t ≢ u → Apart (s.pc t) (s.pc u)

init-Inv : {P : Values} → Inv P 0 init
init-Inv = record {
  kept = record {
    version = refl;
    full = λ all j lt h. absurd (omega (arith, h));
    unique = λ all a b alt blt ha hb eq. absurd (omega (arith, ha));
  };
  local = λ t. tt;
  apart = λ t u ne a h. absurd (cc h);
}

-- A family over the threads holds after a step if it holds for the thread and for each other.
at_each :
    (P : ℕ → Pc → Type 0) (pc : ℕ → Pc) (t : ℕ) (p : Pc)
    → P t p
    → ((u : ℕ) → u ≢ t → P u (pc u))
    → (u : ℕ) → P u (update pc t p u)
at_each P pc t p mine others u = elim (ℕ_discrete u t) [
  | yes here ↦
      subst (λ a. P a (update pc t p a)) (sym here) (subst (P t) (sym (update_same pc t p)) mine)
  | no ne ↦ subst (P u) (sym (update_other pc t p ne)) (others u ne)
]

module _ {P : Values} {c t : ℕ} {s : System} {m : Bucket} {p : Pc} (inv : Inv P c s)
    (mv : Move P s.mem (s.pc t) m p) where
  -- The thread's claim after its step is apart from each other thread's.
  Move-Apart : (u : ℕ) → u ≢ t → Apart p (s.pc u)
  Move-Apart u ne a h other = elim (Move-claim mv h) [
    | inl was ↦ inv.apart t u (λ e. ne (sym e)) a was other
    | inr free ↦ free (Local-claim s.mem P (s.pc u) (inv.local u) other)
  ]

  Move-Inv :
      c + commits mv < 2 ^ 32 → Inv P (c + commits mv) (record { mem = m; pc = update s.pc t p })
  Move-Inv small =
      let env =
        Move-Env (inv.local t) mv
          (subst (λ v. v + commits mv < 2 ^ 32) (sym inv.kept.version) small) in
      record {
        kept = Move-Kept inv.kept mv (inv.local t) env small;
        local =
            at_each (λ u. Local P m) s.pc t p (Move-Local P inv.kept.full mv (inv.local t) env)
              (λ u ne. Local-stable env P (s.pc u) (inv.apart u t ne) (inv.local u));
        apart =
            at_each (λ u q. (w : ℕ) → u ≢ w → Apart q (update s.pc t p w)) s.pc t p
              (at_each (λ w q. t ≢ w → Apart p q) s.pc t p (λ ne. absurd (ne refl))
                (λ w ne h. Move-Apart w ne))
              (λ u ne.
                at_each (λ w q. u ≢ w → Apart (s.pc u) q) s.pc t p
                  (λ h a mine other. Move-Apart u ne a other mine) (λ w other h. inv.apart u w h));
      }

pub Step-Inv :
    {P : Values} {n c : ℕ} {s t : System}
    → Inv P c s
    → (st : Step P n s t) → c + added st < 2 ^ 32
    → Inv P (c + added st) t
Step-Inv inv (pick t lt mv) small = Move-Inv inv mv small

-- Each state that is reached with fewer than 2 ^ 32 entries put in satisfies the invariant.
pub Reach-Inv : {P : Values} {n c : ℕ} {s : System} → Reach P n c s → c < 2 ^ 32 → Inv P c s
Reach-Inv {P} (start z) small = subst (λ c. Inv P c init) (sym z) init-Inv
Reach-Inv {P} {s} (later {c} {d} r st e) small =
    let bound : c + added st < 2 ^ 32 = subst (λ d. d < 2 ^ 32) e small in
    subst (λ d. Inv P d s) (sym e) (Step-Inv (Reach-Inv r (omega (arith, bound))) st bound)
