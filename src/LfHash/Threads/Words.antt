-- ===== src/LfHash/Threads/Words.antt =====
-- OurTable/src/LFHash.h: where the words of the array come from, whatever the threads do.
use lock_free_hop_scotch.Prelude.{
  ℕ, ◌+◌, ◌%◌, ◌^◌, ◌-◌, ◌≤◌, ◌<◌, ◌≡◌, ◌⊎◌, inl, inr, true, update, update_same, update_other, u64,
  u32, arith, refl, sym, subst, ℕ_discrete,
}
use lock_free_hop_scotch.LfHash.Entry.{
  clear_tag, with_tag, bucket_entry, clear_tag_lem, with_tag_lem, bucket_entry_lem,
}
use lock_free_hop_scotch.LfHash.Table.{Table}
use lock_free_hop_scotch.LfHash.Remove.{final_entry, random_entry}
use lock_free_hop_scotch.LfHash.Remove.Laws.{final_entry_lem}
use lock_free_hop_scotch.LfHash.Threads.{
  Caller, user, adder, Pc, Move, pull, reserved, pulled, looked,
}
use lock_free_hop_scotch.LfHash.Threads as Thread
use lock_free_hop_scotch.LfHash.Threads.System.{stamps}

module _ (A : ℕ → Type 0) where
  -- A number that is 0, a key of `A`, one of the first `c` stamps, or `INT_MAX`.
  abbrev pub Source : ℕ → ℕ → Type 0
  Source c x = (x ≡ 0) ⊎ ((A x) ⊎ (((s : ℕ) × (s < c) × (x ≡ s % 2 ^ 30)) ⊎ (x ≡ 2 ^ 31 - 1)))

  -- A word whose number, without its tag, is such.
  abbrev pub Word : ℕ → ℕ → Type 0
  Word c w = Source c (w % 2 ^ 62)

  abbrev pub Key : ℕ → Type 0
  Key k = A k × (k < 2 ^ 32)

  abbrev pub Asks : Caller → ℕ → Type 0
  Asks user k = Unit
  Asks adder k = Key k

  -- A thread in `add` has a key of `A`, what a thread is about to write is such a word, and so is
  -- the key that `contains` has found.
  abbrev pub Local : ℕ → Pc → Type 0
  Local c (Pc.look who k b p found) = Asks who k × (k < 2 ^ 32) × (found ≡ true → Source c k)
  Local c (Pc.probe k b trails slot tag) = Key k
  Local c (Pc.reserving k b trails slot tag) = Key k
  Local c (Pc.measure k b loc replace ind) = Key k
  Local c (Pc.advancing k b loc replace dist) = Key k
  Local c (Pc.claiming k b loc replace) = Key k
  Local c (Pc.claim_cas k b loc replace exp) = Key k
  Local c (Pc.moving k b loc replace) = Key k
  Local c (Pc.move_from k b loc replace dest) = Key k
  Local c (Pc.move_cas k b loc replace dest fin) = Key k × Word c fin
  Local c (Pc.giving k b loc replace) = Key k
  Local c (Pc.give_cas k b loc replace exp) = Key k
  Local c (Pc.release k b slot) = Key k
  Local c (Pc.release_cas k b slot exp) = Key k
  Local c (Pc.insert k b p tag cached) = Key k
  Local c (Pc.insert_cas k b p tag cached) = Key k
  Local c (Pc.reuse k b p cached) = Key k
  Local c (Pc.reuse_cas k b p e) = Key k
  Local c (Pc.mark k b final p bits) = Word c final
  Local c (Pc.mark_again k b final p bits) = Word c final
  Local c (Pc.first_cas k b final i1 i2) = Word c final
  Local c (Pc.second_cas k b final i2 won) = Word c final
  Local c _ = Unit

  pub Source-mono : (c d x : ℕ) → c ≤ d → Source c x → Source d x
  Source-mono c d x le (inl z) = inl z
  Source-mono c d x le (inr (inl a)) = inr (inl a)
  Source-mono c d x le (inr (inr (inl (s, lt, e)))) = inr (inr (inl (s, omega (arith, lt, le), e)))
  Source-mono c d x le (inr (inr (inr m))) = inr (inr (inr m))

  pub same-Source : (c x y : ℕ) → y ≡ x → Source c x → Source c y
  same-Source c x y e h = subst (Source c) (sym e) h

  pub clear_tag-Word : (c w : ℕ) → Word c w → Word c (clear_tag w)
  clear_tag-Word c w h =
      same-Source c (w % 2 ^ 62) (clear_tag w % 2 ^ 62) (omega (arith, clear_tag_lem w)) h

  pub with_tag-Word : (c t w : ℕ) → t < 4 → Word c w → Word c (with_tag t w)
  with_tag-Word c t w lt h =
      same-Source c (w % 2 ^ 62) (with_tag t w % 2 ^ 62) (omega (arith, with_tag_lem t w lt)) h

  pub Key-Word : (c k : ℕ) → Key k → Word c k
  Key-Word c k (a, lt) = same-Source c k (k % 2 ^ 62) (omega (arith, lt)) (inr (inl a))

  pub bucket_entry-Word : (c k : ℕ) → Key k → Word c (bucket_entry k 0)
  bucket_entry-Word c k (a, lt) =
      same-Source c k (bucket_entry k 0 % 2 ^ 62) (omega (arith, bucket_entry_lem k lt, lt))
        (inr (inl a))

  pub random_entry-Word : (c : ℕ) → Word c random_entry
  unfolding random_entry
  random_entry-Word c =
      same-Source c (2 ^ 31 - 1) (random_entry % 2 ^ 62)
        (omega (arith, with_tag_lem 3 (2 ^ 31 - 1) (omega arith))) (inr (inr (inr refl)))

  pub final_entry-Word : (c : ℕ) → Word (c + 1) (final_entry (u32 (u64 c)))
  final_entry-Word c =
      same-Source (c + 1) (c % 2 ^ 30) (final_entry (u32 (u64 c)) % 2 ^ 62)
        (omega (arith, final_entry_lem (u32 (u64 c)))) (inr (inr (inl (c, omega arith, refl))))

  pub zero-Word : (c : ℕ) → Word c 0
  zero-Word c = inl (omega arith)

  pub update-Word :
      (c : ℕ) (slots : ℕ → ℕ) (i v : ℕ)
      → ((j : ℕ) → Word c (slots j))
      → Word c v
      → (j : ℕ) → Word c (update slots i v j)
  update-Word c slots i v old new j = elim (ℕ_discrete j i) [
    | yes here ↦
        subst (λ j. Word c (update slots i v j)) (sym here)
          (subst (Word c) (sym (update_same slots i v)) new)
    | no ne ↦ subst (Word c) (sym (update_other slots i v ne)) (old j)
  ]

  pub Local-mono : (c d : ℕ) (p : Pc) → c ≤ d → Local c p → Local d p
  Local-mono c d (Pc.move_cas k b loc replace dest fin) le (key, w) =
      (key, Source-mono c d (fin % 2 ^ 62) le w)
  Local-mono c d (Pc.look who k b p found) le (asks, lt, h) =
      (asks, lt, λ e. Source-mono c d k le (h e))
  Local-mono c d (Pc.mark k b final p bits) le w = Source-mono c d (final % 2 ^ 62) le w
  Local-mono c d (Pc.mark_again k b final p bits) le w = Source-mono c d (final % 2 ^ 62) le w
  Local-mono c d (Pc.first_cas k b final i1 i2) le w = Source-mono c d (final % 2 ^ 62) le w
  Local-mono c d (Pc.second_cas k b final i2 won) le w = Source-mono c d (final % 2 ^ 62) le w
  Local-mono c d p le l = l

  -- What every step keeps of the array.
  pub Move-Word :
      (c : ℕ) {m m' : Table} {p p' : Pc} (mv : Move m p m' p')
      → Local c p
      → m.time_stamp ≡ u64 c
      → ((i : ℕ) → Word c (m.slots i))
      → (i : ℕ) → Word (stamps mv c) (m'.slots i)
  Move-Word c {m} (Thread.reserve_win {k} {slot} same) key time old =
      update-Word c m.slots slot (bucket_entry k 0) old (bucket_entry-Word c k key)
  Move-Word c {m} (Thread.claim_win {replace} {exp} same) key time old =
      update-Word c m.slots replace (with_tag 1 exp) old
        (with_tag-Word c 1 exp (omega arith) (subst (Word c) same (old replace)))
  Move-Word c {m} (Thread.move_win {loc} {fin} same) (key, w) time old =
      update-Word c m.slots loc fin old w
  Move-Word c {m} (Thread.give_win {k} {replace} same) key time old =
      update-Word c m.slots replace (bucket_entry k 0) old (bucket_entry-Word c k key)
  Move-Word c {m} (Thread.release_win {slot} cached same) key time old =
      update-Word c m.slots slot 0 old (zero-Word c)
  Move-Word c {m} (Thread.insert_win {k} {b} {p} same) key time old =
      update-Word c m.slots (b + p) k old (Key-Word c k key)
  Move-Word c {m} (Thread.reuse_win {k} {b} {p} same) key time old =
      update-Word c m.slots (b + p) k old (Key-Word c k key)
  Move-Word c {m} (Thread.first_win {b} {final} {i1} same) w time old =
      update-Word c m.slots (b + i1) final old w
  Move-Word c {m} (Thread.second_win {b} {final} {i2} same) w time old =
      update-Word c m.slots (b + i2) final old w
  Move-Word c {m} (Thread.sweep_win {b} {p} same) l time old =
      update-Word c m.slots (b + p) random_entry old (random_entry-Word c)
  Move-Word c {m} Thread.take_stamp l time old =
      λ i. Source-mono c (c + 1) (m.slots i % 2 ^ 62) (omega arith) (old i)
  Move-Word c _ l time old = old
