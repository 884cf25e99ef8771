-- ===== src/ClhtPacked/Remove.antt =====
-- OtherTables/src/clht/src/clht_lb_packed.c: what `clht_remove` does to the entries of a chain.
use lock_free_hop_scotch.Prelude.{
  ℕ, zero, suc, ◌-◌, ◌<◌, ◌≤◌, ◌≡◌, ◌⊎◌, List, [], ◌∷◌, ◌++◌, length, ◌==◌, ==_iff, Bool-cases, inl,
  inr, if◌then◌else◌, refl, sym, ap, subst, ◌∙◌, arith,
}
use mathlib.Core.List.{append_assoc}
use lock_free_hop_scotch.ClhtLb.Chain.{Slot, write_slot}
use lock_free_hop_scotch.ClhtPacked.Chain.{
  Bucket, Chain, single, more, at, head, set, pop, take_last, remove_at,
}
use lock_free_hop_scotch.ClhtPacked.Entries.{
  take, used, entries, rest, Unique, IsBucket, IsPacked, length-take, take-suc, take-write,
  write-append, length-write, append_none,
}
use lock_free_hop_scotch.ClhtPacked.Laws.{length-append}
use lock_free_hop_scotch.ClhtPacked.Swap.{Removed, swap_lem}

-- The last entry has gone; the first bucket has lost an entry only if nothing is behind it.
record TakeSays (c : Chain) (r : Slot × Chain) : Type 0 where
  split : entries c ≡ entries r.1 ++ (r.0 ∷ [])
  valid : IsPacked r.1
  ends : ((head r.1).last ≡ (head c).last) ⊎ (rest r.1 ≡ [])

pop_lem :
    (b : Bucket)
    → IsBucket b
    → 1 ≤ b.last
    → IsBucket (pop b).1 × (used b ≡ used (pop b).1 ++ ((pop b).0 ∷ []))
pop_lem b one le = (
  record { three = one.three; room = omega (arith, one.room) },
  ap (λ n. take n b.slots) (let e : b.last ≡ suc (b.last - 1) = omega (arith, le) in e)
      ∙ take-suc (b.last - 1) b.slots (omega (arith, one.three, one.room, le)),
)

-- A chain whose first bucket is empty has no entries, and only such a chain.
empty_first : (c : Chain) → IsPacked c → (head c).last ≡ 0 → entries c ≡ []
empty_first (single b) one e = ap (λ n. take n b.slots) e
empty_first (more b next) (one, packed, inl full) e = absurd (omega (arith, full, e))
empty_first (more b next) (one, packed, inr nothing) e =
    ap (λ n. take n b.slots ++ entries next) e ∙ nothing

some_first : (c : Chain) → IsPacked c → entries c ≡ [] → (head c).last ≡ 0
some_first (single b) one e =
    omega (arith, ap length e, length-take b.last b.slots (omega (arith, one.three, one.room)))
some_first (more b next) (one, packed, full) e = omega (
  arith,
  ap length e,
  length-append (used b) (entries next),
  length-take b.last b.slots (omega (arith, one.three, one.room)),
)

pub no_more : (xs : List Slot) (next : Chain) → entries next ≡ [] → xs ++ entries next ≡ xs
no_more xs next nothing = ap (λ ss. xs ++ ss) nothing ∙ append_none xs

take_last_lem : (c : Chain) → IsPacked c → 1 ≤ (head c).last → TakeSays c (take_last c)
unfolding take_last
take_last_lem (single b) one le =
    let (one', split) = pop_lem b one le in record { split = split; valid = one'; ends = inr refl }
take_last_lem (more b next) p le =
    let (one, packed, full) = p in
    let r = pop b in
    let s = take_last next in
    elim (Bool-cases ((head next).last == 0)) [
      | inl empty ↦
          let nothing = empty_first next packed ((==_iff (head next).last 0).0 empty) in
          let (one', split) = pop_lem b one le in
          let result : Slot × Chain = (r.0, more r.1 next) in
          let says : TakeSays (more b next) result = record {
            split =
                no_more (used b) next nothing
                ∙ split
                ∙ ap (λ ss. ss ++ (r.0 ∷ [])) (sym (no_more (used r.1) next nothing));
            valid = (one', packed, inr nothing);
            ends = inr nothing;
          } in
          subst (TakeSays (more b next))
            (sym (ap (λ c. if c then result else (s.0, more b s.1)) empty)) says
      | inr taken ↦
          let some_there : 1 ≤ (head next).last = ground (arith, taken) in
          let says = take_last_lem next packed some_there in
          let three : b.last ≡ 3 = three_of b next p some_there in
          let result : Slot × Chain = (s.0, more b s.1) in
          let whole : TakeSays (more b next) result = record {
            split =
                ap (λ ss. used b ++ ss) says.split
                ∙ sym (append_assoc (used b) (entries s.1) (s.0 ∷ []));
            valid = (one, says.valid, inl three);
            ends = inl refl;
          } in
          subst (TakeSays (more b next))
            (sym (ap (λ c. if c then (r.0, more r.1 next) else result) taken)) whole
    ]
  where
    three_of :
        (b : Bucket) (next : Chain) → IsPacked (more b next) → 1 ≤ (head next).last → b.last ≡ 3
    three_of b next (one, packed, inl full) le = full
    three_of b next (one, packed, inr nothing) le =
        absurd (omega (arith, le, some_first next packed nothing))

set_lem :
    (c : Chain) (j : ℕ) (s : Slot)
    → IsPacked c
    → (j < (head c).last) ⊎ (rest c ≡ [])
    → IsPacked (set c j s)
      × (entries (set c j s) ≡ write_slot (entries c) j s)
      × ((head (set c j s)).last ≡ (head c).last)
unfolding set
set_lem (single b) j s one h = (
  record { three = length-write b.slots j s ∙ one.three; room = one.room },
  take-write b.last j b.slots s,
  refl,
)
set_lem (more b next) j s (one, packed, full) h = (
  (record { three = length-write b.slots j s ∙ one.three; room = one.room }, packed, full),
  ap (λ ss. ss ++ entries next) (take-write b.last j b.slots s)
      ∙ sym (write-append (used b) (entries next) j s (inside h)),
  refl,
)
  where
    inside : (j < b.last) ⊎ (entries next ≡ []) → (j < length (used b)) ⊎ (entries next ≡ [])
    inside (inl lt) =
        inl (omega (arith, lt, length-take b.last b.slots (omega (arith, one.three, one.room))))
    inside (inr nothing) = inr nothing

at-take : (n j : ℕ) (ss ys : List Slot) → j < n → n ≤ length ss → at (take n ss ++ ys) j ≡ at ss j
unfolding at
at-take zero j ss ys lt le = absurd (omega (arith, lt))
at-take (suc n) j [] ys lt le = absurd (omega (arith, le))
at-take (suc n) zero (s ∷ ss) ys lt le = refl
at-take (suc n) (suc j) (s ∷ ss) ys lt le =
    at-take n j ss ys (omega (arith, lt)) (omega (arith, le))

-- An entry of the first bucket is among the entries.
at-entries :
    (c : Chain) (j : ℕ)
    → IsPacked c
    → j < (head c).last
    → (j < length (entries c)) × (at (entries c) j ≡ at (head c).slots j)
at-entries (single b) j one lt = (
  omega (arith, lt, length-take b.last b.slots (omega (arith, one.three, one.room))),
  ap (λ ss. at ss j) (sym (append_none (used b)))
      ∙ at-take b.last j b.slots [] lt (omega (arith, one.three, one.room)),
)
at-entries (more b next) j (one, packed, full) lt = (
  omega (
    arith,
    lt,
    length-append (used b) (entries next),
    length-take b.last b.slots (omega (arith, one.three, one.room)),
  ),
  at-take b.last j b.slots (entries next) lt (omega (arith, one.three, one.room)),
)

pub remove_at_lem :
    (c : Chain) (j key : ℕ)
    → IsPacked c
    → Unique (entries c)
    → j < (head c).last
    → (at (head c).slots j).key ≡ key
    → Removed (entries c) key (entries (remove_at c j).1) × IsPacked (remove_at c j).1
unfolding remove_at
remove_at_lem c j key p u lt here =
    let z : Slot = record { key = 0; val = (at (head c).slots j).val } in
    let (p1, e1, same) = set_lem c j z p (inl lt) in
    let c1 = set c j z in
    let taken = take_last_lem c1 p1 (omega (arith, lt, same)) in
    let (e, c2) = take_last c1 in
    let (inside, entry) = at-entries c j p lt in
    let (p3, e3, last3) =
      set_lem c2 j e taken.valid (room c1 c2 taken.ends (omega (arith, lt, same))) in
    (
      subst (Removed (entries c) key) (sym e3) (
          swap_lem (entries c) (entries c2) e z j key inside (ap (λ (s : Slot). s.key) entry ∙ here)
            u (sym e1 ∙ taken.split)),
      p3,
    )
  where
    room :
        (c1 c2 : Chain)
        → ((head c2).last ≡ (head c1).last) ⊎ (rest c2 ≡ [])
        → j < (head c1).last
        → (j < (head c2).last) ⊎ (rest c2 ≡ [])
    room c1 c2 (inl same) lt = inl (omega (arith, lt, same))
    room c1 c2 (inr nothing) lt = inr nothing
