-- ===== src/ClhtPacked/Put.antt =====
-- OtherTables/src/clht/src/clht_lb_packed.c: what `clht_put` does to the entries of a chain.
use lock_free_hop_scotch.Prelude.{
  ℕ, suc, ◌+◌, ◌<◌, ◌≡◌, ◌≢◌, Bool, true, false, [], ◌∷◌, ◌++◌, Option, none, some, ltb, Bool-cases,
  inl, inr, if◌then◌else◌, u32, refl, sym, ap, subst, ◌∙◌, arith,
}
use mathlib.Core.List.{append_assoc}
use lock_free_hop_scotch.ClhtLb.Chain.{Slot, or_else, find_slot, write_slot, new_bucket}
use lock_free_hop_scotch.ClhtLb.Flat.{find_slot-append}
use lock_free_hop_scotch.ClhtLb.Laws.{is_none}
use lock_free_hop_scotch.ClhtPacked.Chain.{
  Bucket, Chain, single, more, at, first_at, push, first_entry, put, put_last, put_more,
}
use lock_free_hop_scotch.ClhtPacked.Entries.{
  take, used, entries, IsBucket, IsPacked, write-push, length-write, append_none,
}
use lock_free_hop_scotch.ClhtPacked.Laws.{FirstSays, first_at_lem, none_behind}

module _ (before : ℕ → ℕ) (key val : ℕ) where
  abbrev pub new : Slot
  new = record { key = key; val = val }

  -- The new entry is the last one, if the key was absent.
  pub record PutSays (c : Chain) (r : Bool × Chain) : Type 0 where
    pub result : r.0 ≡ is_none (find_slot (entries c) key)
    pub added : entries r.1 ≡ entries c ++ (if r.0 then new ∷ [] else [])
    pub valid : IsPacked r.1

  push_lem :
      (b : Bucket)
      → IsBucket b
      → ltb b.last 3 ≡ true
      → IsBucket (push b key val) × (used (push b key val) ≡ used b ++ (new ∷ []))
  unfolding push
  push_lem b one small =
      let lt : b.last < 3 = ground (arith, small) in
      let word : u32 (b.last + 1) ≡ suc b.last = omega (arith, lt) in
      (
        record {
          three = length-write b.slots b.last new ∙ one.three;
          room = omega (arith, word, lt);
        },
        ap (λ n. take n (write_slot b.slots b.last new)) word
            ∙ write-push b.last b.slots new (omega (arith, one.three, lt)),
      )

  first_entry_lem :
      IsBucket (first_entry before key val) × (used (first_entry before key val) ≡ new ∷ [])
  unfolding first_entry new_bucket
  first_entry_lem = (record { three = refl; room = omega arith }, refl)

  keeps :
      (c : Chain) (x : Option ℕ)
      → IsPacked c
      → find_slot (entries c) key ≡ x
      → x ≢ none
      → PutSays c (false, c)
  keeps c none p e there = absurd (there refl)
  keeps c (some v) p e there = record {
    result = ap is_none (sym e);
    added = sym (append_none (entries c));
    valid = p;
  }

  put_last_lem :
      (b : Bucket) (r : Option ℕ)
      → IsBucket b
      → FirstSays b.slots key b.last r
      → PutSays (single b) (put_last before b key val r)
  put_last_lem b (some j) one (lt, here, found) =
      keeps (single b) (some (at b.slots j).val) one found (λ e. cc e)
  put_last_lem b none one absent = elim (Bool-cases (ltb b.last 3)) [
    | inl small ↦
        let (one', added) = push_lem b one small in
        subst (PutSays (single b))
          (sym (
            ap
              (λ c.
                if c
                then (true, single (push b key val))
                else (true, more b (single (first_entry before key val))))
              small))
          (record { result = ap is_none (sym absent); added = added; valid = one' })
    | inr full ↦
        let (one', added) = first_entry_lem in
        subst (PutSays (single b))
          (sym (
            ap
              (λ c.
                if c
                then (true, single (push b key val))
                else (true, more b (single (first_entry before key val))))
              full))
          (record {
            result = ap is_none (sym absent);
            added = ap (λ ss. used b ++ ss) added;
            valid = (one, one', inl (ground (arith, full, one.room)));
          })
  ]

  found_none : is_none (find_slot [] key) ≡ true
  unfolding find_slot
  found_none = refl

  put_more_lem :
      (b : Bucket) (next : Chain) (r : Option ℕ) (s : Bool × Chain)
      → IsPacked (more b next)
      → FirstSays b.slots key b.last r
      → PutSays next s
      → PutSays (more b next) (put_more b next key val r s)
  put_more_lem b next (some j) s p (lt, here, found) says =
      keeps (more b next) (some (at b.slots j).val) p
        (find_slot-append (used b) (entries next) key
          ∙ ap (λ x. or_else x (find_slot (entries next) key)) found)
        (λ e. cc e)
  put_more_lem b next none s p absent says =
      let (one, packed, filled) = p in
      let parts : find_slot (used b ++ entries next) key ≡ find_slot (entries next) key =
        find_slot-append (used b) (entries next) key
        ∙ ap (λ x. or_else x (find_slot (entries next) key)) absent in
      elim (Bool-cases (ltb b.last 3)) [
        | inl small ↦
            let (one', added) = push_lem b one small in
            let nothing = none_behind b next p small in
            subst (PutSays (more b next))
              (sym (
                ap (λ c. if c then (true, more (push b key val) next) else (s.0, more b s.1))
                  small))
              (record {
                result =
                    sym (
                      ap is_none parts
                      ∙ ap (λ ss. is_none (find_slot ss key)) nothing
                      ∙ found_none);
                added =
                    ap (λ ss. used (push b key val) ++ ss) nothing
                    ∙ append_none (used (push b key val))
                    ∙ added
                    ∙ ap (λ ss. ss ++ (new ∷ []))
                        (sym (append_none (used b)) ∙ ap (λ ss. used b ++ ss) (sym nothing));
                valid = (one', packed, inr nothing);
              })
        | inr full ↦
            subst (PutSays (more b next))
              (sym (
                ap (λ c. if c then (true, more (push b key val) next) else (s.0, more b s.1)) full))
              (record {
                result = says.result ∙ ap is_none (sym parts);
                added =
                    ap (λ ss. used b ++ ss) says.added
                    ∙ sym (append_assoc (used b) (entries next) (if s.0 then new ∷ [] else []));
                valid = (one, says.valid, inl (ground (arith, full, one.room)));
              })
      ]

  pub put_lem : (c : Chain) → IsPacked c → PutSays c (put before c key val)
  unfolding put
  put_lem (single b) one =
      put_last_lem b (first_at b.slots key b.last) one (first_at_lem b.slots key b.last)
  put_lem (more b next) p =
      put_more_lem b next (first_at b.slots key b.last) (put before next key val) p
        (first_at_lem b.slots key b.last) (put_lem next p.1)
