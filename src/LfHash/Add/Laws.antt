-- ===== src/LfHash/Add/Laws.antt =====
-- OurTable/src/LFHash.h: `add` in a table in which each key stands near its home.
use lock_free_hop_scotch.Prelude.{
  ℕ, zero, suc, ◌+◌, ◌*◌, ◌^◌, ◌≤◌, ◌<◌, true, false, ◌≡◌, ◌≢◌, refl, ◌⊎◌, ◌↔◌, inl, inr, arith,
  Bool-cases, Bool-eq_of_iff, ltb, leb, update, if◌then◌else◌, sub32,
}
use lock_free_hop_scotch.LfHash.Run.{ok, exited, resize, insertion_failure, ◌>>=◌}
use lock_free_hop_scotch.LfHash.Hash.{home, home-lt, total_buckets}
use lock_free_hop_scotch.LfHash.Entry.{bucket_entry, bucket_entry_lem}
use lock_free_hop_scotch.LfHash.Table.{
  hop, add_range, Table, contains, compare_exchange, exchange_won,
}
use lock_free_hop_scotch.LfHash.Table.Contains.{IsKey, IsPlaced, Holds, contains-Holds}
use lock_free_hop_scotch.LfHash.Insert.Laws.{FirstFree, bucket_insert_lem}
use lock_free_hop_scotch.LfHash.Relocate.Laws.{Reserved}
use lock_free_hop_scotch.LfHash.Add.{reserve, pull_back, insert_loop, add_absent, add}
use lock_free_hop_scotch.LfHash.Add.Reserve.{reserve_lem}
use lock_free_hop_scotch.LfHash.Add.Pull.{IsUnique, SameKeys, SameKeys-trans, pull_back_lem}

-- `after` holds the keys of `before` and `key`.
pub record Added (seed : ℕ) (before after : ℕ → ℕ) (key : ℕ) : Type 0 where
  pub placed : IsPlaced seed after
  pub has : Holds after key
  pub others : (k : ℕ) → IsKey k → k ≢ key → Holds before k ↔ Holds after k
  pub unique : IsUnique before → ¬ (Holds before key) → IsUnique after

module _ (seed : ℕ) (slots : ℕ → ℕ) (key loc : ℕ) (k : IsKey key)
    (res : Reserved seed slots loc (key + 3 * 2 ^ 62)) (lo : home seed key ≤ loc)
    (hi : loc ≤ home seed key + hop) where
  abbrev cleared : ℕ → ℕ
  cleared = update slots loc 0

  -- The write of the key, in a free slot of the neighbourhood, after the reservation is given up.
  write-Added :
      (j : ℕ)
      → home seed key ≤ j
      → j ≤ home seed key + hop
      → cleared j ≡ 0
      → Added seed slots (update cleared j key) key
  write-Added j a b free = record {
    placed = λ i. ground (arith, res.others i, k.small);
    has = (j, ground arith);
    others = λ l h ne. (
      λ (i, e). (i, ground (arith, h.small, res.holder)),
      λ (i, e). (i, ground (arith, h.nonzero)),
    );
    unique = λ u absent. λ l i i' h e e'. ground (
      arith,
      h.nonzero,
      u l i i' h,
      λ (q : slots i ≡ key). absent (i, q),
      λ (q : slots i' ≡ key). absent (i', q),
    );
  }

-- From the end of the relocations: the reservation is given up, and the key is written.
finish_lem :
    (fuel seed : ℕ) (slots : ℕ → ℕ) (key loc cached : ℕ)
    → IsKey key
    → Reserved seed slots loc (key + 3 * 2 ^ 62)
    → home seed key ≤ loc
    → loc ≤ home seed key + hop
    → (after : ℕ → ℕ) × (insert_loop
          (suc fuel)
          (compare_exchange slots loc (slots loc) 0).after
          (home seed key)
          key
          cached
        ≡ ok after)
      × Added seed slots after key
unfolding insert_loop
finish_lem fuel seed slots key loc cached k res lo hi =
    let (j, le, first, run) =
      bucket_insert_lem (update slots loc 0) (home seed key) key cached loc lo hi (ground arith) in
    (
      update (update slots loc 0) j key,
      rw (exchange_won slots loc (slots loc) 0 refl, run),
      write-Added seed slots key loc k res lo hi j first.lower (omega arith) first.free,
    )

Added-SameKeys :
    {seed : ℕ} {a b c : ℕ → ℕ} {key : ℕ}
    → IsKey key
    → SameKeys a b
    → Added seed b c key
    → Added seed a c key
Added-SameKeys {key} h p q = record {
  placed = q.placed;
  has = q.has;
  others = λ k hk ne. (
    λ x. (q.others k hk ne).0 ((p.holds k hk).0 x),
    λ x. (p.holds k hk).1 ((q.others k hk ne).1 x),
  );
  unique = λ u absent. q.unique (p.unique u) (λ x. absent ((p.holds key h).1 x));
}

-- A reservation in a free slot.
module _ (seed : ℕ) (slots : ℕ → ℕ) (loc entry : ℕ) (big : 2 ^ 62 ≤ entry)
    (free : slots loc ≡ 0) where
  reserve-SameKeys : SameKeys slots (update slots loc entry)
  reserve-SameKeys = record {
    holds =
        λ k h. (λ (i, e). (i, ground (arith, h.nonzero)), λ (i, e). (i, ground (arith, h.small)));
    unique = λ u k i j h e e'. ground (arith, h.small, u k i j h);
  }

  reserve-Reserved : IsPlaced seed slots → Reserved seed (update slots loc entry) loc entry
  reserve-Reserved placed = record {
    holder = ground arith;
    others = λ i ne. ground (arith, placed i);
  }

-- The ways in which `add_absent` ends: with the key added; with the 255 slots from the key's home
-- on all taken; or with no slot to move in `Relocate`.
abbrev pub AddEnds : (fuel : ℕ) (t : Table) (key cached : ℕ) → Type 0
AddEnds fuel t key cached =
    ((add_absent fuel t key cached ≡ exited insertion_failure)
      × ((i : ℕ) → home t.seed key ≤ i → i + 1 < home t.seed key + add_range → t.slots i ≢ 0))
    ⊎ ((add_absent fuel t key cached ≡ exited resize)
        × ((i : ℕ) → home t.seed key ≤ i → i ≤ home t.seed key + hop → t.slots i ≢ 0))
    ⊎ ((after : ℕ → ℕ) × (add_absent fuel t key cached ≡ ok (record t { slots = after }))
        × Added t.seed t.slots after key)

-- From the end of the relocations on, wherever the reservation then stands.
written_lem :
    (fuel : ℕ) (t : Table) (key cached trails slot : ℕ) (p : ℕ × (ℕ → ℕ)) (after : ℕ → ℕ)
    → reserve fuel t.slots (bucket_entry key 0) 0 0 (home t.seed key)
      ≡ ok (trails, slot, update t.slots slot (bucket_entry key 0))
    → leb add_range trails ≡ false
    → (if ltb hop (sub32 slot (home t.seed key))
        then pull_back fuel t.seed
            (update t.slots slot (bucket_entry key 0))
            (home t.seed key)
            (bucket_entry key 0)
            slot
        else ok (slot, update t.slots slot (bucket_entry key 0)))
      ≡ ok p
    → insert_loop fuel (compare_exchange p.1 p.0 (p.1 p.0) 0).after (home t.seed key) key cached
      ≡ ok after
    → add_absent fuel t key cached ≡ ok (record t { slots = after })
unfolding add_absent
written_lem fuel t key cached trails slot p after run few pulled done =
    rw (run, ◌>>=◌, few, pulled, ◌>>=◌, done)

-- From a reservation in the first free slot on.
reserved_lem :
    (fuel : ℕ) (t : Table) (key cached trails slot : ℕ)
    → add_range ≤ suc fuel
    → IsKey key
    → IsPlaced t.seed t.slots
    → reserve (suc fuel) t.slots (key + 3 * 2 ^ 62) 0 0 (home t.seed key)
      ≡ ok (trails, slot, update t.slots slot (key + 3 * 2 ^ 62))
    → trails < add_range
    → slot + 1 ≡ home t.seed key + trails
    → FirstFree t.slots (home t.seed key) slot
    → AddEnds (suc fuel) t key cached
unfolding add_absent
reserved_lem fuel t key cached trails slot enough k placed run few reach first =
    let base = home t.seed key in
    let entry = key + 3 * 2 ^ 62 in
    let entry_is : bucket_entry key 0 ≡ entry = bucket_entry_lem key k.small in
    let went : leb add_range trails ≡ false = ground arith in
    let res = reserve-Reserved t.seed t.slots slot entry (omega arith) first.free placed in
    let same = reserve-SameKeys t.seed t.slots slot entry (omega arith) first.free in
    let small_base : base < total_buckets = home-lt t.seed key in
    elim (Bool-cases (ltb hop (sub32 slot base))) [
      | inr near ↦
          let (after, done, added) =
            finish_lem fuel t.seed (update t.slots slot entry) key slot cached k res first.lower
              (ground (arith, first.lower)) in
          inr (
            inr (
              after,
              written_lem (suc fuel) t key cached trails slot (slot, update t.slots slot entry)
                  after (rw entry_is run) went (rw (near, entry_is)) done,
              Added-SameKeys k same added,
            ))
      | inl far ↦
          elim (pull_back_lem (suc fuel) t.seed (update t.slots slot entry) base key slot k.small
            (ground (arith, first.lower)) (omega arith) (omega arith) res) [
              | inl out ↦ inr (
                  inl (
                    rw (entry_is, run, ◌>>=◌, went, far) (rw out),
                    λ i lo hi. first.taken i lo (ground (arith, first.lower)),
                  ))
              | inr (p, pulled_run, pulled) ↦
                  let (after, done, added) =
                    finish_lem fuel t.seed p.1 key p.0 cached k pulled.reserved pulled.above
                      pulled.within in
                  inr (
                    inr (
                      after,
                      written_lem (suc fuel) t key cached trails slot p after (rw entry_is run) went
                          (rw (far, entry_is) pulled_run) done,
                      Added-SameKeys k (SameKeys-trans same pulled.same) added,
                    ))
            ]
    ]

pub add_absent_lem :
    (fuel : ℕ) (t : Table) (key cached : ℕ)
    → add_range ≤ suc fuel
    → IsKey key
    → IsPlaced t.seed t.slots
    → AddEnds (suc fuel) t key cached
add_absent_lem fuel t key cached enough k placed =
    let entry_is : bucket_entry key 0 ≡ key + 3 * 2 ^ 62 = bucket_entry_lem key k.small in
    let (r, run, res) = reserve_lem fuel t.slots (key + 3 * 2 ^ 62) (home t.seed key) in
    elim (Bool-cases (leb add_range r.0)) [
      | inl over ↦
          inl (unfold add_absent in rw (entry_is, run, ◌>>=◌, over), res.beyond (ground arith))
      | inr few ↦
          let lt : r.0 < add_range = ground arith in
          reserved_lem fuel t key cached r.0 r.1 enough k placed (rw (← res.after lt) run) lt
            (omega (arith, res.reach)) (res.first lt)
    ]

-- What `contains` says after an addition.
Added-contains :
    (t : Table) (after : ℕ → ℕ) (key k : ℕ)
    → IsPlaced t.seed t.slots
    → Added t.seed t.slots after key
    → IsKey k
    → k ≢ key
    → contains (record t { slots = after }) k ≡ contains t k
Added-contains t after key k placed added h ne =
    let old = contains-Holds t k placed h in
    let new = contains-Holds (record t { slots = after }) k added.placed h in
    Bool-eq_of_iff _ _ (
      λ p. old.1 ((added.others k h ne).1 (new.0 p)),
      λ p. new.1 ((added.others k h ne).0 (old.0 p)),
    )

-- The three ways in which `add` ends: an exit as an insertion failure, with the 255 slots from the
-- key's home on taken; an exit for a resize, with the 17 slots of the neighbourhood taken; or a
-- table with the key added.
abbrev pub AddSays : (fuel : ℕ) (t : Table) (key cached : ℕ) → Type 0
AddSays fuel t key cached =
    ((add fuel t key cached ≡ exited insertion_failure)
      × ((i : ℕ) → home t.seed key ≤ i → i + 1 < home t.seed key + add_range → t.slots i ≢ 0))
    ⊎ ((add fuel t key cached ≡ exited resize)
        × ((i : ℕ) → home t.seed key ≤ i → i ≤ home t.seed key + hop → t.slots i ≢ 0))
    ⊎ ((t' : Table) × (add fuel t key cached ≡ ok (true, t'))
        × (t'.seed ≡ t.seed)
        × IsPlaced t.seed t'.slots
        × (contains t' key ≡ true)
        × ((k : ℕ) → IsKey k → k ≢ key → contains t' k ≡ contains t k))

-- `add` of a key, in a table in which each key stands near its home, with `fuel` for at least 256
-- rounds of each loop: it exits as an insertion failure when the 255 slots from the key's home on
-- are taken; it exits for a resize only when the 17 slots of the neighbourhood are taken; or it
-- returns true, and then each key still stands near its home, `contains` finds the new key, and
-- finds the other keys as before.
pub add_lem :
    (fuel : ℕ) (t : Table) (key cached : ℕ)
    → add_range ≤ fuel
    → IsKey key
    → IsPlaced t.seed t.slots
    → AddSays fuel t key cached
add_lem zero t key cached enough k placed = absurd (omega arith)
add_lem (suc fuel) t key cached enough k placed = elim (Bool-cases (contains t key)) [
  | inl there ↦ inr (inr (t, unfold add in rw there, refl, placed, there, λ j h ne. refl))
  | inr absent ↦ elim (add_absent_lem fuel t key cached enough k placed) [
    | inl (run, full) ↦ inl (unfold add in rw (absent, run, ◌>>=◌), full)
    | inr (inl (run, full)) ↦ inr (inl (unfold add in rw (absent, run, ◌>>=◌), full))
    | inr (inr (after, run, added)) ↦
        let t' = record t { slots = after } in
        inr (
          inr (
            t',
            unfold add in rw (absent, run, ◌>>=◌),
            refl,
            added.placed,
            (contains-Holds t' key added.placed k).1 added.has,
            λ j h ne. Added-contains t after key j placed added h ne,
          ))
  ]
]
