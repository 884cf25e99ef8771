-- ===== src/ClhtLbRes/Grow.antt =====
-- OtherTables/src/clht/src/clht_lb_res.c: what a resize does.
use lock_free_hop_scotch.Prelude.{
  Bool, not, ℕ, zero, suc, ◌+◌, ◌-◌, ◌*◌, ◌^◌, ◌<◌, ◌≤◌, ◌≡◌, ◌≢◌, true, false, not, List, [], ◌∷◌,
  ◌++◌, Option, none, some, ◌==◌, Bool-cases, inl, inr, if◌then◌else◌, refl, sym, ap, subst, ◌∙◌,
  arith, ltb, leb, lt→ltb, leb→le, u32,
}
use lock_free_hop_scotch.Prelude.Options.{◌>>=◌}
use mathlib.Core.List.{append_assoc}
use native.Mathlib.Nat.{one-le-pow}
use lock_free_hop_scotch.Buckets.{sum_below}
use lock_free_hop_scotch.ClhtLb.Chain.{count, size, or_else}
use lock_free_hop_scotch.ClhtLb.Create.{nonzero, zeros-IsChain, zeros-find}
use lock_free_hop_scotch.ClhtLb.Table.{Locked}
use lock_free_hop_scotch.ClhtLbRes.Table.{
  Table, clht_hash, clht_size, clht_hashtable_create, zero_bucket, lock_free,
}
use lock_free_hop_scotch.ClhtLbRes.Status.{
  Clht, taken, copy_below, publish, new_size, ht_resize_pes,
}
use lock_free_hop_scotch.ClhtLbRes.Change.{lookup, IsTable, clht_hash-IsIndex}
use lock_free_hop_scotch.ClhtLbRes.Copy.{or_else-none}
use lock_free_hop_scotch.ClhtLbRes.Move.{Moved, moved, copy_below_lem}

-- A table with no key but 0.
pub record IsNew (num_buckets : ℕ) (t : Table) : Type 0 where
  pub valid : IsTable t
  pub absent : (q : ℕ) → q ≢ 0 → lookup t q ≡ none
  pub sizes : clht_size t ≡ 0
  pub buckets : t.num_buckets ≡ num_buckets
  pub expands : t.num_expands ≡ 0

sum-zeros : (n : ℕ) → sum_below (λ (b : Locked). size b.chain) (λ i. zero_bucket) n ≡ 0
unfolding sum_below size count
sum-zeros zero = refl
sum-zeros (suc n) = rw (sum-zeros n) refl

-- The table that `clht_hashtable_create` makes, with the version that a resize gives it.
abbrev pub fresh_table : ℕ → ℕ → Table
fresh_table num_buckets version = record {
  num_buckets = num_buckets;
  table = λ i. zero_bucket;
  hash = num_buckets - 1;
  version = version;
  num_expands = 0;
  num_expands_threshold = if num_buckets == 0 then 1 else num_buckets;
}

pub clht_hashtable_create_lem :
    (log n version : ℕ)
    → n ≡ 2 ^ log
    → (clht_hashtable_create n ≡ some (fresh_table n 0)) × IsNew n (fresh_table n version)
unfolding clht_hashtable_create clht_size
clht_hashtable_create_lem log n version power =
    let one : (n == 0) ≡ false =
      nonzero n (subst (λ n. 1 ≤ n) (sym power) (one-le-pow log 2 (omega arith))) in
    (
      ap (λ b. if b then none else some (fresh_table n 0)) one,
      record {
        valid = record {
          log = log;
          power = power;
          mask = refl;
          threshold = ap (λ b. if b then 1 else n) one;
          free = λ i lt. refl;
          valid = λ i lt. zeros-IsChain;
          placed = λ i lt q nz there. absurd (there (zeros-find q nz));
        };
        absent = λ q nz. zeros-find q nz;
        sizes = sum-zeros n;
        buckets = refl;
        expands = refl;
      },
    )

-- What a resize, or several, leave of a table: all its entries, in a larger table. Each table that
-- has been replaced is handed over, once.
pub record Grown (h h' : Clht) : Type 0 where
  pub lookups : (q : ℕ) → q ≢ 0 → lookup h'.ht q ≡ lookup h.ht q
  pub sizes : clht_size h'.ht ≡ clht_size h.ht
  pub valid : IsTable h'.ht
  pub unlocked : h'.resize_lock ≡ lock_free
  pub larger : h.ht.num_buckets ≤ h'.ht.num_buckets
  pub replaced : (ts : List Table) × (h'.prev ≡ ts ++ h.prev) × (h'.released ≡ ts ++ h.released)

pub Grown-trans : (h h' h'' : Clht) → Grown h h' → Grown h' h'' → Grown h h''
Grown-trans h h' h'' a b =
    let (ts, before, gone) = a.replaced in
    let (ts', before', gone') = b.replaced in
    record {
      lookups = λ q nz. b.lookups q nz ∙ a.lookups q nz;
      sizes = b.sizes ∙ a.sizes;
      valid = b.valid;
      unlocked = b.unlocked;
      larger = omega (arith, a.larger, b.larger);
      replaced = (
        ts' ++ ts,
        before' ∙ ap (λ xs. ts' ++ xs) before ∙ sym (append_assoc ts' ts h.prev),
        gone' ∙ ap (λ xs. ts' ++ xs) gone ∙ sym (append_assoc ts' ts h.released),
      );
    }

-- The steps of `ht_resize_pes`, with the result of the step before.
abbrev pub one_resize : Option Clht → Option (ℕ × Clht)
one_resize o = o >>= λ h'. some (1, h')

abbrev pub end_with :
    (Clht → Option Clht) → Clht → Option ((ℕ → Locked) × Table) → Option (ℕ × Clht)
end_with again h o =
    o >>= λ r. one_resize (publish again (record h { resize_lock = taken }) r.0 r.1)

abbrev pub resize_into : (Clht → Option Clht) → (ℕ → ℕ) → Clht → Option Table → Option (ℕ × Clht)
resize_into again before h o = o >>= λ t.
    end_with again h
      (copy_below before h.ht.num_buckets h.ht.table (record t { version = h.ht.version + 1 }))

pub ht_resize_pes-unlocked :
    (again : Clht → Option Clht) (before : ℕ → ℕ) (h : Clht) (increase : Bool) (by : ℕ)
    → h.resize_lock ≡ lock_free
    → ht_resize_pes again before h increase by
      ≡ resize_into again before h
          (clht_hashtable_create (u32 (new_size increase by h.ht.num_buckets)))
unfolding ht_resize_pes
ht_resize_pes-unlocked again before h increase by unlocked =
    ap
      (λ l.
        if not (l == 0)
        then some (0, record h { resize_lock = taken })
        else resize_into again before h
            (clht_hashtable_create (u32 (new_size increase by h.ht.num_buckets))))
      unlocked

module _ (h : Clht) (v : IsTable h.ht) where
  -- The table that a resize publishes.
  pub record Resized (n : ℕ) (h' : Clht) : Type 0 where
    pub kept : Grown h h'
    pub buckets : h'.ht.num_buckets ≡ n
    pub expands : h'.ht.num_expands ≤ clht_size h'.ht

  -- The heads that `publish` leaves.
  abbrev pub published : (ℕ → Locked) → Table → Clht
  published table new =
      let old : Table = record h.ht { table = table } in
      record h {
        ht = new;
        prev = old ∷ h.prev;
        released = old ∷ h.released;
        resize_lock = lock_free;
      }

  module _ (before : ℕ → ℕ) where
    pub all_moved : (q : ℕ) → moved before h.ht v h.ht.num_buckets q ≡ lookup h.ht q
    all_moved q =
        let in_table : ltb (clht_hash h.ht q) h.ht.num_buckets ≡ true =
          lt→ltb (clht_hash h.ht q) h.ht.num_buckets (clht_hash-IsIndex h.ht v q) in
        ap (λ b. if b then lookup h.ht q else none) in_table

    Moved-Resized :
        (n : ℕ) (t : Table) (r : (ℕ → Locked) × Table)
        → h.ht.num_buckets ≤ n
        → IsNew n t
        → Moved before h.ht v h.ht.num_buckets t r
        → Resized n (published r.0 r.1)
    unfolding clht_size
    Moved-Resized n t (table, new) le fresh m =
        let same : clht_size new ≡ clht_size h.ht = omega (arith, m.copied.sizes, fresh.sizes) in
        record {
          kept = record {
            lookups = λ q nz.
                m.copied.lookups q nz
                ∙ ap (or_else (moved before h.ht v h.ht.num_buckets q)) (fresh.absent q nz)
                ∙ or_else-none (moved before h.ht v h.ht.num_buckets q)
                ∙ all_moved q;
            sizes = same;
            valid = m.copied.valid;
            unlocked = refl;
            larger = omega (arith, le, m.copied.buckets, fresh.buckets);
            replaced = (record h.ht { table = table } ∷ [], refl, refl);
          };
          buckets = m.copied.buckets ∙ fresh.buckets;
          expands = omega (arith, m.copied.expands, fresh.expands, same);
        }

    -- What the next resize gives, if the new table asks for one.
    abbrev pub Again : (Clht → Option Clht) → ℕ → Type 0
    Again again n =
        (h' : Clht)
        → Resized n h'
        → n ≤ clht_size h'.ht
        → (h'' : Clht) × (again h' ≡ some h'') × Grown h' h''

    publish_lem :
        (again : Clht → Option Clht) (n : ℕ) (table : ℕ → Locked) (new : Table)
        → Resized n (published table new)
        → Again again n
        → (h' : Clht) × (publish again (record h { resize_lock = taken }) table new ≡ some h')
          × Grown h h'
    unfolding publish
    publish_lem again n table new r next =
        let h' = published table new in
        elim (Bool-cases (leb new.num_expands_threshold new.num_expands)) [
          | inl full ↦
              let le : new.num_expands_threshold ≤ new.num_expands = leb→le _ _ full in
              let (h'', eq, g) =
                next h' r (omega (arith, le, r.kept.valid.threshold, r.buckets, r.expands)) in
              (
                h'',
                ap (λ b. if b then again h' else some h') full ∙ eq,
                Grown-trans h h' h'' r.kept g,
              )
          | inr rest ↦ (h', ap (λ b. if b then again h' else some h') rest, r.kept)
        ]

    -- A resize to a larger power of two of buckets.
    pub ht_resize_pes_lem :
        (again : Clht → Option Clht) (by log : ℕ)
        → by * h.ht.num_buckets ≡ 2 ^ log
        → by * h.ht.num_buckets < 2 ^ 32
        → h.ht.num_buckets ≤ by * h.ht.num_buckets
        → h.resize_lock ≡ lock_free
        → Again again (by * h.ht.num_buckets)
        → (h' : Clht) × (ht_resize_pes again before h true by ≡ some (1, h')) × Grown h h'
    ht_resize_pes_lem again by log power fits le unlocked next =
        let n = by * h.ht.num_buckets in
        let word : u32 n ≡ n = omega (arith, fits) in
        let (made, fresh) = clht_hashtable_create_lem log n (h.ht.version + 1) power in
        let t = fresh_table n (h.ht.version + 1) in
        let (r, copied, m) =
          copy_below_lem before h.ht v h.ht.num_buckets (omega arith) t fresh.valid
            (λ q nz there. fresh.absent q nz) in
        let (h', eq, g) = publish_lem again n r.0 r.1 (Moved-Resized n t r le fresh m) next in
        (
          h',
          ht_resize_pes-unlocked again before h true by unlocked
              ∙ ap (λ n. resize_into again before h (clht_hashtable_create n)) word
              ∙ ap (resize_into again before h) made
              ∙ ap (end_with again h) copied
              ∙ ap one_resize eq,
          g,
        )
