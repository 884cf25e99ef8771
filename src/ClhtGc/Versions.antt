-- ===== src/ClhtGc/Versions.antt =====
-- OtherTables/src/clht/src/clht_gc.c: the versions of a growing table that threads may still use,
-- and the collection of the others.
use lock_free_hop_scotch.Prelude.{
  ℕ, suc, ◌-◌, ◌^◌, Bool, false, not, List, [], ◌∷◌, ◌++◌, Option, none, some, ltb, leb, ◌==◌,
  if◌then◌else◌,
}
use lock_free_hop_scotch.Prelude.Options.{◌>>=◌}

-- `ht_ts_t`
pub record Thread : Type 0 where
  pub version : ℕ
  pub id : ℕ

-- `clht_hashtable_t`, as far as the collection reads it: the addresses of the structure, of its
-- array, and of the further buckets of each chain.
pub record Table : Type 0 where
  pub version : ℕ
  pub address : ℕ
  pub array : ℕ
  pub chains : List (List ℕ)

-- `clht_t`. `older` are the tables from `ht_oldest` up to `ht`, along `table_new`; `freed` are the
-- blocks that have been given to `free`. The pointers `table_prev`, which a collection clears, are
-- not kept.
pub record Clht : Type 0 where
  pub address : ℕ
  pub ht : Table
  pub older : List Table
  pub version_list : List Thread
  pub version_min : ℕ
  pub gc_lock : ℕ
  pub freed : List ℕ

-- The new thread is the first in the list: with no other thread at work the exchange succeeds.
unfoldable pub clht_gc_thread_init : Clht → ℕ → Clht
clht_gc_thread_init h id = record h {
  version_list = record { version = h.ht.version; id = id } ∷ h.version_list;
}

unfoldable pub clht_gc_thread_version : Thread → Table → Thread
clht_gc_thread_version ts t = record ts { version = t.version }

-- -1 as a `size_t`
unfoldable pub clht_gc_thread_version_max : Thread → Thread
clht_gc_thread_version_max ts = record ts { version = 2 ^ 64 - 1 }

-- The loop of `clht_gc_min_version_used`.
unfoldable pub min_version : List Thread → ℕ → ℕ
min_version [] min = min
min_version (ts ∷ rest) min = min_version rest (if ltb ts.version min then ts.version else min)

unfoldable pub clht_gc_min_version_used : Clht → ℕ
unfolding min_version
clht_gc_min_version_used h = min_version h.version_list h.ht.version

abbrev pub flat : List (List ℕ) → List ℕ
flat [] = []
flat (c ∷ cs) = c ++ flat cs

-- What `clht_gc_free` gives to `free`, and `clht_gc_release` to `ssmem_release`, in this order.
unfoldable pub clht_gc_free : Table → List ℕ
clht_gc_free t = flat t.chains ++ (t.array ∷ t.address ∷ [])

-- The loop of `clht_gc_collect_cond`: how many tables it frees, those that are left, and the freed
-- blocks. It would follow NULL after the last table.
unfoldable pub sweep : ℕ → List Table → Table → Option (ℕ × List Table × List ℕ)
unfolding clht_gc_free
sweep min [] ht = if ltb ht.version min then none else some (0, [], [])
sweep min (t ∷ ts) ht =
    let rest = sweep min ts ht in
    if ltb t.version min
    then (rest >>= λ r. some (suc r.0, r.1, clht_gc_free t ++ r.2))
    else some (0, t ∷ ts, [])

-- `ht_oldest`
abbrev pub ht_oldest : List Table → Table → Table
ht_oldest [] ht = ht
ht_oldest (t ∷ ts) ht = t

-- The lock is a byte, which `TAS_U8` sets to 0xff.
unfoldable pub clht_gc_collect_cond : Clht → Bool → Option (ℕ × Clht)
unfolding clht_gc_min_version_used sweep
clht_gc_collect_cond h collect_not_referenced_only =
    let min = if collect_not_referenced_only then clht_gc_min_version_used h else h.ht.version in
    let swept : Option (ℕ × Clht) = (do
      (gced_num, older, freed) ← sweep min h.older h.ht
      some (
        gced_num,
        record h {
          older = older;
          version_min = (ht_oldest older h.ht).version;
          gc_lock = 0;
          freed = h.freed ++ freed;
        },
      )) in
    if leb h.ht.version h.version_min
    then some (0, h)
    else if not (h.gc_lock == 0)
    then some (0, record h { gc_lock = 0xff })
    else if leb min h.version_min
    then some (0, record h { gc_lock = 0 })
    else swept

unfoldable pub clht_gc_collect_all : Clht → Option (ℕ × Clht)
unfolding clht_gc_collect_cond
clht_gc_collect_all h = clht_gc_collect_cond h false

-- The blocks that have been freed in the end; the allocator's own block is left out.
unfoldable pub clht_gc_destroy : Clht → Option (List ℕ)
unfolding clht_gc_collect_all clht_gc_free
clht_gc_destroy h = do
  (gced_num, h') ← clht_gc_collect_all h
  some (h'.freed ++ (clht_gc_free h'.ht ++ (h'.address ∷ [])))
