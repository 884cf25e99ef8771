-- ===== src/Tests/ClhtGc.antt =====
-- OtherTables/src/clht/src/clht_gc.c, with three old tables and two threads.
use lock_free_hop_scotch.Prelude.{
  ℕ, ◌+◌, ◌<◌, ◌≡◌, true, List, [], ◌∷◌, ◌++◌, some, refl, arith, ◌==◌, if◌then◌else◌,
}
use lock_free_hop_scotch.ClhtGc.Versions.{
  Thread, Table, Clht, clht_gc_min_version_used, clht_gc_thread_init, clht_gc_thread_version_max,
  clht_gc_free, clht_gc_collect_cond, clht_gc_destroy,
}
use lock_free_hop_scotch.ClhtGc.Laws.{
  Each, IsMin, blocks, clht_gc_min_version_used-IsMin, clht_gc_min_version_used-clht_gc_thread_init,
}
use lock_free_hop_scotch.ClhtGc.Collect.{
  IsGc, Collected, keeps_from, clht_gc_collect_cond_lem, clht_gc_collect_cond-spares,
}
use lock_free_hop_scotch.ClhtGc.Destroy.{clht_gc_destroy_lem}

-- The table of a version, with two chains, one of which has a further bucket.
abbrev version : ℕ → Table
version v = record {
  version = v;
  address = 10 + v;
  array = 20 + v;
  chains = [] ∷ (((30 + v) ∷ []) ∷ []);
}

abbrev three_old : Clht
three_old = record {
  address = 1;
  ht = version 3;
  older = version 0 ∷ version 1 ∷ version 2 ∷ [];
  version_list = record { version = 2; id = 0 } ∷ record { version = 3; id = 1 } ∷ [];
  version_min = 0;
  gc_lock = 0;
  freed = [];
}

three_old-IsGc : IsGc three_old
three_old-IsGc = record {
  ascending = (omega arith, (omega arith, (omega arith, tt)));
  oldest = refl;
}

clht_gc_min_version_used-IsMin_example :
    IsMin three_old.version_list 3 (clht_gc_min_version_used three_old)
clht_gc_min_version_used-IsMin_example = clht_gc_min_version_used-IsMin three_old

clht_gc_min_version_used-clht_gc_thread_init_at :
    (clht_gc_min_version_used (clht_gc_thread_init three_old 2)
      ≡ clht_gc_min_version_used three_old)
    × (clht_gc_min_version_used (record three_old {
      version_list =
          clht_gc_thread_version_max (record { version = 0; id = 2 }) ∷ three_old.version_list;
    })
        ≡ clht_gc_min_version_used three_old)
clht_gc_min_version_used-clht_gc_thread_init_at =
    clht_gc_min_version_used-clht_gc_thread_init three_old 2 (record { version = 0; id = 2 })
      (omega arith)

clht_gc_collect_cond_lem_example :
    (r : ℕ × Clht) × (clht_gc_collect_cond three_old true ≡ some r)
    × Collected three_old (keeps_from three_old true) r
clht_gc_collect_cond_lem_example = clht_gc_collect_cond_lem three_old three_old-IsGc refl true

clht_gc_collect_cond-spares_example :
    (r : ℕ × Clht) × (clht_gc_collect_cond three_old true ≡ some r)
    × ((gone : List Table) × (three_old.older ≡ gone ++ r.1.older)
        × (r.1.freed ≡ three_old.freed ++ blocks gone)
        × Each
            (λ (t : Table).
              (t.version < 3)
              × Each (λ (ts : Thread). t.version < ts.version) three_old.version_list)
            gone)
clht_gc_collect_cond-spares_example = clht_gc_collect_cond-spares three_old three_old-IsGc refl

clht_gc_destroy_lem_example :
    clht_gc_destroy three_old
    ≡ some (
        ([] ++ (if 0 == 0 then blocks three_old.older else []))
        ++ (clht_gc_free (version 3) ++ (1 ∷ [])))
clht_gc_destroy_lem_example = clht_gc_destroy_lem three_old three_old-IsGc

two_gone :
    clht_gc_collect_cond three_old true
    ≡ some (
      2,
      record three_old {
        older = version 2 ∷ [];
        version_min = 2;
        freed = 30 ∷ 20 ∷ 10 ∷ 31 ∷ 21 ∷ 11 ∷ [];
      },
    )
unfolding clht_gc_collect_cond
two_gone = refl
