-- ===== src/Lib.antt =====
-- Verification of the lock-free hopscotch hash table of this repository, and of the lock-free
-- cache-line hash table (CLHT) and the CLHT with locks that it is measured against.
--
-- The program's parts. OurTable/src/LFHash.h is the hopscotch table: a set of keys in an array of
-- 64-bit words, each key within 16 slots of its home; the two top bits of a word are a tag, 0 for
-- a key, 2 for a removed key and 3 for a reservation. `add` reserves a free slot, pulls the
-- reservation towards the home by `Relocate`, gives it up and writes the key by `BucketInsert`;
-- `contains` looks at the slots near the home; `Remove` exchanges the word of the key.
-- OurTable/src/Hopscotch.cpp drives the table with random keys from workload.h.
-- OtherTables/src/clht is a family of hash tables whose buckets fit into a cache line; clht_lf.c
-- keeps three entries in a bucket, under a word (the snapshot) with a version and a state for
-- each slot, and changes that word by compare-and-swap; clht_lb.c keeps a chain of such buckets
-- under a lock; clht_lb_res.c lets such a table grow, by a copy into a larger one, and clht_gc.c
-- frees the tables that it has replaced when no thread may use them; clht_lb_packed.c keeps the
-- entries of a chain without gaps.
--
-- The files.
-- - Prelude: what the others share; Prelude/Tests: Boolean tests; Prelude/Lists; Prelude/Bits:
--   bit fields by `bit_and` and `bit_or`; Prelude/Words: machine words, an array as a function.
-- - LfHash: OurTable/src/LFHash.h. LfHash/Run: a run ends with a result, with `exit`, or is out
--   of fuel. LfHash/Hash: MurmurHash2A and the home of a key. LfHash/Entry: the tags (getKey,
--   getHeader, CreateBucketEntry). LfHash/Table: the object, its constructor,
--   compare-and-exchange, contains; LfHash/Table/Contains: what contains answers. LfHash/Insert,
--   LfHash/Relocate, LfHash/Add and LfHash/Remove: BucketInsert, Relocate, add and Remove; their
--   children state what these do: Insert/Laws, Relocate/Laws, Relocate/Stuck (a retry that never
--   ends), Add/Reserve (the probing), Add/Pull (the loop around Relocate), Add/Laws, Remove/Laws
--   (the search for the slots), Remove/Effect. LfHash/Threads: contains, add, Relocate,
--   BucketInsert and Remove by several threads, as a relation with one constructor for each
--   access to the array and outcome of a test; Threads/System: any number of threads, in any
--   order; Threads/Words and Threads/Found: where the words of the array come from;
--   Threads/Calls: one call among the steps of others; Threads/WaitFree: calls that end;
--   Threads/Answer and Threads/Absent: what contains and Remove answer; Threads/Twice: two calls
--   of add of one key. LfHash/Setup: insertKey and clearAll of OurTable/src/Hopscotch.cpp;
--   Setup/Laws: the table as a set.
-- - Driver: lookUp and worker of OurTable/src/Hopscotch.cpp; Driver/Shares: the keys of each
--   worker; Driver/Answers: a worker in a run without removals.
-- - Workload: OurTable/src/workload.h, the random keys. Workload/Keys: the constructor;
--   Workload/Split: workSplit.
-- - ClhtLf: OtherTables/src/clht/src/clht_lf.c with its header clht_lf.h. ClhtLf/Bucket: a
--   bucket, the snapshot and its operations. ClhtLf/Worker: a thread in clht_get, clht_put or
--   clht_remove, as a relation with one constructor for each access to shared memory and outcome
--   of a test. ClhtLf/System: any number of threads on one bucket, in any order.
--   ClhtLf/Invariant: what each thread knows (Local), what a step of another leaves alone (Env),
--   what a step changes (Change), what the thread knows after its own step (Thread), what stays
--   true of the entries (Kept) and of the claims (Claims), and all of this in every state
--   (Reachable). ClhtLf/Refinement: the bucket as a map that changes in single steps;
--   ClhtLf/Zero: puts of the value 0. ClhtLf/Table: clht_bucket_create, clht_create, clht_hashtable_create, clht_hash and
--   clht_size; Table/Threads: any number of threads on a table, each in the bucket of its key;
--   Table/Bins: what they do to one bucket is a run of ClhtLf/System; Table/Keys: the key and the
--   bucket of a thread; Table/Refinement: the table as a map that changes in single steps;
--   Table/Place: where the keys are; Table/Count and Table/Size: what clht_size counts.
--   ClhtLf/Power: is_power_of_two and is_odd.
-- - ClhtLb: OtherTables/src/clht/src/clht_lb.c with its header clht_lb.h, where each hash value
--   has a chain of buckets of three slots under a lock. ClhtLb/Chain: the code on a chain;
--   ClhtLb/Slots: its loops over slots; ClhtLb/Flat: a chain as one list of slots; ClhtLb/Laws:
--   put and remove on a chain; ClhtLb/Table: clht_hashtable_create, clht_hash, clht_get,
--   clht_put, clht_remove and clht_size; ClhtLb/Replace: a change of one bucket;
--   ClhtLb/Refinement: the table as a map; ClhtLb/Create and ClhtLb/Roundtrip: a new table, and a
--   put with the remove that undoes it; ClhtLb/Seq: clht_put_seq and bucket_cpy; Seq/Laws: what
--   bucket_cpy copies.
-- - Buckets: what the tables share whose bucket for a key is key & (number of buckets - 1).
-- - ClhtLbRes: OtherTables/src/clht/src/clht_lb_res.c with its header clht_lb_res.h, the table
--   with locks that grows; its chains are those of ClhtLb/Chain. ClhtLbRes/Round: pow2roundup of
--   utils.h; ClhtLbRes/Powers: why it is a power of two. ClhtLbRes/Table: the table, its locks,
--   and what clht_put, clht_remove and clht_put_seq do to it; ClhtLbRes/Status: bucket_cpy,
--   ht_resize_pes and ht_status; ClhtLbRes/Ops: clht_put and clht_remove. ClhtLbRes/Fill:
--   clht_put_seq on a chain; ClhtLbRes/Change and ClhtLbRes/Locked: a table whose chain for one
--   key changes; ClhtLbRes/Copy: the copy of a chain; ClhtLbRes/Move: the loop over the buckets;
--   ClhtLbRes/Grow: one resize; ClhtLbRes/Factor: by how much; ClhtLbRes/Settle: the resizes
--   until none is asked for; ClhtLbRes/Refinement: the table as a map; ClhtLbRes/Errors: a
--   resize to fewer buckets; ClhtLbRes/Roundtrip.
-- - ClhtPacked: OtherTables/src/clht/src/clht_lb_packed.c with its header clht_lb_packed.h, where
--   the entries of a chain are packed to its front and a removal moves the last one into the gap.
--   ClhtPacked/Chain: the code on a chain; ClhtPacked/Entries: its entries as one list;
--   ClhtPacked/Laws: its searches; ClhtPacked/Put and ClhtPacked/Added: put; ClhtPacked/Swap,
--   ClhtPacked/Remove and ClhtPacked/Removal: remove; ClhtPacked/Table: the table;
--   ClhtPacked/Change and ClhtPacked/Refinement: the table as a map.
-- - ClhtGc: OtherTables/src/clht/src/clht_gc.c, the tables that ClhtLbRes has replaced, when they
--   are collected. ClhtGc/Versions: the code; ClhtGc/Laws: the least version in use and the loop
--   over the tables; ClhtGc/Collect: a collection; ClhtGc/Destroy: clht_gc_destroy.
-- - Tests: concrete runs, and each theorem at an input that meets its hypotheses.
--
-- Choices. Apart from LfHash/Threads the LfHash modules run one thread, with no other thread
-- between its accesses, and a weak compare-and-exchange does not fail when the word is as
-- expected. In LfHash/Threads a step is one load, one exchange or the taking of a stamp; a weak
-- exchange may fail at any time; the memory is sequentially consistent, as for std::atomic with no
-- other order given, also where the code reads the array through a plain pointer; a thread that
-- calls exit stands still. Words past the end of the array are words of the model's array too;
-- LfHash/Threads starts with all of them 0. The loops of add and Relocate are on fuel; 256 rounds
-- are enough, since a reservation is at most 255 slots from the home and each Relocate moves it
-- down. The value of rand() is an argument of the constructor of the table; in Workload all its
-- values are a function of the number of the call, and the fuel is that of the search for one new
-- key. The ClhtLf modules are sequentially consistent: each load, store and CAS is one step. Keys
-- and values there are natural numbers, of which the code only tests equality; the values that the
-- callers of clht_put put are a parameter, any or all but 0, which the search returns for an
-- absent key. The version is a 32-bit number, and the theorems hold as long as fewer than 2^32
-- entries have been put in. The ClhtLb and ClhtPacked modules run one thread, to which a lock that
-- is held is an endless loop; ClhtLbRes is for fewer than 2^31 buckets, as ht_resize_pes counts
-- them in an int32_t; the words of a new bucket that the code does not write are an argument;
-- allocation does not fail.
--
-- Not modelled: main of OurTable/src/Hopscotch.cpp; timing, printing and thread creation; the
-- other tables of OtherTables; the third-party libraries that the repository carries.
pub mod Prelude
pub mod Buckets
pub mod ClhtGc
pub mod ClhtLb
pub mod ClhtLbRes
pub mod ClhtLf
pub mod ClhtPacked
pub mod Driver
pub mod LfHash
pub mod Workload
pub mod Tests
