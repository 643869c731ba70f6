-- ===== src/Lib.antt =====
-- CLHT, the cache-line hash tables: a model of the lock-based tables with and without resizing, of
-- the packed table, of the table that has no links, of the one that overflows into its neighbours, of
-- the reclamation of old tables, of a bin of the table whose removes take no lock, and of a bucket of
-- two lock-free tables, and their theorems.
--
-- The program. The lock-based table (clht_lb_res). A table is an array of buckets of one cache line:
-- a lock word, ENTRIES_PER_BUCKET (three) keys and values, and `next`, a link to overflow buckets.
-- Key 0 marks an empty slot. A get takes no lock. A put or remove first walks the chain without the
-- lock (CLHT_READ_ONLY_FAIL), and takes the lock of the first bucket where it has something to
-- change. A put into a full chain appends a bucket; when the number of such expansions hits a
-- threshold, it calls `ht_status`, which counts the bindings and resizes the table: `ht_resize_pes`
-- copies every bucket, which it leaves locked, into a new table, publishes it, and asks `ht_status`
-- again where the copy itself hit the threshold of the new table.
--
-- The table without resizing (clht_lb) has the same buckets and walks; its chains only grow. The
-- packed table (clht_lb_packed) counts in each bucket the slots in use, which are the first ones: a
-- put fills the next one, and a remove moves the last entry of the chain into the hole, so that a
-- walk ends at the first bucket that is not full.
--
-- The table without links (clht_lb_res_no_next) has the structs of clht_lb_res and one bucket for each
-- bin. A put that finds its bucket full calls `ht_status`, which here always grows the table, and
-- starts again with the new table.
--
-- The table that overflows into its neighbours (clht_lb_linked). A full bucket goes on in the ones that
-- follow it in the array, and `hops` says in how many; a put takes the locks of the whole window, and
-- of further buckets up to the first with an empty slot, which the window then includes. Beyond
-- CLHT_LINKED_MAX_EXPANSIONS_HARD it asks for a resize.
--
-- The table with locks for insertions only (clht_lb_lock_ins). A put takes the lock of the bin, as
-- in clht_lb_res; a remove takes none: it turns its key into KEY_BLCK by compare-and-swap, which
-- nobody else can do then, reads the value, and writes 0 to the key.
--
-- The reclamation (clht_gc). Each table has a version, a resize links the new table behind the old
-- one, and each thread writes down the version that it uses. `clht_gc_collect` frees, from
-- `ht_oldest` on, the tables older than every version in use; `clht_gc_destroy` frees them all.
--
-- The lock-free table (clht_lf) has no links: a bucket is three keys and values, and a snapshot word
-- that holds a version and a byte for each slot, MAP_INVLD, MAP_INSRT or MAP_VALID. A put reserves a
-- free slot by compare-and-swap of the word, writes the value and the key, and publishes the slot by
-- another compare-and-swap that also increments the version; a remove makes a slot free by
-- compare-and-swap; a get takes no part in this and reads the value twice. In the other one
-- (clht_lf_only_map_rem) a remove turns the byte of its slot alone from MAP_VALID to MAP_REMOV, reads
-- the key and the value again, and makes the slot free or, where the key has changed, valid again.
--
-- The files.
--   Prelude      tests on numbers, lists, functions on thread numbers, and `Outcome`, the result of a
--                call: `done`, `fault` (a read or write through NULL or past the end of the table, or
--                an `int32_t` that overflows) or `blocked` (the call spins for ever, or the model has run out of fuel).
--   Words        bounds of the bitwise operations.
--   Slots        lists of slots: the search for a key and the count of its slots.
--   LbRes.Bucket bucket_t of include/clht_lb_res.h and the loops of src/clht_lb_res.c over a chain:
--                `bucket_create`, `bucket_exists`, the walks of `clht_get`, `clht_put`,
--                `clht_remove` and `clht_put_seq`, and the lock word (`lock_acq_chk_resize`).
--   LbRes.Table  clht_hashtable_t and the calls on one table: `hashtable_create`, `hash_of`
--                (clht_hash), `get`, `put_table` (clht_put up to its call of ht_status), `remove`,
--                `size`. LbRes.Table.Invariant has the invariant `IsValid` and the map `view` that a
--                table stands for; the other children prove what each call does to that map.
--   LbRes.Resize clht_t, `clht_create`, `put_seq`, `bucket_cpy`, `rebuild` (the copy in
--                ht_resize_pes), `resize_pes`, `status` (ht_status), `put` (clht_put), and
--                `pow2roundup` of external/include/utils.h; the children prove that a rebuild keeps
--                the map, that the counters and sizes stay in range, and that the calls end.
--   LbRes.Session a call followed by another one.
--   Lb           clht_hashtable_t and the calls of src/clht_lb.c, over LbRes.Bucket. Lb.Equivalence
--                compares them with LbRes.Table, and Lb.Refinement with the map of a table.
--   Gc           src/clht_gc.c: `Handle`, the fields of clht_t that it uses, and its calls, with
--                `published` for the end of ht_resize_pes. Gc.Blocks is about the blocks of a table,
--                Gc.Versions about the versions in use, Gc.Collect about the collection, and Gc.Destroy
--                about the end of a handle.
--   Packed.Bucket bucket_t of include/clht_lb_packed.h and the loops of src/clht_lb_packed.c over a
--                chain; its children say what they do to the list of the chain's entries.
--   Packed       clht_hashtable_t and the calls of src/clht_lb_packed.c; Packed.Invariant has `IsValid`
--                and `view`, and Packed.Refinement what each call does to them.
--   NoNext       the calls of src/clht_lb_res_no_next.c, over LbRes.Bucket and LbRes.Table. NoNext.Single
--                has the chains of one bucket, NoNext.Room, NoNext.Spread and NoNext.Rebuild the copy
--                into a larger table, NoNext.Lost the copy that finds no room, NoNext.LastEmpty and
--                NoNext.Attempt one try of a put, NoNext.Delete gets and removes, NoNext.Status the
--                growth, and NoNext.Put the whole of a put.
--   Linked       `get`, `bucket_exists`, `put_table` (clht_put up to its calls of ht_status), `remove`
--                and `size` of src/clht_lb_linked.c; of the last two there are runs only. Linked.Window has the walk over a window, Linked.Locking and
--                Linked.Loops the loops that take locks, Linked.Valid the invariant and the map that a
--                table stands for, Linked.Edit and Linked.Stores the stores, and Linked.Put the put.
--   LockIns      `put_step` (clht_put with bucket_exists), `remove_step` (clht_remove) and `get_step`
--                (clht_get) of src/clht_lb_lock_ins.c on one bin, as state machines. LockIns.Local has
--                what a call knows between its steps, LockIns.Moves what a step does to a slot,
--                LockIns.Locks and LockIns.Sizes what it does to the lock and the number of slots,
--                LockIns.Effects what that means to the other calls, LockIns.Progress to its own.
--   LockIns.Threads any number of threads on one bin; LockIns.Threads.Coherent has the invariant and
--                LockIns.Threads.Reachable what holds of every state that they reach.
--   Lf.Snapshot  clht_snapshot_t and the functions of include/clht_lf.h on it.
--   Lf.Bucket    `search_step` (clht_bucket_search), `put_step` (clht_put) and `remove_step`
--                (clht_remove) of src/clht_lf.c: a call as a state machine, whose states are its
--                places in the code with the local variables that it still needs. Lf.Bucket.Reserved
--                and Lf.Bucket.Moves have what one step does to the slots.
--   Lf.Threads   any number of threads on one bucket, `Step`: one of them makes a step of its call, or
--                starts another call. Lf.Threads.Exclusive has the invariant, and
--                Lf.Threads.Reachable and Lf.Threads.Moves what holds of every state that they reach.
--   MapRem       `search_step`, `put_step` and `remove_step` of src/clht_lf_only_map_rem.c, in the same
--                way. MapRem.Local has what a call knows between its steps, MapRem.Slots what a step
--                leaves alone, MapRem.Progress what the call knows after it, MapRem.Moves what it does
--                to the byte of a slot, and MapRem.Owners which slots a call owns.
--   MapRem.Threads any number of threads on one bucket; MapRem.Threads.Owned has the invariant and
--                MapRem.Threads.Reachable what holds of every state that they reach.
--   Tests        a session that resizes, races of calls, and the theorems at small tables.
--
-- The model of clht_lb_res. Each call runs alone, to its end: the theorems are about the sequential
-- meaning of the code, and no claim is made on calls that run at the same time. A chain is a
-- non-empty list of buckets. A pointer to a slot is the number of that slot in the order of the
-- walk. `memalign` is the parameter `Memory`: whether each request is granted, and what the words of
-- a new bucket hold, which the code leaves as they are. A theorem that needs memory says so by
-- `Supply` or `Plenty`. Counters of 32 and 64 bits wrap around as written (`% 2 ^ 32`, `% 2 ^ 64`).
-- Key and value are words; no theorem needs a bound on them, since the code only compares, masks and
-- stores them.
--
-- `ht_status` computes a ratio in floating point; the model compares the exact integers, so
-- `full_ratio < 5` is `100 * size < 5 * (n * 3)`, and `(int) (full_ratio / 40)` is `100 * size / (n
-- * 3) / 40`. The two agree as long as the products are exact in a double. `as_int` is the conversion
-- to `int inc_by_pow2`, which is negative from 2 ^ 31 on; `copy_table` is a `fault` where the
-- `int32_t` index of the copy overflows, from 2 ^ 31 buckets on. The theorems on whole calls that
-- resize keep `num_buckets` below 2 ^ 31 and the bindings below 2 ^ 30, and then neither happens. The
-- size of the request for an array, `num_buckets * sizeof(bucket_t)`, is taken not to wrap around at
-- 2 ^ 64: README.md documents a 32-bit number of buckets.
--
-- The model of clht_lb. `FAI_U64` takes a lock that is 0 and leaves it at 1; a call on a lock that
-- is not 0 spins. `block` is the answer of memalign, which a call asks at most once.
--
-- The model of clht_lb_packed. Slot j of a bucket is read as 0 past its end, which no loop of the
-- code does where the table is valid; the theorems have validity as a hypothesis. The assertion of
-- clht_remove, and the read below slot 0 that it guards, are a `fault`.
--
-- The model of clht_lb_res_no_next. Each call runs alone. A bucket is the first one of a chain, whose
-- other buckets no loop of this file reads; its copy is used for growth only, so that the `int32_t`
-- index holds where the new size is below 2 ^ 32; the theorems are about tables of which each chain is one
-- bucket, as `hashtable_create` makes them. The ratio in `ht_status` is that of exact integers, as
-- for clht_lb_res. The words and bytes of the locks are the ones of clht_lb_res.
--
-- The model of clht_lb_linked. Each call runs alone. The array is a list, a pointer to a bucket is its
-- number there, and `next` the number after it; a step past the end of the array is a `fault`. A call
-- that finds a lock taken is `blocked`. `put_table` ends where `clht_put` calls `ht_status` or returns,
-- and says which; `ht_status` itself is not modelled, and may fault on a table of fewer than
-- CLHT_RATIO_HALVE buckets, which it shrinks to none.
--
-- The model of clht_lb_lock_ins. The threads take turns in any order, and a step makes at most one
-- access to the memory that they share: this is sequential consistency. The bin is the one that the
-- hash of the key names, its buckets one list of keys and one of values, three to a bucket. No
-- resize runs beside these calls. A store through the NULL that `clht_bucket_create` returns where
-- memalign fails leaves the put at `crashed`, where it stays.
--
-- The model of clht_gc. A pointer to a table is the table, and a block of memory is named by the
-- version of its table and its place there. `free` and ssmem_release append to the lists `freed` and
-- `released`. Thread ids stand for the thread-local pointers to the version records, so they are
-- taken to be distinct. `collect` is clht_gc_collect where CLHT_DO_GC is 1; where it is 0, that call
-- returns 0.
--
-- The model of clht_lf. The threads take turns in any order, and a step makes at most one access to
-- the memory that they share: this is sequential consistency. The bucket is the one that the hash of
-- the key names. The list `map` stands for the bytes of the word; a read past its end, which no loop
-- of the code makes, gives a number that is no state. The model of clht_lf_only_map_rem is made in the
-- same way; its header declares the functions on the word again as they are in include/clht_lf.h.
--
-- Fuel. `ht_status` and `ht_resize_pes` call each other. A resize asks for another one only where
-- the copy has used up three slots of every bucket of the new table, so the table at least doubles
-- and the bindings bound how often: with fewer than 2 ^ f bindings, f + 1 nested calls are enough.
-- A put of clht_lb_res_no_next starts again only after the table has at least doubled. With keys below
-- 2 ^ w, a table of 2 ^ w buckets has one key at most in each: from 2 ^ a buckets on, a fuel of more
-- than w - a, and at least 1, is enough. The theorem takes w up to 28, so that no product wraps around.
--
-- The configuration is the one of include/clht_lb_res.h: CLHT_READ_ONLY_FAIL 1, CLHT_HELP_RESIZE 0,
-- CLHT_DO_CHECK_STATUS 0, CLHT_DO_GC 0, and no hardware transactions. Tables that a resize replaces
-- are kept in the list `retired`.
--
-- Not modelled: the interleavings of several threads on clht_lb_res, clht_lb, clht_lb_packed,
-- clht_lb_res_no_next and clht_lb_linked; the resizes and the creation of a table of
-- src/clht_lb_linked.c; `ht_resize_help`, `clht_size_mem`, `clht_size_mem_garbage` and `clht_print`
-- of src/clht_lb_res.c and src/clht_lb_res_no_next.c; `clht_create`, `clht_destroy` and
-- `clht_print` of src/clht_lb.c and src/clht_lb_packed.c; the creation, size and resize of a table
-- of src/clht_lb_lock_ins.c; the allocator ssmem; the other variant of the table,
-- src/clht_lf_res.c; the creation, size and printing of a table of src/clht_lf.c and
-- src/clht_lf_only_map_rem.c; the atomic operations themselves, and the measurements and
-- benchmarks.
pub mod Prelude
pub mod Words
pub mod Slots
pub mod LbRes
pub mod Lb
pub mod Gc
pub mod Packed
pub mod MapRem
pub mod NoNext
pub mod Linked
pub mod LockIns
pub mod Lf
mod Tests
