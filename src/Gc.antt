-- ===== src/Gc.antt =====
-- Versions of a table and their memory: src/clht_gc.c, over the tables of `LbRes.Table`. The calls
-- run alone. A pointer to a table is the table: no call of this file changes one but for
-- `table_prev`, which nothing in it reads.
pub mod Blocks
pub mod Versions
pub mod Collect
pub mod Destroy
use clht.Prelude.{
  ℕ, zero, suc, ◌+◌, ◌-◌, ◌^◌, ◌==◌, ltb, leb, if◌then◌else◌, Bool, true, false, List, [], ◌∷◌,
  ◌++◌, Outcome, done, fault, ◌>>=◌,
}
use clht.LbRes.Bucket.{Chain, last, link, lock_free}
use clht.LbRes.Table.{Hashtable}

-- `ht_ts_t`: the version that a thread uses
pub record Ts : Type 0 where
  pub version : ℕ
  pub id : ℕ

-- A block of memory, named by the version of its table: the overflow bucket that is `index` links
-- behind bucket `bin`, the array of buckets, the table's struct; or the handle, or the allocator.
pub data Block : Type 0 where
  overflow : (version bin index : ℕ) → Block
  buckets : (version : ℕ) → Block
  struct : (version : ℕ) → Block
  handle : Block
  allocator : Block

-- The fields of `clht_t` that these calls use. `chain` has the tables from `ht_oldest` on, each
-- followed by its `table_new`; `freed` and `released` are the blocks given to `free` and to
-- `ssmem_release`, the newest last.
pub record Handle : Type 0 where
  pub ht : Hashtable
  pub chain : List Hashtable
  pub version_list : List Ts
  pub version_min : ℕ
  pub gc_lock : ℕ
  pub freed : List Block
  pub released : List Block

-- what `clht_create` leaves of a handle on a new table
abbrev pub new_handle : Hashtable → Handle
new_handle ht = record {
  ht = ht;
  chain = ht ∷ [];
  version_list = [];
  version_min = 0;
  gc_lock = lock_free;
  freed = [];
  released = [];
}

-- the end of `ht_resize_pes`: the new table is the handle's, and the old one's `table_new`
abbrev pub published : Handle → Hashtable → Handle
published h new = record h { ht = new; chain = h.chain ++ new ∷ [] }

-- `clht_gc_thread_init`: the new thread is put in front of the list
unfoldable pub thread_init : Handle → ℕ → Handle
thread_init h id = record h {
  version_list = record { version = h.ht.version; id = id } ∷ h.version_list;
}

-- a store to the `version` of the thread `id`
set_version : List Ts → ℕ → ℕ → List Ts
set_version [] id v = []
set_version (t ∷ ts) id v =
    (if t.id == id then record t { version = v } else t) ∷ set_version ts id v

-- `clht_gc_thread_version`, called by the thread `id`
unfoldable pub thread_version : Handle → ℕ → Hashtable → Handle
unfolding set_version
thread_version h id ht = record h { version_list = set_version h.version_list id ht.version }

-- `clht_gc_thread_version_max`
unfoldable pub thread_version_max : Handle → ℕ → Handle
unfolding set_version
thread_version_max h id = record h { version_list = set_version h.version_list id (2 ^ 64 - 1) }

-- the loop of `clht_gc_min_version_used`
unfoldable pub min_version : ℕ → List Ts → ℕ
min_version min [] = min
min_version min (cur ∷ ts) = min_version (if ltb cur.version min then cur.version else min) ts

unfoldable pub min_version_used : Handle → ℕ
unfolding min_version
min_version_used h = min_version h.ht.version h.version_list

-- the loop of `clht_gc_free` over the buckets that `next` links
unfoldable pub free_links : ℕ → ℕ → ℕ → Chain → List Block
free_links v bin i (last b) = []
free_links v bin i (link b c) = overflow v bin i ∷ free_links v bin (suc i) c

-- the loop over the table, from `bin` on
unfoldable pub free_bins : ℕ → ℕ → ℕ → List Chain → Outcome (List Block)
unfolding free_links
free_bins v bin zero cs = done []
free_bins v bin (suc n) [] = fault
free_bins v bin (suc n) (c ∷ cs) = do
  rest ← free_bins v (suc bin) n cs
  done (free_links v bin 0 c ++ rest)

-- the blocks that `clht_gc_free` gives to `free`, and `clht_gc_release` to `ssmem_release`
unfoldable pub blocks_of : Hashtable → Outcome (List Block)
unfolding free_bins
blocks_of ht = do
  bs ← free_bins ht.version 0 ht.num_buckets ht.table
  done (bs ++ buckets ht.version ∷ struct ht.version ∷ [])

-- `clht_gc_free`
unfoldable pub gc_free : Handle → Hashtable → Outcome Handle
unfolding blocks_of
gc_free h ht = do bs ← blocks_of ht; done (record h { freed = h.freed ++ bs })

-- `clht_gc_release`
unfoldable pub release : Handle → Hashtable → Outcome Handle
unfolding blocks_of
release h ht = do bs ← blocks_of ht; done (record h { released = h.released ++ bs })

-- what the loop of `clht_gc_collect_cond` leaves: how many tables it has freed, their blocks, and
-- the tables from `cur` on
pub record Collected : Type 0 where
  pub num : ℕ
  pub blocks : List Block
  pub rest : List Hashtable

-- The loop of `clht_gc_collect_cond`. A table that is freed with no other after it is a fault:
-- `nxt->table_prev` is a store through NULL.
unfoldable pub collect_loop : ℕ → List Hashtable → Outcome Collected
unfolding blocks_of
collect_loop version_min [] = done (record { num = 0; blocks = []; rest = [] })
collect_loop version_min (cur ∷ []) =
    if ltb cur.version version_min
    then fault
    else done (record { num = 0; blocks = []; rest = cur ∷ [] })
collect_loop version_min (cur ∷ nxt ∷ ts) =
    let more = collect_loop version_min (nxt ∷ ts) in
    if ltb cur.version version_min
    then (do
      bs ← blocks_of cur
      r ← more
      done (record r { num = suc r.num; blocks = bs ++ r.blocks }))
    else done (record { num = 0; blocks = []; rest = cur ∷ nxt ∷ ts })

-- after the loop: `cur` is not tested for NULL
unfoldable pub collected : Handle → Collected → List Hashtable → Outcome (ℕ × Handle)
collected h r [] = fault
collected h r (cur ∷ ts) = done (
  r.num,
  record h {
    version_min = cur.version;
    chain = cur ∷ ts;
    gc_lock = lock_free;
    freed = h.freed ++ r.blocks;
  },
)

-- `clht_gc_collect_cond` once it holds `gc_lock`
unfoldable pub collect_below : Handle → ℕ → Outcome (ℕ × Handle)
unfolding collect_loop collected
collect_below h version_min =
    if leb version_min h.version_min
    then done (0, record h { gc_lock = lock_free })
    else (do r ← collect_loop version_min h.chain; collected h r r.rest)

unfoldable pub collect_cond : Handle → Bool → Outcome (ℕ × Handle)
unfolding min_version_used collect_below
collect_cond h not_referenced_only =
    if leb h.ht.version h.version_min
    then done (0, h)
    else if h.gc_lock == lock_free
    then collect_below (record h { gc_lock = 0xff })
        (if not_referenced_only then min_version_used h else h.ht.version)
    else done (0, h)

-- `clht_gc_collect` of the thread `id` where CLHT_DO_GC is 1
unfoldable pub collect : Handle → ℕ → Outcome (ℕ × Handle)
unfolding thread_version collect_cond
collect h id = collect_cond (thread_version h id h.ht) true

-- `clht_gc_collect_all`
unfoldable pub collect_all : Handle → Outcome (ℕ × Handle)
unfolding collect_cond
collect_all h = collect_cond h false

-- `clht_gc_destroy`
unfoldable pub destroy : Handle → Outcome Handle
unfolding collect_all gc_free
destroy h = do
  (_, h') ← collect_all h
  h'' ← gc_free h' h'.ht
  done (record h'' { freed = h''.freed ++ handle ∷ allocator ∷ [] })
