-- ===== src/LbRes/Table.antt =====
-- `clht_hashtable_t` of include/clht_lb_res.h and the operations of src/clht_lb_res.c on one table:
-- each call runs alone. The table's links to other versions are modelled with `clht_t`;
-- `is_helper` and `helper_done` serve CLHT_HELP_RESIZE, which the header switches off.
pub mod Counting
pub mod Invariant
pub mod Writes
pub mod Rebinding
pub mod Insert
pub mod Delete
pub mod Create
pub mod Size
pub mod Faults
use clht.Prelude.{
  ℕ, zero, suc, ◌+◌, ◌-◌, ◌*◌, ◌%◌, ◌^◌, ◌==◌, ltb, if◌then◌else◌, bit_and, Bool, true, false, not,
  Option, none, some, List, [], ◌∷◌, replicate, set, Outcome, done, fault, ◌>>=◌,
}
use clht.Slots.{Slot}
use clht.LbRes.Bucket.{
  entries_per_bucket, lock_free, Bucket, Chain, last, link, Block, bucket_create, with_lock,
  lock_acq_chk_resize, get_chain, bucket_exists, Scan, present, vacant, scan_chain, store,
  append_bucket, fill_first, remove_chain,
}

pub record Hashtable : Type 0 where
  pub num_buckets : ℕ
  pub table : List Chain
  pub hash : ℕ
  pub version : ℕ
  pub num_expands : ℕ  -- uint32_t
  pub num_expands_threshold : ℕ  -- uint32_t

-- The C library's `memalign`: its answers to the requests of the code. The request for an overflow
-- bucket is named by the expansions that the table has had, the other two by the table's size.
pub record Memory : Type 0 where
  pub bucket : ℕ → Block
  pub has_struct : ℕ → Bool
  pub has_table : ℕ → Bool

abbrev pub perc_expansions : ℕ
perc_expansions = 1

-- a bucket as `memset` and the loop of `clht_hashtable_create` leave it
abbrev pub cleared : Chain
cleared = last (record { lock = lock_free; slots = replicate entries_per_bucket (0, 0) })

threshold : ℕ → ℕ
threshold num_buckets = let t = perc_expansions * num_buckets % 2 ^ 32 in if t == 0 then 1 else t

abbrev pub new_table : ℕ → Hashtable
unfolding threshold
new_table num_buckets = record {
  num_buckets = num_buckets;
  table = replicate num_buckets cleared;
  hash = num_buckets - 1;
  version = 0;
  num_expands = 0;
  num_expands_threshold = threshold num_buckets;
}

-- `num_buckets * sizeof(bucket_t)`, the size of the request, is taken not to wrap around: README.md
-- documents a 32-bit number of buckets
unfoldable pub hashtable_create : Memory → ℕ → Option Hashtable
unfolding threshold
hashtable_create mem num_buckets =
    if num_buckets == 0
    then none
    else if not (mem.has_struct num_buckets)
    then none
    else if not (mem.has_table num_buckets)
    then none
    else some (new_table num_buckets)

unfoldable pub hash_of : Hashtable → ℕ → ℕ
hash_of ht key = bit_and key ht.hash

-- `hashtable->table + bin`, read: past the end of the array it is a fault
unfoldable pub at : List Chain → ℕ → Outcome Chain
at [] bin = fault
at (c ∷ cs) zero = done c
at (c ∷ cs) (suc bin) = at cs bin

unfoldable pub get : Hashtable → ℕ → Outcome ℕ
unfolding hash_of at
get ht key = do c ← at ht.table (hash_of ht key); done (get_chain key c)

-- the bucket, the counter and `*resize` as `clht_bucket_create_stats` leaves them
unfoldable pub bucket_create_stats : Memory → Hashtable → Option Bucket × Hashtable × Bool
bucket_create_stats mem ht =
    let n = (ht.num_expands + 1) % 2 ^ 32 in
    (
      bucket_create (mem.bucket ht.num_expands),
      record ht { num_expands = n },
      n == ht.num_expands_threshold,
    )

-- what `clht_put` returns, what it leaves, and its local `resize`
pub record Put : Type 0 where
  pub result : Bool
  pub resize : Bool
  pub ht : Hashtable

abbrev pub write_back : Hashtable → ℕ → Chain → Hashtable
write_back ht bin c = record ht { table = set ht.table bin c }

-- `*lock = 0`
abbrev pub lock_rls : Chain → Chain
lock_rls c = with_lock lock_free c

-- the branch of `clht_put` for a full chain; a store through a NULL bucket is a fault
expand : ℕ → Chain → Slot → Option Bucket × Hashtable × Bool → Outcome Put
expand bin c s (none, ht, resize) = fault
expand bin c s (some new, ht, resize) = done (record {
  result = true;
  resize = resize;
  ht = write_back ht bin (lock_rls (append_bucket c (fill_first new s)));
})

-- `clht_put` once the walk has ended, the lock being held
unfoldable pub put_found : Memory → Hashtable → ℕ → Chain → Slot → Scan → Outcome Put
unfolding expand bucket_create_stats
put_found mem ht bin c s present =
    done (record { result = false; resize = false; ht = write_back ht bin (lock_rls c) })
put_found mem ht bin c s (vacant (some p)) =
    done (record { result = true; resize = false; ht = write_back ht bin (lock_rls (store c p s)) })
put_found mem ht bin c s (vacant none) = expand bin c s (bucket_create_stats mem ht)

-- `clht_put` up to the call of `ht_status`
unfoldable pub put_table : Memory → Hashtable → ℕ → ℕ → Outcome Put
unfolding hash_of at put_found
put_table mem ht key val = do
  let bin = hash_of ht key
  c ← at ht.table bin
  if bucket_exists key c then done (record { result = false; resize = false; ht = ht }) else (do
    locked ← lock_acq_chk_resize c
    put_found mem ht bin locked (key, val) (scan_chain key 0 none locked))

-- `clht_remove` once the walk has ended, the lock being held; `false` is 0
unfoldable pub remove_found : Hashtable → ℕ → Chain → Option (ℕ × Chain) → ℕ × Hashtable
remove_found ht bin c none = (0, write_back ht bin (lock_rls c))
remove_found ht bin c (some r) = (r.0, write_back ht bin (lock_rls r.1))

unfoldable pub remove : Hashtable → ℕ → Outcome (ℕ × Hashtable)
unfolding hash_of at remove_found
remove ht key = do
  let bin = hash_of ht key
  c ← at ht.table bin
  if not (bucket_exists key c) then done (0, ht) else (do
    locked ← lock_acq_chk_resize c
    done (remove_found ht bin locked (remove_chain key locked)))

-- the count of one chain in `clht_size`
unfoldable pub size_slots : List Slot → ℕ
size_slots [] = 0
size_slots (s ∷ xs) = (if ltb 0 s.0 then 1 else 0) + size_slots xs

unfoldable pub size_chain : Chain → ℕ
unfolding size_slots
size_chain (last b) = size_slots b.slots
size_chain (link b c) = size_slots b.slots + size_chain c

-- the loop of `clht_size` over the table
unfoldable pub size_bins : List Chain → ℕ
size_bins [] = 0
size_bins (c ∷ cs) = size_chain c + size_bins cs

-- the loop runs over `num_buckets` chains, and faults past the end of the table
unfoldable pub size_from : ℕ → List Chain → Outcome ℕ
size_from zero cs = done 0
size_from (suc n) [] = fault
size_from (suc n) (c ∷ cs) = do rest ← size_from n cs; done (size_chain c + rest)

unfoldable pub size : Hashtable → Outcome ℕ
unfolding size_from
size ht = size_from ht.num_buckets ht.table
