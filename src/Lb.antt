-- ===== src/Lb.antt =====
-- The table of src/clht_lb.c, which does not resize; include/clht_lb.h switches READ_ONLY_FAIL on.
-- Its buckets, and its loops over a chain, are those of src/clht_lb_res.c word for word: they are
-- taken from `LbRes.Bucket`. The lock is a counter that FAI_U64 increments.
pub mod Equivalence
pub mod Refinement
use clht.Prelude.{
  ℕ, zero, suc, ◌+◌, ◌-◌, ◌==◌, if◌then◌else◌, bit_and, Bool, true, false, not, Option, none, some,
  List, [], ◌∷◌, replicate, set, Outcome, done, fault, blocked, ◌>>=◌,
}
use clht.Slots.{Slot}
use clht.LbRes.Bucket.{
  Bucket, Chain, last, link, Block, bucket_create, lock_of, with_lock, get_chain, bucket_exists,
  Scan, present, vacant, scan_chain, store, append_bucket, fill_first, remove_chain,
}
use clht.LbRes.Table.{Memory, at, cleared, size_from}

pub record Hashtable : Type 0 where
  pub num_buckets : ℕ
  pub table : List Chain

abbrev pub empty_table : ℕ → Hashtable
empty_table num_buckets = record {
  num_buckets = num_buckets;
  table = replicate num_buckets cleared;
}

-- `num_buckets * sizeof(bucket_t)`, the size of the request, is taken not to wrap around: README.md
-- documents a 32-bit number of buckets
unfoldable pub hashtable_create : Memory → ℕ → Option Hashtable
hashtable_create mem num_buckets =
    if num_buckets == 0
    then none
    else if not (mem.has_struct num_buckets)
    then none
    else if not (mem.has_table num_buckets)
    then none
    else some (empty_table num_buckets)

unfoldable pub hash_of : Hashtable → ℕ → ℕ
hash_of ht key = bit_and key (ht.num_buckets - 1)

unfoldable pub get : Hashtable → ℕ → Outcome ℕ
unfolding hash_of
get ht key = do c ← at ht.table (hash_of ht key); done (get_chain key c)

-- LOCK_ACQ for a call that runs alone: it spins on a counter that is not 0
unfoldable pub lock_acq : Chain → Outcome Chain
lock_acq c = if lock_of c == 0 then done (with_lock 1 c) else blocked

-- LOCK_RLS
abbrev pub lock_rls : Chain → Chain
lock_rls c = with_lock 0 c

abbrev pub write_back : Hashtable → ℕ → Chain → Hashtable
write_back ht bin c = record ht { table = set ht.table bin c }

-- `bucket->next = clht_bucket_create()`, and the stores through it
unfoldable pub expand : Chain → Slot → Option Bucket → Outcome Chain
expand c s none = fault
expand c s (some new) = done (append_bucket c (fill_first new s))

-- the chain that the walk of `clht_put` leaves, the lock being held, and what the call returns
unfoldable pub put_found : Block → Chain → Slot → Scan → Outcome (Bool × Chain)
unfolding expand
put_found block c s present = done (false, c)
put_found block c s (vacant (some p)) = done (true, store c p s)
put_found block c s (vacant none) = do c' ← expand c s (bucket_create block); done (true, c')

-- `clht_put`; `block` is the answer of `memalign`, which a call asks at most once
unfoldable pub put : Block → Hashtable → ℕ → ℕ → Outcome (Bool × Hashtable)
unfolding hash_of lock_acq put_found
put block ht key val = do
  let bin = hash_of ht key
  c ← at ht.table bin
  if bucket_exists key c then done (false, ht) else (do
    locked ← lock_acq c
    (result, c') ← put_found block locked (key, val) (scan_chain key 0 none locked)
    done (result, write_back ht bin (lock_rls c')))

-- the end of the loop of `clht_remove`; `false` is 0
unfoldable pub remove_found : Hashtable → ℕ → Chain → Option (ℕ × Chain) → ℕ × Hashtable
remove_found ht bin c none = (0, write_back ht bin (lock_rls c))
remove_found ht bin c (some r) = (r.0, write_back ht bin (lock_rls r.1))

unfoldable pub remove : Hashtable → ℕ → Outcome (ℕ × Hashtable)
unfolding hash_of lock_acq remove_found
remove ht key = do
  let bin = hash_of ht key
  c ← at ht.table bin
  if not (bucket_exists key c)
      then done (0, ht)
      else (do locked ← lock_acq c; done (remove_found ht bin locked (remove_chain key locked)))

-- `clht_size`, whose loop is that of src/clht_lb_res.c
unfoldable pub size : Hashtable → Outcome ℕ
size ht = size_from ht.num_buckets ht.table

-- `clht_put_seq`: no lock, but a search for the key; nothing calls it but `bucket_cpy`
unfoldable pub put_seq : Block → Hashtable → ℕ → ℕ → ℕ → Outcome (Bool × Hashtable)
unfolding put_found
put_seq block ht key val bin = do
  c ← at ht.table bin
  (result, c') ← put_found block c (key, val) (scan_chain key 0 none c)
  done (result, if result then write_back ht bin c' else ht)

-- the inner loop of `bucket_cpy`: the value that it passes on is read from `key[j]`
unfoldable pub copy_slots : (ℕ → Block) → List Slot → Hashtable → Outcome Hashtable
unfolding put_seq hash_of
copy_slots blocks [] new = done new
copy_slots blocks (s ∷ xs) new = do
  new' ←
      if s.0 == 0
      then done new
      else (do r ← put_seq (blocks s.0) new s.0 s.0 (hash_of new s.0); done r.1)
  copy_slots blocks xs new'

unfoldable pub copy_chain : (ℕ → Block) → Chain → Hashtable → Outcome Hashtable
unfolding copy_slots
copy_chain blocks (last b) new = copy_slots blocks b.slots new
copy_chain blocks (link b c) new = do new' ← copy_slots blocks b.slots new; copy_chain blocks c new'

-- `bucket_cpy`, which nothing calls; the bucket stays locked
unfoldable pub bucket_cpy : (ℕ → Block) → Chain → Hashtable → Outcome (Chain × Hashtable)
unfolding lock_acq copy_chain
bucket_cpy blocks c new = do
  locked ← lock_acq c
  new' ← copy_chain blocks c new
  done (locked, new')
