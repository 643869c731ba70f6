-- ===== src/Linked.antt =====
-- The table of src/clht_lb_linked.c and include/clht_lb_linked.h, whose full buckets overflow into the
-- ones that follow them in the array: the calls on one table. Calls run alone.
pub mod Window
pub mod Locking
pub mod Loops
pub mod Valid
pub mod Edit
pub mod Stores
pub mod Put
use clht.Prelude.{
  ℕ, zero, suc, ◌+◌, ◌-◌, ◌==◌, ltb, if◌then◌else◌, Bool, true, false, not, Option, none, some,
  List, [], ◌∷◌, bit_and, set, Outcome, done, fault, blocked, ◌>>=◌,
}
use clht.Slots.{Slot}
use clht.LbRes.Table.{size_slots}
use clht.LbRes.Bucket.{lock_free, lock_update, get_slots, exists_slots, remove_slots, empty_slot}

abbrev pub max_expansions_hard : ℕ
max_expansions_hard = 16

abbrev pub max_expansions : ℕ
max_expansions = 7

-- `hops`: how many buckets after this one may hold keys of this one; `next` is the next of the array
pub record Bucket : Type 0 where
  pub lock : ℕ
  pub hops : ℕ  -- uint32_t
  pub slots : List Slot

pub record Hashtable : Type 0 where
  pub num_buckets : ℕ
  pub table : List Bucket  -- num_buckets + CLHT_LINKED_MAX_EXPANSIONS_HARD of them
  pub hash : ℕ

unfoldable pub hash_of : Hashtable → ℕ → ℕ
hash_of ht key = bit_and key ht.hash

-- a read of bucket i of the array
unfoldable pub at : List Bucket → ℕ → Outcome Bucket
at [] i = fault
at (b ∷ t) zero = done b
at (b ∷ t) (suc i) = at t i

-- a store into a field of bucket i
unfoldable pub modify : List Bucket → ℕ → (Bucket → Bucket) → List Bucket
modify [] i f = []
modify (b ∷ t) zero f = f b ∷ t
modify (b ∷ t) (suc i) f = b ∷ modify t i f

abbrev pub set_lock : ℕ → Bucket → Bucket
set_lock l b = record b { lock = l }

-- `LOCK_ACQ`: a lock that is taken is released by another thread only
unfoldable pub lock_acq : List Bucket → ℕ → Outcome (List Bucket)
unfolding at modify
lock_acq t i = do
  b ← at t i
  if b.lock == lock_free then done (modify t i (set_lock lock_update)) else blocked

-- `lock_release_n`, from bucket i on
unfoldable pub lock_release_n : ℕ → ℕ → List Bucket → List Bucket
unfolding modify
lock_release_n zero i t = t
lock_release_n (suc n) i t = lock_release_n n (suc i) (modify t i (set_lock lock_free))

-- a return in a loop where a slot has the key; else the loop goes on
abbrev return_at : Option ℕ → Outcome ℕ → Outcome ℕ
return_at none rest = rest
return_at (some val) rest = done val

-- the loop of `clht_get` over n buckets
unfoldable pub get_from : ℕ → ℕ → List Bucket → ℕ → Outcome ℕ
unfolding at get_slots
get_from zero key t i = done 0
get_from (suc n) key t i = do
  b ← at t i
  return_at (get_slots key b.slots) (get_from n key t (suc i))

unfoldable pub get : Hashtable → ℕ → Outcome ℕ
unfolding hash_of at get_from
get ht key = do
  let bin = hash_of ht key
  b ← at ht.table bin
  get_from (suc b.hops) key ht.table bin

-- the loop of `bucket_exists` over n buckets
unfoldable pub exists_from : ℕ → ℕ → List Bucket → ℕ → Outcome Bool
unfolding at exists_slots
exists_from zero key t i = done false
exists_from (suc n) key t i = do
  b ← at t i
  if exists_slots key b.slots then done true else exists_from n key t (suc i)

unfoldable pub bucket_exists : Hashtable → ℕ → Outcome Bool
unfolding hash_of at exists_from
bucket_exists ht key = do
  let bin = hash_of ht key
  b ← at ht.table bin
  exists_from (suc b.hops) key ht.table bin

-- how the first loop of `clht_put` ends: at the key, with l locks taken, or with the pointers `empty`
-- and `empty_v` to slot `empty.1` of bucket `empty.0`, or NULL
pub data Scan : Type 0 where
  present : (l : ℕ) → Scan
  vacant : (empty : Option (ℕ × ℕ)) → Scan

-- the first empty slot stays the one that is remembered
abbrev pub remember : Option (ℕ × ℕ) → ℕ → Option ℕ → Option (ℕ × ℕ)
remember (some p) i o = some p
remember none i (some j) = some (i, j)
remember none i none = none

-- the first loop of `clht_put` over n buckets, after l locks; the loop over the slots of a bucket
-- returns at the key, wherever it is, and else remembers the first empty slot
unfoldable pub scan_from :
    ℕ → ℕ → ℕ → Option (ℕ × ℕ) → List Bucket → ℕ → Outcome (Scan × List Bucket)
unfolding at lock_acq exists_slots empty_slot
scan_from zero key l empty t i = done (vacant empty, t)
scan_from (suc n) key l empty t i = do
  t' ← lock_acq t i
  b ← at t' i
  if exists_slots key b.slots
      then done (present (suc l), t')
      else scan_from n key (suc l) (remember empty i (empty_slot 0 b.slots)) t' (suc i)

-- the loop ends at an empty slot of bucket i; else it goes on
abbrev stop_at :
    List Bucket
    → ℕ
    → Option ℕ
    → Outcome (Option (ℕ × ℕ) × List Bucket)
    → Outcome (Option (ℕ × ℕ) × List Bucket)
stop_at t i none rest = rest
stop_at t i (some j) rest = done (some (i, j), t)

-- the second loop, in `left` buckets at most
unfoldable pub free_from : ℕ → List Bucket → ℕ → Outcome (Option (ℕ × ℕ) × List Bucket)
unfolding at lock_acq empty_slot
free_from zero t i = done (none, t)
free_from (suc left) t i = do
  t' ← lock_acq t i
  b ← at t' i
  stop_at t' i (empty_slot 0 b.slots) (free_from left t' (suc i))

-- `*empty_v = val; *empty = key`
abbrev pub store : List Bucket → ℕ × ℕ → Slot → List Bucket
store t p s = modify t p.0 (λ b. record b { slots = set b.slots p.1 s })

-- the stores into the slots of bucket i
abbrev pub set_slots : List Bucket → ℕ → List Slot → List Bucket
set_slots t i xs = modify t i (λ b. record b { slots = xs })

-- `bucket_first->hops = n`
abbrev pub set_hops : List Bucket → ℕ → ℕ → List Bucket
set_hops t i n = modify t i (λ b. record b { hops = n })

-- `clht_put` up to its calls of `ht_status`: the key was there; it is stored, and `resize` says whether
-- the call follows, for a window beyond CLHT_LINKED_MAX_EXPANSIONS; or no slot is free up to
-- CLHT_LINKED_MAX_EXPANSIONS_HARD, which calls it too, and starts again
pub data Answer : Type 0 where
  already : Answer
  stored : (resize : Bool) → Answer
  full : Answer

-- the end of the second loop; `tot_hops` is the distance to the bucket of the slot
unfoldable pub overflowed : ℕ → ℕ → Slot → Option (ℕ × ℕ) → List Bucket → Answer × List Bucket
unfolding lock_release_n modify
overflowed bin hops s none t =
    (full, lock_release_n (suc hops + (max_expansions_hard - hops)) bin t)
overflowed bin hops s (some p) t =
    let tot_hops = p.0 - bin in
    (
      stored (ltb max_expansions tot_hops),
      lock_release_n (suc tot_hops) bin (store (set_hops t bin tot_hops) p s),
    )

-- what follows the first loop
unfoldable pub scanned : ℕ → ℕ → Slot → Scan → List Bucket → Outcome (Answer × List Bucket)
unfolding free_from overflowed lock_release_n modify
scanned bin hops s (present l) t = done (already, lock_release_n l bin t)
scanned bin hops s (vacant (some p)) t =
    done (stored (ltb max_expansions hops), lock_release_n (suc hops) bin (store t p s))
scanned bin hops s (vacant none) t = do
  (o, t') ← free_from (max_expansions_hard - hops) t (bin + suc hops)
  done (overflowed bin hops s o t')

unfoldable pub put_table : Hashtable → ℕ → ℕ → Outcome (Answer × Hashtable)
unfolding hash_of at bucket_exists scan_from scanned
put_table ht key val = do
  let bin = hash_of ht key
  there ← bucket_exists ht key
  if there then done (already, ht) else (do
    b ← at ht.table bin
    (s, t) ← scan_from (suc b.hops) key 0 none ht.table bin
    (answer, t') ← scanned bin b.hops (key, val) s t
    done (answer, record ht { table = t' }))

-- a return in that loop where a slot has had the key; else it goes on
abbrev return_removed :
    List Bucket
    → ℕ
    → ℕ
    → Option (ℕ × List Slot)
    → Outcome (ℕ × ℕ × List Bucket)
    → Outcome (ℕ × ℕ × List Bucket)
return_removed t i l none rest = rest
return_removed t i l (some (val, xs)) rest = done (val, l, set_slots t i xs)

-- the loop of `clht_remove` over n buckets, after l locks: the value that is returned, 0 where the key is
-- not found, and how many locks are taken then
unfoldable pub remove_from : ℕ → ℕ → ℕ → List Bucket → ℕ → Outcome (ℕ × ℕ × List Bucket)
unfolding at modify lock_acq remove_slots
remove_from zero key l t i = done (0, l, t)
remove_from (suc n) key l t i = do
  t' ← lock_acq t i
  b ← at t' i
  return_removed t' i (suc l) (remove_slots key b.slots) (remove_from n key (suc l) t' (suc i))

-- `clht_remove`; `false` is 0
unfoldable pub remove : Hashtable → ℕ → Outcome (ℕ × Hashtable)
unfolding hash_of at bucket_exists remove_from lock_release_n
remove ht key = do
  let bin = hash_of ht key
  there ← bucket_exists ht key
  if not there then done (0, ht) else (do
    b ← at ht.table bin
    (val, l, t) ← remove_from (suc b.hops) key 0 ht.table bin
    done (val, record ht { table = lock_release_n l bin t }))

-- the loop of `clht_size` over n buckets
unfoldable pub size_from : ℕ → List Bucket → Outcome ℕ
unfolding size_slots
size_from zero t = done 0
size_from (suc n) [] = fault
size_from (suc n) (b ∷ t) = do rest ← size_from n t; done (size_slots b.slots + rest)

unfoldable pub size : Hashtable → Outcome ℕ
unfolding size_from
size ht = size_from (ht.num_buckets + max_expansions_hard) ht.table
