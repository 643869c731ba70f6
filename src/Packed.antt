-- ===== src/Packed.antt =====
-- The table of src/clht_lb_packed.c and include/clht_lb_packed.h, whose entries are packed: bucket
-- `last` counts the slots in use, which are the first ones, and a remove moves the last entry of the
-- chain into the hole. READ_ONLY_FAIL is on. Calls run alone.
pub mod Bucket
pub mod Invariant
pub mod Refinement
use clht.Prelude.{
  ℕ, zero, suc, ◌+◌, ◌-◌, ◌==◌, ltb, if◌then◌else◌, bit_and, Bool, true, false, not, Option, none,
  some, List, [], ◌∷◌, replicate, set, Outcome, done, fault, blocked, ◌>>=◌,
}
use clht.Slots.{Slot}
use clht.LbRes.Table.{Memory}
use clht.LbRes.Bucket.{Block}
use Bucket.{
  Chain, last, lock_of, with_lock, get_chain, bucket_exists, put_chain, remove_chain, size_chain,
  cleared,
}

pub record Hashtable : Type 0 where
  pub num_buckets : ℕ
  pub table : List Chain

unfoldable pub hashtable_create : Memory → ℕ → Option Hashtable
hashtable_create mem num_buckets =
    if num_buckets == 0
    then none
    else if not (mem.has_struct num_buckets)
    then none
    else if not (mem.has_table num_buckets)
    then none
    else some (record { num_buckets = num_buckets; table = replicate num_buckets (last cleared) })

unfoldable pub hash_of : Hashtable → ℕ → ℕ
hash_of ht key = bit_and key (ht.num_buckets - 1)

-- `hashtable->table + bin`, read: past the end of the array it is a fault
unfoldable pub at : List Chain → ℕ → Outcome Chain
at [] bin = fault
at (c ∷ cs) zero = done c
at (c ∷ cs) (suc bin) = at cs bin

unfoldable pub get : Hashtable → ℕ → Outcome ℕ
unfolding hash_of at
get ht key = do c ← at ht.table (hash_of ht key); done (get_chain key c)

-- LOCK_ACQ, which is TAS_U8: a call that runs alone spins on a lock that is not 0
unfoldable pub lock_acq : Chain → Outcome Chain
lock_acq c = if lock_of c == 0 then done (with_lock 0xff c) else blocked

abbrev pub write_back : Hashtable → ℕ → Chain → Hashtable
write_back ht bin c = record ht { table = set ht.table bin c }

-- `clht_put`; `block` is the answer of `memalign`, which a call asks at most once
unfoldable pub put : Block → Hashtable → ℕ → ℕ → Outcome (Bool × Hashtable)
unfolding hash_of at lock_acq
put block ht key val = do
  let bin = hash_of ht key
  c ← at ht.table bin
  if bucket_exists key c then done (false, ht) else (do
    locked ← lock_acq c
    (result, c') ← put_chain block (key, val) locked
    done (result, write_back ht bin (with_lock 0 c')))

unfoldable pub remove : Hashtable → ℕ → Outcome (ℕ × Hashtable)
unfolding hash_of at lock_acq
remove ht key = do
  let bin = hash_of ht key
  c ← at ht.table bin
  if not (bucket_exists key c) then done (0, ht) else (do
    locked ← lock_acq c
    (result, c') ← remove_chain key locked
    done (result, write_back ht bin (with_lock 0 c')))

-- the loop of `clht_size`, which faults past the end of the table
unfoldable pub size_from : ℕ → List Chain → Outcome ℕ
size_from zero cs = done 0
size_from (suc n) [] = fault
size_from (suc n) (c ∷ cs) = do rest ← size_from n cs; done (size_chain c + rest)

unfoldable pub size : Hashtable → Outcome ℕ
unfolding size_from
size ht = size_from ht.num_buckets ht.table
