-- ===== src/NoNext.antt =====
-- The table of src/clht_lb_res_no_next.c, over the structs of include/clht_lb_res.h: a bucket links to
-- no other one, and a put that finds its bucket full asks for a resize and starts again. The table is
-- created as in `LbRes.Table`. Calls run alone.
pub mod Single
pub mod Room
pub mod Spread
pub mod Rebuild
pub mod LastEmpty
pub mod Attempt
pub mod Delete
pub mod Lost
pub mod Status
pub mod Put
use clht.Prelude.{
  ℕ, zero, suc, ◌+◌, ◌*◌, ◌/◌, ◌%◌, ◌^◌, ◌==◌, if◌then◌else◌, Bool, true, false, not, Option, none,
  some, List, [], ◌∷◌, set, Outcome, done, fault, blocked, ◌>>=◌,
}
use clht.Slots.{Slot}
use clht.LbRes.Bucket.{
  entries_per_bucket, lock_free, lock_update, lock_resize, Bucket, Chain, last, link, lock_of,
  with_lock, lock_acq_chk_resize, get_slots, exists_slots, Scan, present, vacant, remove_slots,
  empty_slot,
}
use clht.LbRes.Table.{
  Hashtable, Memory, hashtable_create, hash_of, at, write_back, lock_rls, size_slots,
}
use clht.LbRes.Resize.{Clht, new_size, swapped, pow2roundup, as_int}

-- the slots of the bucket itself: no loop of this file follows `next`
abbrev pub own : Chain → List Slot
own (last b) = b.slots
own (link b c) = b.slots

abbrev pub with_own : Chain → List Slot → Chain
with_own (last b) xs = last (record b { slots = xs })
with_own (link b c) xs = link (record b { slots = xs }) c

unfoldable pub get : Hashtable → ℕ → Outcome ℕ
unfolding hash_of at get_slots
get ht key = do
  c ← at ht.table (hash_of ht key)
  done (elim (get_slots key (own c)) [ some val ↦ val | none ↦ 0 ])

-- the loop of `clht_put`, from slot j on: `empty` is the last empty slot, or -1
unfoldable pub scan_last : ℕ → ℕ → Option ℕ → List Slot → Scan
scan_last key j empty [] = vacant empty
scan_last key j empty (s ∷ xs) =
    if s.0 == key then present else scan_last key (suc j) (if s.0 == 0 then some j else empty) xs

-- after the loop, the lock being held: what is returned, or `none` where the bucket is full
unfoldable pub put_found : Hashtable → ℕ → Chain → Slot → Scan → Option Bool × Hashtable
put_found ht bin c s present = (some false, write_back ht bin (lock_rls c))
put_found ht bin c s (vacant (some j)) =
    (some true, write_back ht bin (lock_rls (with_own c (set (own c) j s))))
put_found ht bin c s (vacant none) = (none, write_back ht bin (lock_rls c))

-- `clht_put` from `again` on, up to `ht_status`
unfoldable pub put_once : Hashtable → ℕ → ℕ → Outcome (Option Bool × Hashtable)
unfolding hash_of at lock_acq_chk_resize put_found
put_once ht key val = do
  let bin = hash_of ht key
  c ← at ht.table bin
  if exists_slots key (own c) then done (some false, ht) else (do
    locked ← lock_acq_chk_resize c
    done (put_found ht bin locked (key, val) (scan_last key 0 none (own locked))))

-- the end of `clht_remove`, the lock being held; `false` is 0
unfoldable pub remove_found : Hashtable → ℕ → Chain → Option (ℕ × List Slot) → ℕ × Hashtable
remove_found ht bin c none = (0, write_back ht bin (lock_rls c))
remove_found ht bin c (some r) = (r.0, write_back ht bin (lock_rls (with_own c r.1)))

unfoldable pub remove : Hashtable → ℕ → Outcome (ℕ × Hashtable)
unfolding hash_of at lock_acq_chk_resize remove_found
remove ht key = do
  let bin = hash_of ht key
  c ← at ht.table bin
  if not (exists_slots key (own c)) then done (0, ht) else (do
    locked ← lock_acq_chk_resize c
    done (remove_found ht bin locked (remove_slots key (own locked))))

-- `clht_put_seq`: where the bucket is full, it prints a message, and the key is dropped; it returns true
-- either way
unfoldable pub put_seq : Hashtable → ℕ → ℕ → ℕ → Outcome (Bool × Hashtable)
unfolding at
put_seq ht key val bin = do
  c ← at ht.table bin
  done (elim (empty_slot 0 (own c)) [
    | some j ↦ (true, write_back ht bin (with_own c (set (own c) j (key, val))))
    | none ↦ (true, ht)
  ])

-- the loop of `bucket_cpy`
unfoldable pub copy_slots : List Slot → Hashtable → Outcome Hashtable
unfolding put_seq hash_of
copy_slots [] new = done new
copy_slots (s ∷ xs) new = do
  (_, new') ← if s.0 == 0 then done (true, new) else put_seq new s.0 s.1 (hash_of new s.0)
  copy_slots xs new'

unfoldable pub bucket_cpy : Chain → Hashtable → Outcome (Chain × Hashtable)
unfolding lock_of with_lock copy_slots
bucket_cpy c new =
    if lock_of c == lock_free
    then (do new' ← copy_slots (own c) new; done (with_lock lock_resize c, new'))
    else if lock_of c == lock_update
    then blocked
    else done (c, new)

-- the loop of `ht_resize_pes` over the first n buckets; the `int32_t` index of the code holds every
-- number of buckets from which a growth by 2 or more leads to fewer than 2 ^ 32
unfoldable pub copy_bins : ℕ → List Chain → Hashtable → Outcome (List Chain × Hashtable)
unfolding bucket_cpy
copy_bins zero cs new = done (cs, new)
copy_bins (suc n) [] new = fault
copy_bins (suc n) (c ∷ cs) new = do
  (c', new') ← bucket_cpy c new
  (cs', new'') ← copy_bins n cs new'
  done (c' ∷ cs', new'')

unfoldable pub fill : Hashtable → Option Hashtable → Outcome (Hashtable × Hashtable)
unfolding copy_bins
fill old none = fault
fill old (some new) = do
  (table, new') ←
      copy_bins old.num_buckets old.table (record new { version = (old.version + 1) % 2 ^ 64 })
  done (record old { table = table }, new')

unfoldable pub rebuild : Memory → Hashtable → ℕ → Outcome (Hashtable × Hashtable)
unfolding fill
rebuild mem old n = fill old (hashtable_create mem n)

-- `ht_resize_pes`; the old table is given to `clht_gc_release`
unfoldable pub resize_pes : Memory → Clht → Bool → ℕ → Outcome (Bool × Clht)
unfolding rebuild
resize_pes mem h is_increase by =
    if not (h.resize_lock == lock_free)
    then done (false, h)
    else (do r ← rebuild mem h.ht (new_size h.ht is_increase by); done (true, swapped h r))

-- the loop of `clht_size` and of `ht_status`
unfoldable pub size_from : ℕ → List Chain → Outcome ℕ
size_from zero cs = done 0
size_from (suc n) [] = fault
size_from (suc n) (c ∷ cs) = do rest ← size_from n cs; done (size_slots (own c) + rest)

unfoldable pub size : Hashtable → Outcome ℕ
unfolding size_from
size ht = size_from ht.num_buckets ht.table

-- `inc_by_pow2`, never 1; the ratio is computed on integers, as in `LbRes.Resize`
unfoldable pub increase : ℕ → ℕ → ℕ
unfolding pow2roundup
increase n size =
    let by = as_int (pow2roundup (100 * size / (n * entries_per_bucket) / 20)) in
    if by == 1 then 2 else by

-- `ht_status`, which always grows the table; `resize_increase` is not read
unfoldable pub status : Memory → Clht → (just_print : Bool) → Outcome (Bool × Clht)
unfolding size increase resize_pes
status mem h just_print = if not (h.status_lock == lock_free) then done (false, h) else (do
  n ← size h.ht
  (resized, h') ←
      if just_print
      then done (false, record h { status_lock = 0xff })
      else resize_pes mem (record h { status_lock = 0xff }) true (increase h.ht.num_buckets n)
  done (resized, record h' { status_lock = lock_free }))

-- `clht_put`; the fuel bounds how often it starts again
unfoldable pub put : ℕ → Memory → Clht → ℕ → ℕ → Outcome (Bool × Clht)
unfolding put_once status
put zero mem h key val = blocked
put (suc fuel) mem h key val = do
  (result, ht) ← put_once h.ht key val
  let h' = record h { ht = ht }
  elim result [
    | some r ↦ done (r, h')
    | none ↦ (do (_, h'') ← status mem h' false; put fuel mem h'' key val)
  ]
