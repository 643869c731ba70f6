-- ===== src/LbRes/Resize.antt =====
-- `clht_t`, and the functions of src/clht_lb_res.c that copy a table into another one and decide
-- when to. Sizes are 64-bit words; an `int` is kept as the word that it is extended to.
pub mod Copy
pub mod Rebuild
pub mod Expands
pub mod Tally
pub mod Sizes
pub mod Status
pub mod Insert
pub mod Seven
pub mod Start
use clht.Prelude.{
  ℕ, zero, suc, ◌+◌, ◌*◌, ◌/◌, ◌%◌, ◌^◌, ◌-◌, ◌==◌, ltb, leb, if◌then◌else◌, bit_or, max, Bool,
  true, false, not, ◌&&◌, ◌||◌, Option, none, some, List, [], ◌∷◌, ◌++◌, set, Outcome, done, fault,
  blocked, ◌>>=◌,
}
use clht.Slots.{Slot}
use clht.LbRes.Bucket.{
  entries_per_bucket, lock_free, lock_update, lock_resize, Bucket, Chain, last, link, lock_of,
  with_lock, empty_in_chain, store, append_bucket, fill_first, hops,
}
use clht.LbRes.Table.{
  Hashtable, Memory, Put, hash_of, at, write_back, bucket_create_stats, hashtable_create, put_table,
  remove, size,
}

seq_expand : ℕ → Chain → Slot → Option Bucket × Hashtable × Bool → Outcome Hashtable
seq_expand bin c s (none, ht, resize) = fault
seq_expand bin c s (some new, ht, resize) =
    done (write_back ht bin (append_bucket c (fill_first new s)))

unfoldable pub seq_found : Memory → Hashtable → ℕ → Chain → Slot → Option ℕ → Outcome Hashtable
unfolding seq_expand bucket_create_stats
seq_found mem ht bin c s (some p) = done (write_back ht bin (store c p s))
seq_found mem ht bin c s none = seq_expand bin c s (bucket_create_stats mem ht)

-- `clht_put_seq`: no lock, no search for the key
unfoldable pub put_seq : Memory → Hashtable → ℕ → ℕ → ℕ → Outcome Hashtable
unfolding at seq_found
put_seq mem ht key val bin = do
  c ← at ht.table bin
  seq_found mem ht bin c (key, val) (empty_in_chain 0 c)

-- the inner loop of `bucket_cpy`
unfoldable pub copy_slots : Memory → List Slot → Hashtable → Outcome Hashtable
unfolding put_seq hash_of
copy_slots mem [] new = done new
copy_slots mem (s ∷ xs) new = do
  new' ← if s.0 == 0 then done new else put_seq mem new s.0 s.1 (hash_of new s.0)
  copy_slots mem xs new'

unfoldable pub copy_chain : Memory → Chain → Hashtable → Outcome Hashtable
unfolding copy_slots
copy_chain mem (last b) new = copy_slots mem b.slots new
copy_chain mem (link b c) new = do new' ← copy_slots mem b.slots new; copy_chain mem c new'

-- `bucket_cpy`: the bucket stays locked; one that is being resized already is not copied
unfoldable pub bucket_cpy : Memory → Chain → Hashtable → Outcome (Chain × Hashtable)
unfolding lock_of with_lock copy_chain
bucket_cpy mem c new =
    if lock_of c == lock_free
    then (do new' ← copy_chain mem c new; done (with_lock lock_resize c, new'))
    else if lock_of c == lock_update
    then blocked
    else done (c, new)

-- the loop of `ht_resize_pes` over the first n buckets
unfoldable pub copy_bins : Memory → ℕ → List Chain → Hashtable → Outcome (List Chain × Hashtable)
unfolding bucket_cpy
copy_bins mem zero cs new = done (cs, new)
copy_bins mem (suc n) [] new = fault
copy_bins mem (suc n) (c ∷ cs) new = do
  (c', new') ← bucket_cpy mem c new
  (cs', new'') ← copy_bins mem n cs new'
  done (c' ∷ cs', new'')

-- the whole loop: its index is an `int32_t`, which 2 ^ 31 buckets overflow, and that is no defined step
unfoldable pub copy_table : Memory → Hashtable → Hashtable → Outcome (List Chain × Hashtable)
unfolding copy_bins
copy_table mem old new =
    if ltb old.num_buckets (2 ^ 31) then copy_bins mem old.num_buckets old.table new else fault

-- `retired`: the tables that `clht_gc_release` was given, the newest first
pub record Clht : Type 0 where
  pub ht : Hashtable
  pub resize_lock : ℕ
  pub status_lock : ℕ
  pub retired : List Hashtable

-- `clht_create`; `granted`: whether `memalign` has memory for the handle
unfoldable pub clht_create : Memory → (granted : Bool) → ℕ → Option Clht
clht_create mem granted num_buckets =
    if not granted then none else elim (hashtable_create mem num_buckets) [
      | none ↦ none
      | some ht ↦
          some (record { ht = ht; resize_lock = lock_free; status_lock = lock_free; retired = [] })
    ]

abbrev pub ratio_halve : ℕ
ratio_halve = 8

abbrev pub new_size : Hashtable → Bool → ℕ → ℕ
new_size ht is_increase by =
    if is_increase then by * ht.num_buckets % 2 ^ 64 else ht.num_buckets / ratio_halve

-- a new table is filled from the old one, whose buckets stay locked; NULL is dereferenced
unfoldable pub fill : Memory → Hashtable → Option Hashtable → Outcome (Hashtable × Hashtable)
unfolding copy_table
fill mem old none = fault
fill mem old (some new) = do
  (table, new') ← copy_table mem old (record new { version = (old.version + 1) % 2 ^ 64 })
  done (record old { table = table }, new')

unfoldable pub rebuild : Memory → Hashtable → ℕ → Outcome (Hashtable × Hashtable)
unfolding fill
rebuild mem old n = fill mem old (hashtable_create mem n)

abbrev pub swapped : Clht → Hashtable × Hashtable → Clht
swapped h (old, new) = record h { ht = new; resize_lock = lock_free; retired = old ∷ h.retired }

-- `ht_resize_pes`; `again` is its call of `ht_status`
unfoldable pub resize_pes :
    Memory → (Clht → Outcome (ℕ × Clht)) → Clht → Bool → ℕ → Outcome (Bool × Clht)
unfolding rebuild
resize_pes mem again h is_increase by =
    if not (h.resize_lock == lock_free) then done (false, h) else (do
      (old, new) ← rebuild mem h.ht (new_size h.ht is_increase by)
      if leb new.num_expands_threshold new.num_expands
          then (do (_, h') ← again (swapped h (old, new)); done (true, h'))
          else done (true, swapped h (old, new)))

-- `pow2roundup` of external/include/utils.h, on 64 bits
unfoldable pub pow2roundup : ℕ → ℕ
pow2roundup zero = 1
pow2roundup (suc x) =
    let a = bit_or x (x / 2 ^ 1) in
    let b = bit_or a (a / 2 ^ 2) in
    let c = bit_or b (b / 2 ^ 4) in
    let d = bit_or c (c / 2 ^ 8) in
    let e = bit_or d (d / 2 ^ 16) in let f = bit_or e (e / 2 ^ 32) in (f + 1) % 2 ^ 64

-- the longest chain of overflow buckets, `expands_max`
unfoldable pub expands_max : List Chain → ℕ
expands_max [] = 0
expands_max (c ∷ cs) = max (hops c) (expands_max cs)

pub data Decision : Type 0 where
  keep : Decision
  shrink : Decision
  grow : (by : ℕ) → Decision

-- a 64-bit word that is stored in an `int`, as the word that the `int` is extended to
abbrev pub as_int : ℕ → ℕ
as_int x = if ltb (x % 2 ^ 32) (2 ^ 31) then x % 2 ^ 32 else x % 2 ^ 32 + (2 ^ 64 - 2 ^ 32)

-- `int inc_by_pow2`, never 1
unfoldable pub increase : ℕ → ℕ → ℕ
unfolding pow2roundup
increase n size =
    let by = as_int (pow2roundup (100 * size / (n * entries_per_bucket) / 40)) in
    if by == 1 then 2 else by

-- the tests of `ht_status`; with r = 100 * size / (n * 3) the full ratio, `r < 5` is written
-- `100 * size < 5 * (n * 3)`, and so for 50
unfoldable pub decide : ℕ → ℕ → ℕ → Bool → Decision
unfolding increase
decide n size hops_max resize_increase =
    let slots = n * entries_per_bucket in
    if ltb 0 size && ltb (100 * size) (5 * slots)
    then shrink
    else if ltb (50 * slots) (100 * size) || ltb 24 hops_max || resize_increase
    then grow (increase n size)
    else keep

unfoldable pub act : Memory → (Clht → Outcome (ℕ × Clht)) → Clht → Decision → Outcome (Bool × Clht)
unfolding resize_pes
act mem again h keep = done (true, h)
act mem again h shrink = resize_pes mem again h false 33
act mem again h (grow by) = resize_pes mem again h true by

-- `ht_status`; the fuel bounds how often a resize asks for another one
unfoldable pub status : ℕ → Memory → Clht → Bool → Bool → Outcome (ℕ × Clht)
unfolding size decide act
status zero mem h resize_increase just_print = blocked
status (suc fuel) mem h resize_increase just_print =
    if not (h.status_lock == lock_free) && not resize_increase then done (0, h) else (do
      n ← size h.ht
      (_, h') ←
          act mem (λ g. status fuel mem g true false) (record h { status_lock = 0xff })
            (if just_print
              then keep
              else decide h.ht.num_buckets n (expands_max h.ht.table) resize_increase)
      done (n, record h' { status_lock = lock_free }))

-- `clht_put`
unfoldable pub put : ℕ → Memory → Clht → ℕ → ℕ → Outcome (Bool × Clht)
unfolding put_table status
put fuel mem h key val = do
  r ← put_table mem h.ht key val
  let h' = record h { ht = r.ht }
  if r.resize
      then (do (_, h'') ← status fuel mem h' true false; done (r.result, h''))
      else done (r.result, h')
