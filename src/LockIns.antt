-- ===== src/LockIns.antt =====
-- `clht_get`, `clht_put` and `clht_remove` of src/clht_lb_lock_ins.c on one bin, as threads that take
-- turns: only a put takes the lock, and a remove blocks the slot of its key by compare-and-swap. A
-- step of a thread makes at most one access to the memory that the threads share.
pub mod Local
pub mod Moves
pub mod Locks
pub mod Sizes
pub mod Effects
pub mod Progress
pub mod Threads
use clht.Prelude.{
  ℕ, zero, suc, ◌-◌, ◌%◌, ◌^◌, ◌==◌, ltb, if◌then◌else◌, Bool, true, false, Option, none, some,
  List, [], ◌∷◌, ◌++◌, set, get_or, length,
}
use clht.LbRes.Bucket.{entries_per_bucket, lock_free, lock_update, Block}

-- KEY_BLCK, which is -1
abbrev pub key_blck : ℕ
key_blck = 2 ^ 64 - 1

-- The buckets of a bin, in the order of the walk: slot i is slot i % 3 of bucket i / 3. `lock` is
-- that of the first bucket.
pub record Bin : Type 0 where
  pub lock : ℕ
  pub key : List ℕ
  pub val : List ℕ

abbrev pub key_at : Bin → ℕ → ℕ
key_at b i = get_or b.key i 0

abbrev pub val_at : Bin → ℕ → ℕ
val_at b i = get_or b.val i 0

-- whether the walk goes from slot i to another bucket
abbrev pub is_last : ℕ → Bool
is_last i = suc i % entries_per_bucket == 0

-- `clht_get`, at its reads of `val[j]`, `key[j]`, `val[j]` again and `next`, or at its return
pub data Get : Type 0 where
  get_val : (i : ℕ) → Get
  get_key : (i val : ℕ) → Get
  get_again : (i val : ℕ) → Get
  get_next : (i : ℕ) → Get
  got : (val : ℕ) → Get

unfoldable pub get_step : ℕ → Bin → Get → Get
get_step key b (get_val i) = get_key i (val_at b i)
get_step key b (get_key i v) =
    if key_at b i == key
    then get_again i v
    else if is_last i
    then get_next (suc i)
    else get_val (suc i)
get_step key b (get_again i v) = got (if val_at b i == v then v else 0)
get_step key b (get_next i) = if ltb i (length b.key) then get_val i else got 0
get_step key b (got v) = got v

-- `clht_put`: `seek_key` and `seek_next` are in `bucket_exists`; `empty` is the slot of `empty`
pub data Put : Type 0 where
  seek_key : (i : ℕ) → Put
  seek_next : (i : ℕ) → Put
  acquire : Put
  scan_key : (i : ℕ) (empty : Option ℕ) → Put
  scan_zero : (i : ℕ) → Put
  scan_next : (i : ℕ) (empty : Option ℕ) → Put
  expand : Put
  crashed : Put
  write_val : (p : ℕ) → Put
  write_key : (p : ℕ) → Put
  release : (result : Bool) → Put
  returned : (result : Bool) → Put

-- the compare-and-swap of `lock_acq_chk_resize`, which goes on unless it finds LOCK_UPDATE
unfoldable pub acquire_at : Bin → Put × Bin
acquire_at b =
    if b.lock == lock_free
    then (scan_key 0 none, record b { lock = lock_update })
    else if b.lock == lock_update
    then (acquire, b)
    else (scan_key 0 none, b)

abbrev pub scan_on : ℕ → Option ℕ → Put
scan_on i empty = if is_last i then scan_next (suc i) empty else scan_key (suc i) empty

-- the key is not in slot i; `empty == NULL &&` reads it again
abbrev pub scan_other : ℕ → Option ℕ → Put
scan_other i none = scan_zero i
scan_other i (some p) = scan_on i (some p)

-- the bucket is the last one
abbrev pub scan_end : Option ℕ → Put
scan_end none = expand
scan_end (some p) = write_val p

-- `bucket->next = clht_bucket_create(hashtable)`
unfoldable pub expand_at : Bin → Block → Put × Bin
expand_at b none = (crashed, b)
expand_at b (some words) = (
  write_val (length b.key),
  record b { key = b.key ++ 0 ∷ 0 ∷ 0 ∷ []; val = b.val ++ words 0 ∷ words 1 ∷ words 2 ∷ [] },
)

unfoldable pub put_step : ℕ → ℕ → Block → Bin → Put → Put × Bin
unfolding acquire_at expand_at
put_step key val answer b (seek_key i) = (
  if key_at b i == key
      then returned false
      else if is_last i
      then seek_next (suc i)
      else seek_key (suc i),
  b,
)
put_step key val answer b (seek_next i) = (if ltb i (length b.key) then seek_key i else acquire, b)
put_step key val answer b acquire = acquire_at b
put_step key val answer b (scan_key i e) =
    (if key_at b i == key then release false else scan_other i e, b)
put_step key val answer b (scan_zero i) = (scan_on i (if key_at b i == 0 then some i else none), b)
put_step key val answer b (scan_next i e) =
    (if ltb i (length b.key) then scan_key i e else scan_end e, b)
put_step key val answer b expand = expand_at b answer
put_step key val answer b crashed = (crashed, b)
put_step key val answer b (write_val p) = (write_key p, record b { val = set b.val p val })
put_step key val answer b (write_key p) = (release true, record b { key = set b.key p key })
put_step key val answer b (release r) = (returned r, record b { lock = lock_free })
put_step key val answer b (returned r) = (returned r, b)

-- `clht_remove`; `false` is 0
pub data Remove : Type 0 where
  look : (i : ℕ) → Remove
  look_next : (i : ℕ) → Remove
  block : (i : ℕ) → Remove
  take_val : (i : ℕ) → Remove
  clear : (i val : ℕ) → Remove
  removed : (val : ℕ) → Remove

unfoldable pub remove_step : ℕ → Bin → Remove → Remove × Bin
remove_step key b (look i) = (
  if key_at b i == key then block i else if is_last i then look_next (suc i) else look (suc i),
  b,
)
remove_step key b (look_next i) = (if ltb i (length b.key) then look i else removed 0, b)
remove_step key b (block i) =
    if key_at b i == key
    then (take_val i, record b { key = set b.key i key_blck })
    else (removed 0, b)
remove_step key b (take_val i) = (clear i (val_at b i), b)
remove_step key b (clear i v) = (removed v, record b { key = set b.key i 0 })
remove_step key b (removed v) = (removed v, b)

-- A call of a thread. `answer` is the answer of `memalign`, which a put asks at most once.
pub data Call : Type 0 where
  idle : Call
  getting : (key : ℕ) → Get → Call
  putting : (key val : ℕ) (answer : Block) → Put → Call
  removing : (key : ℕ) → Remove → Call

unfoldable pub call_step : Bin → Call → Call × Bin
call_step b idle = (idle, b)
call_step b (getting key p) = (getting key (get_step key b p), b)
call_step b (putting key val answer p) =
    let r = put_step key val answer b p in (putting key val answer r.0, r.1)
call_step b (removing key p) = let r = remove_step key b p in (removing key r.0, r.1)
