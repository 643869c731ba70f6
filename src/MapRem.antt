-- ===== src/MapRem.antt =====
-- The lock-free table of src/clht_lf_only_map_rem.c and include/clht_lf_only_map_rem.h, whose removes
-- change the byte of a slot and leave the version: the calls on one bucket, as threads that take
-- turns. The word of a bucket, its functions and the places of a put are those of `Lf`.
pub mod Slots
pub mod Local
pub mod Progress
pub mod Moves
pub mod Owners
pub mod Threads
use clht.Prelude.{ℕ, suc, ◌==◌, ltb, if◌then◌else◌, true, false, Option, none, some, set, get_or}
use clht.Lf.Snapshot.{
  map_invld, key_buckt, Snapshot, snap_get_empty_index, snap_set_map, snap_set_map_and_inc_version,
  same,
}
use clht.Lf.Bucket.{
  Bucket, Search, read_val, read_map, read_key, read_again, result, Put, retry, searching, reserve,
  write_val, write_key, publish, returned,
}

abbrev pub map_insrt : ℕ
map_insrt = 1

abbrev pub map_valid : ℕ
map_valid = 2

abbrev pub map_remov : ℕ
map_remov = 3

-- `map[i]`; past the end, where no read of the code goes, a number that stands for no state
abbrev pub state : Bucket → ℕ → ℕ
state b i = get_or b.snapshot.map i 4

-- a store into the byte of slot i alone
abbrev pub set_state : Bucket → ℕ → ℕ → Bucket
set_state b i v = record b { snapshot = snap_set_map b.snapshot i v }

unfoldable pub search_step : ℕ → Bucket → Search → Search
search_step key b (read_val i) = if ltb i key_buckt then read_map i (get_or b.val i 0) else result 0
search_step key b (read_map i v) =
    if ltb (state b i) map_valid then read_val (suc i) else read_key i v
search_step key b (read_key i v) =
    if get_or b.key i 0 == key then read_again i v else read_val (suc i)
search_step key b (read_again i v) = result (if get_or b.val i 0 == v then v else 0)
search_step key b (result v) = result v

-- the search has returned a value that is not 0
unfoldable pub give_up : Bucket → Option ℕ → Put × Bucket
give_up b none = (returned false, b)
give_up b (some i) = (returned false, set_state b i map_invld)

-- the search has returned 0
unfoldable pub go_on : Bucket → Snapshot → Option ℕ → Put × Bucket
go_on b s none = (reserve s, b)
go_on b s (some i) = (publish i (snap_set_map s i map_insrt), b)

-- the first compare-and-swap
unfoldable pub reserve_at : Bucket → Snapshot → Option ℕ → Put × Bucket
reserve_at b s none = (retry none, b)
reserve_at b s (some i) =
    let s1 = snap_set_map s i map_insrt in
    if same b.snapshot s then (write_val i s1, record b { snapshot = s1 }) else (retry none, b)

unfoldable pub search_result : Bucket → Option ℕ → Snapshot → ℕ → Put × Bucket
unfolding give_up go_on
search_result b e s v = if v == 0 then go_on b s e else give_up b e

unfoldable pub put_step : ℕ → ℕ → Bucket → Put → Put × Bucket
unfolding search_step search_result reserve_at
put_step key val b (retry e) = (searching e b.snapshot (read_val 0), b)
put_step key val b (searching e s (result v)) = search_result b e s v
put_step key val b (searching e s p) = (searching e s (search_step key b p), b)
put_step key val b (reserve s) = reserve_at b s (snap_get_empty_index s)
put_step key val b (write_val i s1) = (write_key i s1, record b { val = set b.val i val })
put_step key val b (write_key i s1) = (publish i s1, record b { key = set b.key i key })
put_step key val b (publish i s1) =
    if same b.snapshot s1
    then (returned true, record b { snapshot = snap_set_map_and_inc_version s1 i map_valid })
    else (retry (some i), b)
put_step key val b (returned r) = (returned r, b)

-- `clht_remove`, at the read of `val[i]`, of `map[i]`, of `key[i]`, of `val[i]` again, at the
-- compare-and-swap of the byte, at the second reads of the key and of the value, or at one of the two
-- last stores
pub data Remove : Type 0 where
  look : (i : ℕ) → Remove
  check_map : (i val : ℕ) → Remove
  check_key : (i val : ℕ) → Remove
  check_val : (i val : ℕ) → Remove
  block : (i : ℕ) → Remove
  check_again : (i : ℕ) → Remove
  take_val : (i : ℕ) → Remove
  clear : (i val : ℕ) → Remove
  restore : (i : ℕ) → Remove
  removed : (val : ℕ) → Remove

unfoldable pub remove_step : ℕ → Bucket → Remove → Remove × Bucket
remove_step key b (look i) =
    (if ltb i key_buckt then check_map i (get_or b.val i 0) else removed 0, b)
remove_step key b (check_map i v) =
    (if state b i == map_valid then check_key i v else look (suc i), b)
remove_step key b (check_key i v) =
    (if get_or b.key i 0 == key then check_val i v else look (suc i), b)
remove_step key b (check_val i v) = (if get_or b.val i 0 == v then block i else look (suc i), b)
remove_step key b (block i) =
    if state b i == map_valid then (check_again i, set_state b i map_remov) else (removed 0, b)
remove_step key b (check_again i) = (if get_or b.key i 0 == key then take_val i else restore i, b)
remove_step key b (take_val i) = (clear i (get_or b.val i 0), b)
remove_step key b (clear i v) = (removed v, set_state b i map_invld)
remove_step key b (restore i) = (removed 0, set_state b i map_valid)
remove_step key b (removed v) = (removed v, b)

pub data Call : Type 0 where
  idle : Call
  getting : (key : ℕ) → Search → Call
  putting : (key val : ℕ) → Put → Call
  removing : (key : ℕ) → Remove → Call

unfoldable pub call_step : Bucket → Call → Call × Bucket
call_step b idle = (idle, b)
call_step b (getting key p) = (getting key (search_step key b p), b)
call_step b (putting key val p) = let r = put_step key val b p in (putting key val r.0, r.1)
call_step b (removing key p) = let r = remove_step key b p in (removing key r.0, r.1)
