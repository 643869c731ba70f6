-- ===== src/Lf/Bucket.antt =====
-- The calls of src/clht_lf.c on one bucket, as threads that take turns: a step of a thread makes at
-- most one access to the memory that threads share, and the work on its own variables around it.
pub mod Reserved
pub mod Moves
use clht.Prelude.{
  ℕ, zero, suc, ◌==◌, ltb, if◌then◌else◌, Bool, true, false, ◌&&◌, Option, none, some, List, set,
  get_or,
}
use clht.Lf.Snapshot.{
  map_invld, map_valid, map_insrt, key_buckt, Snapshot, map_at, snap_get_empty_index, snap_set_map,
  snap_set_map_and_inc_version, same,
}

pub record Bucket : Type 0 where
  pub snapshot : Snapshot
  pub key : List ℕ
  pub val : List ℕ

-- `clht_bucket_search`, at the read of `val[i]`, of `map[i]`, of `key[i]`, of `val[i]` again, or at
-- its return
pub data Search : Type 0 where
  read_val : (i : ℕ) → Search
  read_map : (i val : ℕ) → Search
  read_key : (i val : ℕ) → Search
  read_again : (i val : ℕ) → Search
  result : (val : ℕ) → Search

unfoldable pub search_step : ℕ → Bucket → Search → Search
search_step key b (read_val i) = if ltb i key_buckt then read_map i (get_or b.val i 0) else result 0
search_step key b (read_map i v) =
    if map_at b.snapshot.map i == map_valid then read_key i v else read_val (suc i)
search_step key b (read_key i v) =
    if get_or b.key i 0 == key then read_again i v else read_val (suc i)
search_step key b (read_again i v) = result (if get_or b.val i 0 == v then v else 0)
search_step key b (result v) = result v

-- `clht_put`: `empty_index` is `none` where it is negative
pub data Put : Type 0 where
  retry : (empty_index : Option ℕ) → Put
  searching : (empty_index : Option ℕ) (s : Snapshot) → Search → Put
  reserve : (s : Snapshot) → Put
  write_val : (index : ℕ) (s1 : Snapshot) → Put
  write_key : (index : ℕ) (s1 : Snapshot) → Put
  publish : (index : ℕ) (s1 : Snapshot) → Put
  returned : Bool → Put

-- the search has returned a value that is not 0
give_up : Bucket → Option ℕ → Put × Bucket
give_up b none = (returned false, b)
give_up b (some i) = (returned false, record b { snapshot = snap_set_map b.snapshot i map_invld })

-- the search has returned 0
go_on : Bucket → Snapshot → Option ℕ → Put × Bucket
go_on b s none = (reserve s, b)
go_on b s (some i) = (publish i (snap_set_map s i map_insrt), b)

-- the first compare-and-swap
reserve_at : Bucket → Snapshot → Option ℕ → Put × Bucket
reserve_at b s none = (retry none, b)
reserve_at b s (some i) =
    let s1 = snap_set_map s i map_insrt in
    if same b.snapshot s then (write_val i s1, record b { snapshot = s1 }) else (retry none, b)

search_result : Bucket → Option ℕ → Snapshot → ℕ → Put × Bucket
unfolding give_up go_on
search_result b e s v = if v == 0 then go_on b s e else give_up b e

unfoldable pub put_step : ℕ → ℕ → Bucket → Put → Put × Bucket
unfolding search_step search_result reserve_at
put_step key val b (retry e) = (searching e b.snapshot (read_val 0), b)
put_step key val b (searching e s (result v)) = search_result b e s v
put_step key val b (searching e s p) = (searching e s (search_step key b p), b)
put_step key val b (reserve s) = reserve_at b s (snap_get_empty_index s)
put_step key val b (write_val i s1) = (write_key i s1, record b { val = set b.val i val })
put_step key val b (write_key i s1) = (publish i s1, record b { key = set b.key i key })
put_step key val b (publish i s1) =
    if same b.snapshot s1
    then (returned true, record b { snapshot = snap_set_map_and_inc_version s1 i map_valid })
    else (retry (some i), b)
put_step key val b (returned r) = (returned r, b)

-- `clht_remove`
pub data Remove : Type 0 where
  restart : Remove
  check_key : (i : ℕ) (s : Snapshot) → Remove
  take_val : (i : ℕ) (s : Snapshot) → Remove
  unlink : (i : ℕ) (s : Snapshot) (val : ℕ) → Remove
  removed : (val : ℕ) → Remove

unfoldable pub remove_step : ℕ → Bucket → Remove → Remove × Bucket
remove_step key b restart = (check_key 0 b.snapshot, b)
remove_step key b (check_key i s) =
    if ltb i key_buckt
    then (
      (if (get_or b.key i 0 == key) && (map_at s.map i == map_valid)
          then take_val i s
          else check_key (suc i) s),
      b,
    )
    else (removed 0, b)
remove_step key b (take_val i s) = (unlink i s (get_or b.val i 0), b)
remove_step key b (unlink i s v) =
    if same b.snapshot s
    then (removed v, record b { snapshot = snap_set_map s i map_invld })
    else (restart, b)
remove_step key b (removed v) = (removed v, b)
