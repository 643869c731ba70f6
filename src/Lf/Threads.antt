-- ===== src/Lf/Threads.antt =====
-- Threads that call get, put and remove on one bucket of src/clht_lf.c at the same time: in each
-- step one of them, any one, makes the next step of its call.
pub mod Exclusive
pub mod Reachable
pub mod Moves
use clht.Prelude.{ℕ, assign, ◌≡◌, Bool, true, false, none}
use clht.Lf.Bucket.{
  Bucket, Search, read_val, result, search_step, Put, retry, returned, put_step, Remove, restart,
  removed, remove_step,
}

pub data Call : Type 0 where
  idle : Call
  getting : (key : ℕ) → Search → Call
  putting : (key val : ℕ) → Put → Call
  removing : (key : ℕ) → Remove → Call

unfoldable pub call_step : Bucket → Call → Call × Bucket
call_step b idle = (idle, b)
call_step b (getting key p) = (getting key (search_step key b p), b)
call_step b (putting key val p) = let r = put_step key val b p in (putting key val r.0, r.1)
call_step b (removing key p) = let r = remove_step key b p in (removing key r.0, r.1)

pub record System : Type 0 where
  pub bucket : Bucket
  pub call : ℕ → Call

abbrev pub advance : System → ℕ → System
advance s t =
    let r = call_step s.bucket (s.call t) in record { bucket = r.1; call = assign s.call t r.0 }

-- a call as it starts
pub data Starts : Call → Type 0 where
  get : (key : ℕ) → Starts (getting key (read_val 0))
  put : (key val : ℕ) → Starts (putting key val (retry none))
  remove : (key : ℕ) → Starts (removing key restart)

-- whether a thread may start another call
abbrev pub is_over : Call → Bool
is_over idle = true
is_over (getting key (result v)) = true
is_over (putting key val (returned r)) = true
is_over (removing key (removed v)) = true
is_over _ = false

pub data Step : System → System → Type 0 where
  run : {s : System} (t : ℕ) → Step s (advance s t)
  start :
      {s : System} (t : ℕ) {c : Call}
      → is_over (s.call t) ≡ true
      → Starts c
      → Step s (record s { call = assign s.call t c })

pub data Steps : System → System → Type 0 where
  no_step : {s : System} → Steps s s
  step_after : {s t u : System} → Steps s t → Step t u → Steps s u
