-- ===== src/LockIns/Threads.antt =====
-- Threads that call get, put and remove on one bin of src/clht_lb_lock_ins.c at the same time: in each
-- step one of them, any one, makes the next step of its call.
pub mod Coherent
pub mod Reachable
use clht.Prelude.{ℕ, assign, ◌≡◌, Bool, true, false}
use clht.LbRes.Bucket.{Block}
use clht.LockIns.{
  Bin, get_val, got, seek_key, returned, look, removed, Call, idle, getting, putting, removing,
  call_step,
}
use clht.LockIns.Local.{IsKey}

pub record System : Type 0 where
  pub bin : Bin
  pub call : ℕ → Call

abbrev pub advance : System → ℕ → System
advance s t = let r = call_step s.bin (s.call t) in record { bin = r.1; call = assign s.call t r.0 }

-- a call as it starts: no caller puts or removes the keys 0 and KEY_BLCK
pub data Starts : Call → Type 0 where
  get : (key : ℕ) → Starts (getting key (get_val 0))
  put : (key val : ℕ) (answer : Block) → IsKey key → Starts (putting key val answer (seek_key 0))
  remove : (key : ℕ) → IsKey key → Starts (removing key (look 0))

-- whether a thread may start another call
abbrev pub is_over : Call → Bool
is_over idle = true
is_over (getting key (got v)) = true
is_over (putting key val answer (returned r)) = true
is_over (removing key (removed v)) = true
is_over _ = false

pub data Step : System → System → Type 0 where
  run : {s : System} (t : ℕ) → Step s (advance s t)
  start :
      {s : System} (t : ℕ) {c : Call}
      → is_over (s.call t) ≡ true
      → Starts c
      → Step s (record s { call = assign s.call t c })

pub data Steps : System → System → Type 0 where
  no_step : {s : System} → Steps s s
  step_after : {s t u : System} → Steps s t → Step t u → Steps s u
