-- ===== src/Lf/Threads/Moves.antt =====
-- The states that a slot goes through.
use clht.Prelude.{ℕ, ◌≡◌, refl, some}
use clht.Lf.Snapshot.{map_insrt, map_at}
use clht.Lf.Bucket.{Bucket}
use clht.Lf.Bucket.Moves.{Moves, is_kept, put_step-Moves, remove_step-Moves}
use clht.Lf.Threads.{Call, idle, getting, putting, removing, call_step, System, advance, Steps}
use clht.Lf.Threads.Exclusive.{holds, CallSeen}
use clht.Lf.Threads.Reachable.{quiet, Steps-Exclusive}

call_step-Moves :
    (b : Bucket) (c : Call) (j : ℕ)
    → CallSeen c
    → ((i : ℕ) → holds c ≡ some i → map_at b.snapshot.map i ≡ map_insrt)
    → Moves (map_at b.snapshot.map j) (map_at (call_step b c).1.snapshot.map j)
unfolding call_step CallSeen
call_step-Moves b idle j seen own = is_kept refl
call_step-Moves b (getting key p) j seen own = is_kept refl
call_step-Moves b (putting key val p) j seen own = put_step-Moves key val b p j own
call_step-Moves b (removing key p) j seen own = remove_step-Moves key b p j seen

-- In every state that the threads reach from a bucket on which no call runs, a step keeps the byte
-- of a slot, or moves it from MAP_INVLD to MAP_INSRT, from MAP_INSRT to MAP_VALID or back to
-- MAP_INVLD, or from MAP_VALID to MAP_INVLD.
pub advance-Moves :
    (b : Bucket) (s : System) (t j : ℕ)
    → Steps (quiet b) s
    → Moves (map_at s.bucket.snapshot.map j) (map_at (advance s t).bucket.snapshot.map j)
advance-Moves b s t j many =
    let x = Steps-Exclusive b s many in
    call_step-Moves s.bucket (s.call t) j (x.seen t) (x.marked t)
