-- ===== src/Tests/Lf.antt =====
-- `clht_lf`: two puts of one key that race, and the theorems at the state they reach.
use clht.Prelude.{assign, ℕ, ◌≡◌, refl, none, List, [], ◌∷◌, ◌++◌, replicate, get_or}
use clht.Lf.Snapshot.{map_at, snap_get_empty_index, same}
use clht.Lf.Bucket.{Bucket, search_step, retry, put_step}
use clht.Lf.Threads.{
  idle, putting, call_step, System, advance, put, run, start, Steps, no_step, step_after,
}
use clht.Lf.Bucket.Moves.{Moves}
use clht.Lf.Threads.Moves.{advance-Moves}
use clht.Lf.Threads.Exclusive.{Exclusive}
use clht.Lf.Threads.Reachable.{quiet, Steps-Exclusive, valid_entry_fixed}

abbrev empty : Bucket
empty = record {
  snapshot = record { version = 0; map = 0 ∷ 0 ∷ 0 ∷ [] };
  key = 0 ∷ 0 ∷ 0 ∷ [];
  val = 0 ∷ 0 ∷ 0 ∷ [];
}

-- threads 1 and 2 put the key 5
abbrev racing : System
racing = record {
  bucket = empty;
  call = assign (assign (λ t. idle) 1 (putting 5 50 (retry none))) 2 (putting 5 51 (retry none));
}

racing-Steps : Steps (quiet empty) racing
racing-Steps = step_after (step_after no_step (start 1 refl (put 5 50))) (start 2 refl (put 5 51))

abbrev turns : List ℕ → System → System
turns [] s = s
turns (t ∷ ts) s = advance (turns ts s) t

turns-Steps :
    (ts : List ℕ) (b : Bucket) (s : System) → Steps (quiet b) s → Steps (quiet b) (turns ts s)
turns-Steps [] b s many = many
turns-Steps (t ∷ ts) b s many = step_after (turns-Steps ts b s many) (run t)

-- thread 2 searches; thread 1 runs to its end; thread 2 fails to reserve, and finds the key
abbrev raced : System
raced = turns (replicate 20 2 ++ replicate 20 1 ++ replicate 8 2) racing

Steps-Exclusive_example : Exclusive raced
Steps-Exclusive_example =
    Steps-Exclusive empty raced
      (turns-Steps (replicate 20 2 ++ replicate 20 1 ++ replicate 8 2) empty racing racing-Steps)

raced_bucket : raced.bucket ≡ record {
  snapshot = record { version = 1; map = 1 ∷ 0 ∷ 0 ∷ [] };
  key = 5 ∷ 0 ∷ 0 ∷ [];
  val = 50 ∷ 0 ∷ 0 ∷ [];
}
unfolding call_step put_step search_step snap_get_empty_index same
raced_bucket = refl

valid_entry_fixed_example :
    (get_or (advance raced 2).bucket.key 0 0 ≡ get_or raced.bucket.key 0 0)
    × (get_or (advance raced 2).bucket.val 0 0 ≡ get_or raced.bucket.val 0 0)
unfolding call_step put_step search_step snap_get_empty_index same
valid_entry_fixed_example =
    valid_entry_fixed empty raced 2 0
      (turns-Steps (replicate 20 2 ++ replicate 20 1 ++ replicate 8 2) empty racing racing-Steps)
      refl

advance-Moves_example :
    Moves (map_at racing.bucket.snapshot.map 0) (map_at (advance racing 1).bucket.snapshot.map 0)
advance-Moves_example = advance-Moves empty racing 1 0 racing-Steps
