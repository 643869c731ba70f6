-- ===== src/Tests/MapRem.antt =====
-- `clht_lf_only_map_rem`: a put and two removes of one key that race, and the theorems at the states
-- that they reach.
use clht.Prelude.{assign, ℕ, ◌≡◌, refl, none, List, [], ◌∷◌, ◌++◌, replicate}
use clht.Lf.Snapshot.{snap_get_empty_index, same}
use clht.Lf.Bucket.{Bucket, retry}
use clht.MapRem.{
  state, idle, putting, removing, look, clear, removed, search_step, put_step, remove_step,
  call_step,
}
use clht.MapRem.Local.{IsWhole}
use clht.MapRem.Moves.{Life}
use clht.MapRem.Threads.{System, advance, put, remove, run, start, Steps, no_step, step_after}
use clht.MapRem.Threads.Owned.{Owned}
use clht.MapRem.Threads.Reachable.{quiet, Steps-Owned, advance-Life}

abbrev empty : Bucket
empty = record {
  snapshot = record { version = 0; map = 0 ∷ 0 ∷ 0 ∷ [] };
  key = 0 ∷ 0 ∷ 0 ∷ [];
  val = 0 ∷ 0 ∷ 0 ∷ [];
}

empty-IsWhole : IsWhole empty
empty-IsWhole = record { map = refl; key = refl; val = refl }

-- thread 1 puts the key 5, and threads 2 and 3 remove it
abbrev racing : System
racing = record {
  bucket = empty;
  call =
      assign (assign (assign (λ t. idle) 1 (putting 5 50 (retry none))) 2 (removing 5 (look 0))) 3
        (removing 5 (look 0));
}

racing-Steps : Steps (quiet empty) racing
racing-Steps =
    step_after (step_after (step_after no_step (start 1 refl (put 5 50))) (start 2 refl (remove 5)))
      (start 3 refl (remove 5))

abbrev turns : List ℕ → System → System
turns [] s = s
turns (t ∷ ts) s = advance (turns ts s) t

turns-Steps :
    (ts : List ℕ) (b : Bucket) (s : System) → Steps (quiet b) s → Steps (quiet b) (turns ts s)
turns-Steps [] b s many = many
turns-Steps (t ∷ ts) b s many = step_after (turns-Steps ts b s many) (run t)

-- thread 1 runs to its end; the removes find the slot, and thread 2 blocks it and comes to its store
abbrev order : List ℕ
order = replicate 7 2 ++ replicate 4 3 ++ replicate 20 1

abbrev raced : System
raced = turns order racing

raced-Steps : Steps (quiet empty) raced
raced-Steps = turns-Steps order empty racing racing-Steps

Steps-Owned_example : Owned raced
Steps-Owned_example = Steps-Owned empty raced empty-IsWhole raced-Steps

advance-Life_example : Life (state raced.bucket 0) (state (advance raced 2).bucket 0)
advance-Life_example = advance-Life empty raced 2 0 empty-IsWhole raced-Steps

raced_call : raced.call 2 ≡ removing 5 (clear 0 50)
unfolding call_step put_step remove_step search_step snap_get_empty_index same
raced_call = refl

-- thread 3, whose compare-and-swap fails, returns 0
late_call : (turns (3 ∷ 2 ∷ order) racing).call 3 ≡ removing 5 (removed 0)
unfolding call_step put_step remove_step search_step snap_get_empty_index same
late_call = refl
