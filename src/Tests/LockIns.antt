-- ===== src/Tests/LockIns.antt =====
-- `clht_lb_lock_ins`: a put and a remove at the same time, and the theorems at a state they reach.
use clht.Prelude.{ℕ, zero, suc, assign, ◌≡◌, refl, some, List, [], ◌∷◌, arith}
use clht.LockIns.{
  Bin, idle, putting, removing, seek_key, look, call_step, put_step, remove_step, key_at,
}
use clht.LockIns.Local.{IsKey, IsValid, Fixed}
use clht.LockIns.Moves.{SlotMoves}
use clht.LockIns.Threads.{System, advance, put, remove, run, start, Steps, no_step, step_after}
use clht.LockIns.Threads.Coherent.{Coherent}
use clht.LockIns.Threads.Reachable.{quiet, Steps-Coherent, advance-SlotMoves, blocked_slot-Fixed}

-- 9 is bound to 90
abbrev nine : Bin
nine = record { lock = 0; key = 0 ∷ 9 ∷ 0 ∷ []; val = 0 ∷ 90 ∷ 0 ∷ [] }

once : (i j : ℕ) → IsKey (key_at nine i) → key_at nine i ≡ key_at nine j → i ≡ j
once zero j k e = absurd (k.0 refl)
once (suc zero) zero k e = absurd (omega (arith, e))
once (suc zero) (suc zero) k e = refl
once (suc zero) (suc (suc zero)) k e = absurd (omega (arith, e))
once (suc zero) (suc (suc (suc j))) k e = absurd (omega (arith, e))
once (suc (suc zero)) j k e = absurd (k.0 refl)
once (suc (suc (suc i))) j k e = absurd (k.0 refl)

nine-IsValid : IsValid nine
nine-IsValid = record { once = once; whole = refl; some_bucket = omega arith; paired = refl }

abbrev both : System
both = record {
  bin = nine;
  call =
      assign (assign (λ t. idle) 1 (putting 5 50 (some (λ j. 7)) (seek_key 0))) 2
        (removing 9 (look 0));
}

both-Steps : Steps (quiet nine) both
both-Steps =
    step_after
      (step_after no_step (start 1 refl (put 5 50 (some (λ j. 7)) (omega arith, omega arith))))
      (start 2 refl (remove 9 (omega arith, omega arith)))

-- the states after the steps of the threads in a list
abbrev after : System → List ℕ → System
after s [] = s
after s (t ∷ ts) = after (advance s t) ts

after-Steps : (q s : System) (ts : List ℕ) → Steps q s → Steps q (after s ts)
after-Steps q s [] many = many
after-Steps q s (t ∷ ts) many = after-Steps q (advance s t) ts (step_after many (run t))

-- the remove has blocked its slot, and the put is about to write its key
abbrev turns : List ℕ
turns = 1 ∷ 1 ∷ 1 ∷ 1 ∷ 1 ∷ 2 ∷ 1 ∷ 1 ∷ 1 ∷ 2 ∷ 1 ∷ 1 ∷ 2 ∷ 1 ∷ []

abbrev halfway : System
halfway = after both turns

halfway-Steps : Steps (quiet nine) halfway
halfway-Steps = after-Steps (quiet nine) both turns both-Steps

bin_after : (after halfway (1 ∷ 2 ∷ 2 ∷ 1 ∷ [])).bin.key ≡ 5 ∷ 0 ∷ 0 ∷ []
unfolding call_step put_step remove_step
bin_after = refl

Steps-Coherent_example : Coherent halfway
Steps-Coherent_example = Steps-Coherent nine halfway nine-IsValid refl halfway-Steps

advance-SlotMoves_example : SlotMoves (halfway.call 1) halfway.bin (advance halfway 1).bin 0
advance-SlotMoves_example = advance-SlotMoves nine halfway 1 0 nine-IsValid refl halfway-Steps

blocked_slot-Fixed_example : Fixed halfway.bin (advance halfway 1).bin 1
unfolding call_step put_step remove_step
blocked_slot-Fixed_example =
    blocked_slot-Fixed nine halfway 1 2 1 nine-IsValid refl halfway-Steps (omega arith) refl
