-- ===== src/MapRem/Threads/Reachable.antt =====
-- What holds of every state that the threads on a bucket can reach, in any order of their steps.
use mathlib.Core.Path.{subst}
use clht.Prelude.{
  ℕ, assign, assign-here, assign-there, ◌≡◌, ◌==◌, refl, sym, ap, ◌∙◌, some, none, Bool-cases, inl,
  inr, arith,
}
use clht.Lf.Bucket.{Bucket}
use clht.MapRem.{state, Call, idle}
use clht.MapRem.Local.{IsWhole, owns, Knows, PutKnows, RemoveKnows}
use clht.MapRem.Moves.{Life, call_step-Life}
use clht.MapRem.Threads.{
  System, advance, Starts, get, put, remove, Step, run, start, Steps, no_step, step_after,
}
use clht.MapRem.Threads.Owned.{Owned, advance-Owned}

starts-Knows : (b : Bucket) (c : Call) → Starts c → Knows b c
unfolding Knows PutKnows RemoveKnows
starts-Knows b c (get k) = tt
starts-Knows b c (put k v) = tt
starts-Knows b c (remove k) = tt

starts-owns : (c : Call) → Starts c → owns c ≡ none
starts-owns c (get k) = refl
starts-owns c (put k v) = refl
starts-owns c (remove k) = refl

module _ (s : System) (t : ℕ) (c : Call) (x : Owned s) (fresh : Starts c) where
  abbrev started : System
  started = record s { call = assign s.call t c }

  owned_before : (u i : ℕ) → owns (started.call u) ≡ some i → owns (s.call u) ≡ some i
  owned_before u i h = elim (Bool-cases (t == u)) [
    | inl e ↦
        let never = sym (starts-owns c fresh) ∙ ap owns (sym (assign-here s.call t u c e)) ∙ h in
        absurd (ground arith)
    | inr e ↦ ap owns (sym (assign-there s.call t u c e)) ∙ h
  ]

  started-Owned : Owned started
  started-Owned = record {
    whole = x.whole;
    knows = λ u. elim (Bool-cases (t == u)) [
      | inl e ↦
          subst (Knows s.bucket) (sym (assign-here s.call t u c e)) (starts-Knows s.bucket c fresh)
      | inr e ↦ subst (Knows s.bucket) (sym (assign-there s.call t u c e)) (x.knows u)
    ];
    alone = λ u w i h g. x.alone u w i (owned_before u i h) (owned_before w i g);
  }

-- a bucket on which no call runs
abbrev pub quiet : Bucket → System
quiet b = record { bucket = b; call = λ t. idle }

quiet-Owned : (b : Bucket) → IsWhole b → Owned (quiet b)
unfolding Knows
quiet-Owned b w = record { whole = w; knows = λ t. tt; alone = λ t u i h g. absurd (ground arith) }

step-Owned : {s u : System} → Step s u → Owned s → Owned u
step-Owned (run {s} t) x = advance-Owned s x t
step-Owned (start {s} t {c} over fresh) x = started-Owned s t c x fresh

-- From a bucket with three slots on which no call runs, the threads reach only states in which no two
-- of them own the same slot, where a put owns the slot that it has reserved until it publishes it or
-- gives it up, and a remove the slot that it has blocked until its last store; an owned slot is marked
-- MAP_INSRT by a put and MAP_REMOV by a remove, a put that is about to publish has its key and its
-- value in its slot, and a remove that is about to clear its slot finds there its key and the value
-- that it returns. The calls are any, and their steps come in any order.
pub Steps-Owned : (b : Bucket) (s : System) → IsWhole b → Steps (quiet b) s → Owned s
Steps-Owned b s w no_step = quiet-Owned b w
Steps-Owned b s w (step_after {t = u} many one) = step-Owned one (Steps-Owned b u w many)

-- In every state that the threads reach from a bucket with three slots on which no call runs, a step
-- keeps the byte of a slot, or moves it from MAP_INVLD to MAP_INSRT, from MAP_INSRT to MAP_VALID or
-- back to MAP_INVLD, from MAP_VALID to MAP_REMOV, or from MAP_REMOV to MAP_INVLD or back to MAP_VALID.
pub advance-Life :
    (b : Bucket) (s : System) (t j : ℕ)
    → IsWhole b
    → Steps (quiet b) s
    → Life (state s.bucket j) (state (advance s t).bucket j)
advance-Life b s t j w many =
    call_step-Life s.bucket (s.call t) j ((Steps-Owned b s w many).knows t)
