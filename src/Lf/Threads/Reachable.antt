-- ===== src/Lf/Threads/Reachable.antt =====
-- What holds of every state that the threads can reach, in any order of their steps.
use mathlib.Core.Path.{subst}
use clht.Prelude.{
  assign, assign-here, assign-there, ℕ, ◌==◌, ◌≡◌, ◌≢◌, refl, sym, ◌∙◌, ap, none, some, Bool-cases,
  inl, inr, arith, get_or,
}
use clht.Lf.Snapshot.{map_valid, map_at}
use clht.Lf.Bucket.{Bucket}
use clht.Lf.Bucket.Reserved.{Seen, put_step-Stays, remove_step-entry}
use clht.Lf.Threads.{
  Call, idle, getting, putting, removing, call_step, System, advance, Starts, get, put, remove,
  Step, run, start, Steps, no_step, step_after,
}
use clht.Lf.Threads.Exclusive.{holds, CallSeen, Exclusive, advance-Exclusive}

starts-holds : (c : Call) → Starts c → holds c ≡ none
starts-holds c (get k) = refl
starts-holds c (put k v) = refl
starts-holds c (remove k) = refl

starts-CallSeen : (c : Call) → Starts c → CallSeen c
unfolding CallSeen Seen
starts-CallSeen c (get k) = tt
starts-CallSeen c (put k v) = tt
starts-CallSeen c (remove k) = tt

-- a call that has just started holds nothing
start-held :
    (s : System) (t : ℕ) (c : Call)
    → Starts c
    → (u i : ℕ) → holds (assign s.call t c u) ≡ some i
    → holds (s.call u) ≡ some i
start-held s t c fresh u i h = elim (Bool-cases (t == u)) [
  | inl e ↦
      let nothing = sym (starts-holds c fresh) ∙ ap holds (sym (assign-here s.call t u c e)) ∙ h in
      absurd (ground arith)
  | inr e ↦ ap holds (sym (assign-there s.call t u c e)) ∙ h
]

start-Exclusive :
    (s : System) (t : ℕ) (c : Call)
    → Exclusive s
    → Starts c
    → Exclusive (record s { call = assign s.call t c })
start-Exclusive s t c x fresh = record {
  marked = λ u i h. x.marked u i (start-held s t c fresh u i h);
  alone = λ u w i h g. x.alone u w i (start-held s t c fresh u i h) (start-held s t c fresh w i g);
  seen = λ u. elim (Bool-cases (t == u)) [
    | inl e ↦ subst CallSeen (sym (assign-here s.call t u c e)) (starts-CallSeen c fresh)
    | inr e ↦ subst CallSeen (sym (assign-there s.call t u c e)) (x.seen u)
  ];
}

-- a bucket on which no call runs
abbrev pub quiet : Bucket → System
quiet b = record { bucket = b; call = λ t. idle }

quiet-Exclusive : (b : Bucket) → Exclusive (quiet b)
unfolding CallSeen
quiet-Exclusive b = record {
  marked = λ t i h. absurd (ground arith);
  alone = λ t u i h g. absurd (ground arith);
  seen = λ t. tt;
}

step-Exclusive : {s u : System} → Step s u → Exclusive s → Exclusive u
step-Exclusive (run {s} t) x = advance-Exclusive s x t
step-Exclusive (start {s} t {c} over fresh) x = start-Exclusive s t c x fresh

-- From a bucket on which no call runs, the threads reach only states in which each slot that a put
-- has reserved and not yet published is marked MAP_INSRT and is reserved by that put alone, whatever
-- calls they make and in whatever order their steps come.
pub Steps-Exclusive : (b : Bucket) (s : System) → Steps (quiet b) s → Exclusive s
Steps-Exclusive b s no_step = quiet-Exclusive b
Steps-Exclusive b s (step_after {t = u} many one) = step-Exclusive one (Steps-Exclusive b u many)

call_step-entry :
    (s : System) (t j : ℕ) (c : Call)
    → s.call t ≡ c
    → Exclusive s
    → map_at s.bucket.snapshot.map j ≡ map_valid
    → (get_or (call_step s.bucket c).1.key j 0 ≡ get_or s.bucket.key j 0)
      × (get_or (call_step s.bucket c).1.val j 0 ≡ get_or s.bucket.val j 0)
unfolding call_step
call_step-entry s t j idle e x valid = (refl, refl)
call_step-entry s t j (getting key p) e x valid = (refl, refl)
call_step-entry s t j (putting key val p) e x valid =
    let apart : holds (putting key val p) ≢ some j =
      λ h. omega (arith, valid, x.marked t j (ap holds e ∙ h)) in
    let stays = put_step-Stays key val s.bucket p j apart (λ free. omega (arith, valid, free)) in
    (stays.key, stays.val)
call_step-entry s t j (removing key p) e x valid =
    let r = remove_step-entry key s.bucket p in
    (ap (λ ks. get_or ks j 0) r.0, ap (λ vs. get_or vs j 0) r.1)

-- In every state that the threads reach from a bucket on which no call runs, no step changes the key
-- or the value of a slot that is marked MAP_VALID.
pub valid_entry_fixed :
    (b : Bucket) (s : System) (t j : ℕ)
    → Steps (quiet b) s
    → map_at s.bucket.snapshot.map j ≡ map_valid
    → (get_or (advance s t).bucket.key j 0 ≡ get_or s.bucket.key j 0)
      × (get_or (advance s t).bucket.val j 0 ≡ get_or s.bucket.val j 0)
valid_entry_fixed b s t j many valid =
    call_step-entry s t j (s.call t) refl (Steps-Exclusive b s many) valid
