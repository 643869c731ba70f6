-- ===== src/LockIns/Threads/Reachable.antt =====
-- What holds of every state that the threads on a bin can reach, in any order of their steps.
use mathlib.Core.Path.{subst}
use clht.Prelude.{
  ℕ, assign, assign-here, assign-there, ◌≡◌, ◌≢◌, ◌==◌, refl, sym, ap, ◌∙◌, true, false, some, none,
  Bool-cases, inl, inr, arith,
}
use clht.LockIns.{Bin, Call, idle}
use clht.LockIns.Local.{IsValid, holds_lock, owns, Knows, PutKnows, RemoveKnows, Fixed}
use clht.LockIns.Moves.{SlotMoves, call_step-SlotMoves}
use clht.LockIns.Threads.{
  System, advance, Starts, get, put, remove, Step, run, start, Steps, no_step, step_after,
}
use clht.LockIns.Threads.Coherent.{Coherent, advance-Coherent, advance-Fixed}

starts-Knows : (b : Bin) (c : Call) → Starts c → Knows b c
unfolding Knows PutKnows RemoveKnows
starts-Knows b c (get k) = tt
starts-Knows b c (put k v m key) = (key, tt)
starts-Knows b c (remove k key) = (key, tt)

starts-holds_lock : (c : Call) → Starts c → holds_lock c ≡ false
starts-holds_lock c (get k) = refl
starts-holds_lock c (put k v m key) = refl
starts-holds_lock c (remove k key) = refl

starts-owns : (c : Call) → Starts c → owns c ≡ none
starts-owns c (get k) = refl
starts-owns c (put k v m key) = refl
starts-owns c (remove k key) = refl

module _ (s : System) (t : ℕ) (c : Call) (x : Coherent s) (fresh : Starts c) where
  abbrev started : System
  started = record s { call = assign s.call t c }

  held_before : (u : ℕ) → holds_lock (started.call u) ≡ true → holds_lock (s.call u) ≡ true
  held_before u h = elim (Bool-cases (t == u)) [
    | inl e ↦
        let never =
          sym (starts-holds_lock c fresh) ∙ ap holds_lock (sym (assign-here s.call t u c e)) ∙ h in
        absurd (ground arith)
    | inr e ↦ ap holds_lock (sym (assign-there s.call t u c e)) ∙ h
  ]

  owned_before : (u i : ℕ) → owns (started.call u) ≡ some i → owns (s.call u) ≡ some i
  owned_before u i h = elim (Bool-cases (t == u)) [
    | inl e ↦
        let never = sym (starts-owns c fresh) ∙ ap owns (sym (assign-here s.call t u c e)) ∙ h in
        absurd (ground arith)
    | inr e ↦ ap owns (sym (assign-there s.call t u c e)) ∙ h
  ]

  started-Coherent : Coherent started
  started-Coherent = record {
    valid = x.valid;
    knows = λ u. elim (Bool-cases (t == u)) [
      | inl e ↦ subst (Knows s.bin) (sym (assign-here s.call t u c e)) (starts-Knows s.bin c fresh)
      | inr e ↦ subst (Knows s.bin) (sym (assign-there s.call t u c e)) (x.knows u)
    ];
    lock_bit = x.lock_bit;
    locked = λ u h. x.locked u (held_before u h);
    one_holder = λ u w h g. x.one_holder u w (held_before u h) (held_before w g);
    one_owner = λ u w i h g. x.one_owner u w i (owned_before u i h) (owned_before w i g);
  }

-- a bin on which no call runs
abbrev pub quiet : Bin → System
quiet b = record { bin = b; call = λ t. idle }

quiet-Coherent : (b : Bin) → IsValid b → b.lock ≡ 0 → Coherent (quiet b)
unfolding Knows
quiet-Coherent b valid free = record {
  valid = valid;
  knows = λ t. tt;
  lock_bit = omega (arith, free);
  locked = λ t h. absurd (ground arith);
  one_holder = λ t u h g. absurd (ground arith);
  one_owner = λ t u i h g. absurd (ground arith);
}

step-Coherent : {s u : System} → Step s u → Coherent s → Coherent u
step-Coherent (run {s} t) x = advance-Coherent s x t
step-Coherent (start {s} t {c} over fresh) x = started-Coherent s t c x fresh

-- From a valid bin whose lock is free and on which no call runs, the threads reach only states in
-- which no key is in two slots, one put at most holds the lock, which is 1 then, and a slot that a
-- remove has blocked is marked KEY_BLCK and is that remove's alone, whatever calls they make and in
-- whatever order their steps come; the keys 0 and KEY_BLCK are not put or removed.
pub Steps-Coherent :
    (b : Bin) (s : System) → IsValid b → b.lock ≡ 0 → Steps (quiet b) s → Coherent s
Steps-Coherent b s valid free no_step = quiet-Coherent b valid free
Steps-Coherent b s valid free (step_after {t = u} many one) =
    step-Coherent one (Steps-Coherent b u valid free many)

-- In every state that the threads reach from a valid bin whose lock is free and on which no call
-- runs, a step does one of these to a slot: it keeps it; it writes, for a put that holds the
-- lock, the value of an empty slot, or appends an empty slot; it turns an empty slot into the
-- entry of the put that holds the lock, whose key no slot has; it blocks, for a remove, the slot
-- of its key, and keeps the value; or it empties the slot that this remove has blocked.
pub advance-SlotMoves :
    (b : Bin) (s : System) (t j : ℕ)
    → IsValid b
    → b.lock ≡ 0
    → Steps (quiet b) s
    → SlotMoves (s.call t) s.bin (advance s t).bin j
advance-SlotMoves b s t j valid free many =
    let x = Steps-Coherent b s valid free many in
    call_step-SlotMoves s.bin (s.call t) j x.valid (x.knows t)

-- In every state that the threads reach from a valid bin whose lock is free and on which no call runs,
-- no step of another thread changes a slot between the compare-and-swap of a remove that blocks it
-- and the write that empties it.
pub blocked_slot-Fixed :
    (b : Bin) (s : System) (t u i : ℕ)
    → IsValid b
    → b.lock ≡ 0
    → Steps (quiet b) s
    → t ≢ u
    → owns (s.call u) ≡ some i
    → Fixed s.bin (advance s t).bin i
blocked_slot-Fixed b s t u i valid free many ne h =
    advance-Fixed s (Steps-Coherent b s valid free many) t u i ne h
