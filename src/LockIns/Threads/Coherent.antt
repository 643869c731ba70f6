-- ===== src/LockIns/Threads/Coherent.antt =====
-- The invariant of the threads on a bin, and that a step of one of them keeps it.
use mathlib.Core.Path.{subst}
use clht.Prelude.{
  some_injective, ℕ, assign-here, assign-there, ◌≤◌, ◌≡◌, ◌≢◌, ◌⊎◌, ◌==◌, sym, ap, ◌∙◌, true, false,
  some, Bool-cases, inl, inr, ==→eq, ==→ne, arith,
}
use clht.LockIns.{
  key_blck, Bin, key_at, look, look_next, block, take_val, clear, removed, Call, idle, getting,
  putting, removing, call_step,
}
use clht.LockIns.Local.{IsValid, holds_lock, owns, Knows, RemoveKnows, Knows-stable, Fixed}
use clht.LockIns.Progress.{call_step-Knows}
use clht.LockIns.Locks.{LockMoves, kept, taken, freed, call_step-LockMoves}
use clht.LockIns.Effects.{call_step-IsValid, call_step-Shrinks, call_step-Fixed, call_step-owns}
use clht.LockIns.Threads.{System, advance}

-- No key is in two slots, each call knows what it relies on, the lock is taken by one put at most, and
-- a blocked slot by one remove.
pub record Coherent (s : System) : Type 0 where
  pub valid : IsValid s.bin
  pub knows : (t : ℕ) → Knows s.bin (s.call t)
  pub lock_bit : s.bin.lock ≤ 1
  pub locked : (t : ℕ) → holds_lock (s.call t) ≡ true → s.bin.lock ≡ 1
  pub one_holder : (t u : ℕ) → holds_lock (s.call t) ≡ true → holds_lock (s.call u) ≡ true → t ≡ u
  pub one_owner : (t u i : ℕ) → owns (s.call t) ≡ some i → owns (s.call u) ≡ some i → t ≡ u

-- the slot that a remove owns is blocked
pub owned-blocked :
    (b : Bin) (t : Call) (i : ℕ) → Knows b t → owns t ≡ some i → key_at b i ≡ key_blck
unfolding Knows RemoveKnows
owned-blocked b idle i x h = absurd (ground arith)
owned-blocked b (getting k p) i x h = absurd (ground arith)
owned-blocked b (putting k v m p) i x h = absurd (ground arith)
owned-blocked b (removing k (look j)) i x h = absurd (ground arith)
owned-blocked b (removing k (look_next j)) i x h = absurd (ground arith)
owned-blocked b (removing k (block j)) i x h = absurd (ground arith)
owned-blocked b (removing k (take_val j)) i x h = ap (key_at b) (sym (some_injective h)) ∙ x.1
owned-blocked b (removing k (clear j v)) i x h = ap (key_at b) (sym (some_injective h)) ∙ x.1.0
owned-blocked b (removing k (removed v)) i x h = absurd (ground arith)

module _ (s : System) (x : Coherent s) (t : ℕ) where
  abbrev stepped : Call
  stepped = (call_step s.bin (s.call t)).0

  lock_moves :
      LockMoves s.bin.lock (advance s t).bin.lock (holds_lock (s.call t)) (holds_lock stepped)
  lock_moves = call_step-LockMoves s.bin (s.call t) x.lock_bit

  others_unlocked : (u : ℕ) → t ≢ u → holds_lock (s.call u) ≡ true → holds_lock (s.call t) ≡ false
  others_unlocked u ne h = elim (Bool-cases (holds_lock (s.call t))) [
    | inl e ↦ absurd (ne (x.one_holder t u e h))
    | inr e ↦ e
  ]

  -- A slot that a remove has blocked is left alone by the other threads.
  pub advance-Fixed : (u i : ℕ) → t ≢ u → owns (s.call u) ≡ some i → Fixed s.bin (advance s t).bin i
  advance-Fixed u i ne h =
      call_step-Fixed s.bin (s.call t) x.valid (x.knows t) i
        (owned-blocked s.bin (s.call u) i (x.knows u) h) (λ o. ne (x.one_owner t u i o h))

  others_know : (u : ℕ) → t ≢ u → Knows (advance s t).bin (s.call u)
  others_know u ne =
      Knows-stable s.bin (advance s t).bin (s.call u)
        (λ h. call_step-Shrinks s.bin (s.call t) x.valid (x.knows t) (others_unlocked u ne h))
        (λ i h. advance-Fixed u i ne h) (x.knows u)

  Knows-after : (u : ℕ) → Knows (advance s t).bin ((advance s t).call u)
  Knows-after u = elim (Bool-cases (t == u)) [
    | inl e ↦
        subst (Knows (advance s t).bin) (sym (assign-here s.call t u _ e))
          (call_step-Knows s.bin (s.call t) x.valid x.lock_bit (x.knows t))
    | inr e ↦
        subst (Knows (advance s t).bin) (sym (assign-there s.call t u _ e))
          (others_know u (==→ne t u e))
  ]

  lock_bit_after : (advance s t).bin.lock ≤ 1
  lock_bit_after = elim lock_moves [
    | kept e f ↦ omega (arith, e, x.lock_bit)
    | taken e f h g ↦ omega (arith, f)
    | freed e h g ↦ omega (arith, e)
  ]

  -- a thread that holds the lock held it before, or has just found it free
  held_after :
      (u : ℕ)
      → holds_lock ((advance s t).call u) ≡ true
      → ((holds_lock (s.call u) ≡ true) × ((advance s t).bin.lock ≡ s.bin.lock))
        ⊎ ((t ≡ u) × (s.bin.lock ≡ 0) × ((advance s t).bin.lock ≡ 1))
  held_after u h = elim (Bool-cases (t == u)) [
    | inl e ↦
        let now = ap holds_lock (sym (assign-here s.call t u stepped e)) ∙ h in
        let same = ==→eq t u e in
        elim lock_moves [
          | kept l f ↦ inl (subst (λ w. holds_lock (s.call w) ≡ true) same (sym f ∙ now), l)
          | taken l m f g ↦ inr (same, l, m)
          | freed l f g ↦ let never = sym g ∙ now in absurd (ground arith)
        ]
    | inr e ↦
        let before = ap holds_lock (sym (assign-there s.call t u stepped e)) ∙ h in
        let ne = ==→ne t u e in
        elim lock_moves [
          | kept l f ↦ inl (before, l)
          | taken l m f g ↦ absurd (omega (arith, l, x.locked u before))
          | freed l f g ↦ absurd (ne (x.one_holder t u f before))
        ]
  ]

  locked_after : (u : ℕ) → holds_lock ((advance s t).call u) ≡ true → (advance s t).bin.lock ≡ 1
  locked_after u h = elim (held_after u h) [
    | inl (before, l) ↦ l ∙ x.locked u before
    | inr (same, l, m) ↦ m
  ]

  one_holder_after :
      (u w : ℕ)
      → holds_lock ((advance s t).call u) ≡ true
      → holds_lock ((advance s t).call w) ≡ true
      → u ≡ w
  one_holder_after u w h g = elim (held_after u h) [
    | inl (a, l) ↦ elim (held_after w g) [
      | inl (c, m) ↦ x.one_holder u w a c
      | inr (same, m, n) ↦ absurd (omega (arith, m, x.locked u a))
    ]
    | inr (eq, l, n) ↦ elim (held_after w g) [
      | inl (c, m) ↦ absurd (omega (arith, l, x.locked w c))
      | inr (same, m, o) ↦ sym eq ∙ same
    ]
  ]

  -- a slot that is owned was owned before, or has just been blocked
  owned_after :
      (u i : ℕ)
      → owns ((advance s t).call u) ≡ some i
      → (owns (s.call u) ≡ some i) ⊎ ((t ≡ u) × (key_at s.bin i ≢ key_blck))
  owned_after u i h = elim (Bool-cases (t == u)) [
    | inl e ↦
        let same = ==→eq t u e in
        elim (call_step-owns s.bin (s.call t) i (x.knows t)
          (ap owns (sym (assign-here s.call t u stepped e)) ∙ h)) [
            | inl o ↦ inl (subst (λ w. owns (s.call w) ≡ some i) same o)
            | inr n ↦ inr (same, n)
          ]
    | inr e ↦ inl (ap owns (sym (assign-there s.call t u stepped e)) ∙ h)
  ]

  one_owner_after :
      (u w i : ℕ)
      → owns ((advance s t).call u) ≡ some i
      → owns ((advance s t).call w) ≡ some i
      → u ≡ w
  one_owner_after u w i h g = elim (owned_after u i h) [
    | inl a ↦ elim (owned_after w i g) [
      | inl c ↦ x.one_owner u w i a c
      | inr (same, n) ↦ absurd (n (owned-blocked s.bin (s.call u) i (x.knows u) a))
    ]
    | inr (eq, n) ↦ elim (owned_after w i g) [
      | inl c ↦ absurd (n (owned-blocked s.bin (s.call w) i (x.knows w) c))
      | inr (same, m) ↦ sym eq ∙ same
    ]
  ]

  pub advance-Coherent : Coherent (advance s t)
  advance-Coherent = record {
    valid = call_step-IsValid s.bin (s.call t) x.valid (x.knows t);
    knows = Knows-after;
    lock_bit = lock_bit_after;
    locked = locked_after;
    one_holder = one_holder_after;
    one_owner = one_owner_after;
  }
