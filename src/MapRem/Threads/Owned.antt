-- ===== src/MapRem/Threads/Owned.antt =====
-- The invariant of the threads on a bucket, and that a step of one of them keeps it.
use mathlib.Core.Path.{subst}
use clht.Prelude.{
  ℕ, assign-here, assign-there, ◌≡◌, ◌≢◌, ◌⊎◌, ◌==◌, sym, ap, ◌∙◌, some, Bool-cases, inl, inr,
  ==→eq, ==→ne,
}
use clht.MapRem.{state, Call, call_step}
use clht.MapRem.Local.{IsWhole, Knows, Knows-Stays, Stays, owns}
use clht.MapRem.Slots.{call_step-Stays}
use clht.MapRem.Progress.{call_step-IsWhole, call_step-Knows}
use clht.MapRem.Owners.{IsMarked, Unmarked, owned-IsMarked, call_step-owns}
use clht.MapRem.Threads.{System, advance}

-- The arrays are whole, each call knows what it relies on, and no two threads own the same slot.
pub record Owned (s : System) : Type 0 where
  pub whole : IsWhole s.bucket
  pub knows : (t : ℕ) → Knows s.bucket (s.call t)
  pub alone : (t u i : ℕ) → owns (s.call t) ≡ some i → owns (s.call u) ≡ some i → t ≡ u

clash {ℓ} : {A : Type ℓ} (m : ℕ) → IsMarked m → Unmarked m → A
clash m x (inl e) = absurd (x.0 e)
clash m x (inr e) = absurd (x.1 e)

module _ (s : System) (x : Owned s) (t : ℕ) where
  abbrev stepped : Call
  stepped = (call_step s.bucket (s.call t)).0

  -- A step of one thread leaves a slot alone that another thread owns.
  pub advance-Stays :
      (u i : ℕ) → t ≢ u → owns (s.call u) ≡ some i → Stays i s.bucket (advance s t).bucket
  advance-Stays u i ne h =
      let marked = owned-IsMarked s.bucket (s.call u) i (x.knows u) h in
      call_step-Stays s.bucket (s.call t) i (λ o. ne (x.alone t u i o h)) marked.0 marked.1

  Knows-after : (u : ℕ) → Knows (advance s t).bucket ((advance s t).call u)
  Knows-after u = elim (Bool-cases (t == u)) [
    | inl e ↦
        subst (Knows (advance s t).bucket) (sym (assign-here s.call t u _ e))
          (call_step-Knows s.bucket (s.call t) x.whole (x.knows t))
    | inr e ↦ subst (Knows (advance s t).bucket) (sym (assign-there s.call t u _ e)) (
        Knows-Stays s.bucket (advance s t).bucket (s.call u)
          (λ i h. advance-Stays u i (==→ne t u e) h) (x.knows u))
  ]

  -- a slot that is owned was owned before, or was not marked
  owned_after :
      (u i : ℕ)
      → owns ((advance s t).call u) ≡ some i
      → (owns (s.call u) ≡ some i) ⊎ ((t ≡ u) × Unmarked (state s.bucket i))
  owned_after u i h = elim (Bool-cases (t == u)) [
    | inl e ↦
        let same = ==→eq t u e in
        elim (call_step-owns s.bucket (s.call t) i
          (ap owns (sym (assign-here s.call t u stepped e)) ∙ h)) [
            | inl o ↦ inl (subst (λ w. owns (s.call w) ≡ some i) same o)
            | inr n ↦ inr (same, n)
          ]
    | inr e ↦ inl (ap owns (sym (assign-there s.call t u stepped e)) ∙ h)
  ]

  alone_after :
      (u w i : ℕ)
      → owns ((advance s t).call u) ≡ some i
      → owns ((advance s t).call w) ≡ some i
      → u ≡ w
  alone_after u w i h g = elim (owned_after u i h) [
    | inl a ↦ elim (owned_after w i g) [
      | inl c ↦ x.alone u w i a c
      | inr (same, n) ↦
          clash (state s.bucket i) (owned-IsMarked s.bucket (s.call u) i (x.knows u) a) n
    ]
    | inr (eq, n) ↦ elim (owned_after w i g) [
      | inl c ↦ clash (state s.bucket i) (owned-IsMarked s.bucket (s.call w) i (x.knows w) c) n
      | inr (same, m) ↦ sym eq ∙ same
    ]
  ]

  pub advance-Owned : Owned (advance s t)
  advance-Owned = record {
    whole = call_step-IsWhole s.bucket (s.call t) x.whole;
    knows = Knows-after;
    alone = alone_after;
  }
