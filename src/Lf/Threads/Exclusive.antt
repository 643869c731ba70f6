-- ===== src/Lf/Threads/Exclusive.antt =====
-- A slot that a put has reserved is its own until it publishes it or gives it up.
use mathlib.Core.Path.{subst}
use clht.Prelude.{
  some_injective, assign-here, assign-there, ℕ, ◌==◌, ◌≡◌, ◌≢◌, sym, ◌∙◌, ap, Option, none, some,
  Bool-cases, inl, inr, arith, ==→eq, ==→ne,
}
use clht.Lf.Snapshot.{map_invld, map_insrt, map_at}
use clht.Lf.Bucket.{Bucket}
use clht.Lf.Bucket.Reserved.{
  reserved, Stays, Stays-refl, Own, keeps, frees, takes, put_step-Own, put_step-Stays, Seen,
  remove_step-Seen, remove_step-Stays,
}
use clht.Lf.Threads.{Call, idle, getting, putting, removing, call_step, System, advance}

-- the slot that a call has reserved
abbrev pub holds : Call → Option ℕ
holds idle = none
holds (getting key p) = none
holds (putting key val p) = reserved p
holds (removing key p) = none

unfoldable pub CallSeen : Call → Type 0
CallSeen idle = Unit {0}
CallSeen (getting key p) = Unit {0}
CallSeen (putting key val p) = Unit {0}
CallSeen (removing key p) = Seen p

-- A reserved slot is marked, and one thread holds it.
pub record Exclusive (s : System) : Type 0 where
  pub marked : (t i : ℕ) → holds (s.call t) ≡ some i → map_at s.bucket.snapshot.map i ≡ map_insrt
  pub alone : (t u i : ℕ) → holds (s.call t) ≡ some i → holds (s.call u) ≡ some i → t ≡ u
  pub seen : (t : ℕ) → CallSeen (s.call t)

call_step-Seen : (b : Bucket) (c : Call) → CallSeen c → CallSeen (call_step b c).0
unfolding CallSeen call_step
call_step-Seen b idle seen = tt
call_step-Seen b (getting key p) seen = tt
call_step-Seen b (putting key val p) seen = tt
call_step-Seen b (removing key p) seen = remove_step-Seen key b p seen

call_step-Own :
    (b : Bucket) (c : Call) → Own (holds c) (holds (call_step b c).0) b (call_step b c).1
unfolding call_step
call_step-Own b idle = frees
call_step-Own b (getting key p) = frees
call_step-Own b (putting key val p) = put_step-Own key val b p
call_step-Own b (removing key p) = frees

call_step-Stays :
    (b : Bucket) (c : Call) (j : ℕ)
    → CallSeen c
    → holds c ≢ some j
    → map_at b.snapshot.map j ≡ map_insrt
    → Stays j b (call_step b c).1
unfolding call_step CallSeen
call_step-Stays b idle j seen ne m = Stays-refl j b
call_step-Stays b (getting key p) j seen ne m = Stays-refl j b
call_step-Stays b (putting key val p) j seen ne m =
    put_step-Stays key val b p j ne (λ e. omega (arith, m, e))
call_step-Stays b (removing key p) j seen ne m =
    remove_step-Stays key b p j seen (λ e. omega (arith, m, e))

Own-marked :
    {e f : Option ℕ} {b c : Bucket} (i : ℕ)
    → Own e f b c
    → f ≡ some i
    → (e ≡ some i → map_at b.snapshot.map i ≡ map_insrt)
    → map_at c.snapshot.map i ≡ map_insrt
Own-marked i (keeps k) h m = k i h (m h)
Own-marked i frees h m = absurd (ground arith)
Own-marked {c} i (takes j free now) h m = ap (map_at c.snapshot.map) (sym (some_injective h)) ∙ now

-- A slot that is marked already was reserved before the step.
Own-held :
    {e f : Option ℕ} {b c : Bucket} (i : ℕ)
    → Own e f b c
    → f ≡ some i
    → map_at b.snapshot.map i ≡ map_insrt
    → e ≡ some i
Own-held i (keeps k) h m = h
Own-held i frees h m = absurd (ground arith)
Own-held {b} i (takes j free now) h m =
    let zero_two : map_invld ≡ map_insrt =
      sym free ∙ ap (map_at b.snapshot.map) (some_injective h) ∙ m in
    absurd (omega (arith, zero_two))

module _ (s : System) (x : Exclusive s) (t : ℕ) where
  abbrev before : Bucket
  before = s.bucket

  abbrev after : Bucket
  after = (call_step s.bucket (s.call t)).1

  own : Own (holds (s.call t)) (holds (call_step s.bucket (s.call t)).0) before after
  own = call_step-Own s.bucket (s.call t)

  others_apart : (u i : ℕ) → t ≢ u → holds (s.call u) ≡ some i → holds (s.call t) ≢ some i
  others_apart u i ne h e = ne (x.alone t u i e h)

  -- A step of one thread leaves a slot alone that another thread has reserved.
  pub advance-Stays :
      (u i : ℕ) → t ≢ u → holds (s.call u) ≡ some i → Stays i s.bucket (advance s t).bucket
  advance-Stays u i ne h =
      call_step-Stays s.bucket (s.call t) i (x.seen t) (others_apart u i ne h) (x.marked u i h)

  advance-marked :
      (u i : ℕ)
      → holds ((advance s t).call u) ≡ some i
      → map_at (advance s t).bucket.snapshot.map i ≡ map_insrt
  advance-marked u i h = elim (Bool-cases (t == u)) [
    | inl e ↦ Own-marked i own (ap holds (sym (assign-here s.call t u _ e)) ∙ h) (x.marked t i)
    | inr e ↦
        let held = ap holds (sym (assign-there s.call t u _ e)) ∙ h in
        (advance-Stays u i (==→ne t u e) held).state ∙ x.marked u i held
  ]

  -- the thread that stepped and another one do not hold the same slot
  step_alone :
      (u i : ℕ)
      → t ≢ u
      → holds (call_step s.bucket (s.call t)).0 ≡ some i
      → holds (s.call u) ≡ some i
      → t ≡ u
  step_alone u i ne h g = x.alone t u i (Own-held i own h (x.marked u i g)) g

  advance-alone :
      (u w i : ℕ)
      → holds ((advance s t).call u) ≡ some i
      → holds ((advance s t).call w) ≡ some i
      → u ≡ w
  advance-alone u w i h g = elim (Bool-cases (t == u)) [
    | inl e ↦ elim (Bool-cases (t == w)) [
      | inl f ↦ sym (==→eq t u e) ∙ ==→eq t w f
      | inr f ↦
          sym (==→eq t u e)
          ∙ step_alone w i (==→ne t w f) (ap holds (sym (assign-here s.call t u _ e)) ∙ h)
              (ap holds (sym (assign-there s.call t w _ f)) ∙ g)
    ]
    | inr e ↦ elim (Bool-cases (t == w)) [
      | inl f ↦
          sym (
            step_alone u i (==→ne t u e) (ap holds (sym (assign-here s.call t w _ f)) ∙ g)
              (ap holds (sym (assign-there s.call t u _ e)) ∙ h))
          ∙ ==→eq t w f
      | inr f ↦
          x.alone u w i (ap holds (sym (assign-there s.call t u _ e)) ∙ h)
            (ap holds (sym (assign-there s.call t w _ f)) ∙ g)
    ]
  ]

  -- A step keeps the invariant.
  pub advance-Exclusive : Exclusive (advance s t)
  advance-Exclusive = record {
    marked = advance-marked;
    alone = advance-alone;
    seen = λ u. elim (Bool-cases (t == u)) [
      | inl e ↦
          subst CallSeen (sym (assign-here s.call t u _ e))
            (call_step-Seen s.bucket (s.call t) (x.seen t))
      | inr e ↦ subst CallSeen (sym (assign-there s.call t u _ e)) (x.seen u)
    ];
  }
