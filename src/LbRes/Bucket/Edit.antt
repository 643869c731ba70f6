-- ===== src/LbRes/Bucket/Edit.antt =====
-- The writes to a chain, as writes to the list of its slots; none of them touches the lock.
use clht.Prelude.{
  ℕ, zero, suc, ◌-◌, ◌≡◌, refl, ltb, if◌then◌else◌, List, [], ◌∷◌, ◌++◌, length, set, arith,
  Bool-cases, inl, inr,
}
use mathlib.Core.List.{append_assoc}
use clht.Slots.{Slot}
use clht.LbRes.Bucket.{Bucket, Chain, last, link, walk, lock_of, with_lock, store, append_bucket}

pub walk-with_lock : (l : ℕ) (c : Chain) → walk (with_lock l c) ≡ walk c
unfolding walk with_lock
walk-with_lock l (last b) = refl
walk-with_lock l (link b c) = refl

pub lock_of-with_lock : (l : ℕ) (c : Chain) → lock_of (with_lock l c) ≡ l
unfolding lock_of with_lock
lock_of-with_lock l (last b) = refl
lock_of-with_lock l (link b c) = refl

set-append :
    {A : Type 0} (xs ys : List A) (i : ℕ) (a : A)
    → set (xs ++ ys) i a
      ≡ (if ltb i (length xs) then set xs i a ++ ys else xs ++ set ys (i - length xs) a)
set-append [] ys i a = ground arith
set-append (x ∷ xs) ys zero a = ground arith
set-append (x ∷ xs) ys (suc i) a = ground (arith, set-append xs ys i a)

pub walk-store : (c : Chain) (i : ℕ) (s : Slot) → walk (store c i s) ≡ set (walk c) i s
unfolding walk store
walk-store (last b) i s = refl
walk-store (link b c) i s = elim (Bool-cases (ltb i (length b.slots))) [
  | inl e ↦ rw (set-append, e)
  | inr e ↦ rw (set-append, e, walk-store c (i - length b.slots) s)
]

pub walk-append_bucket : (c : Chain) (b : Bucket) → walk (append_bucket c b) ≡ walk c ++ b.slots
unfolding walk append_bucket
walk-append_bucket (last b) new = refl
walk-append_bucket (link b c) new = rw (walk-append_bucket c new, append_assoc)

pub lock_of-store : (c : Chain) (i : ℕ) (s : Slot) → lock_of (store c i s) ≡ lock_of c
unfolding lock_of store
lock_of-store (last b) i s = refl
lock_of-store (link b c) i s = ground arith

pub lock_of-append_bucket : (c : Chain) (b : Bucket) → lock_of (append_bucket c b) ≡ lock_of c
unfolding lock_of append_bucket
lock_of-append_bucket (last b) new = refl
lock_of-append_bucket (link b c) new = refl
