-- ===== src/Linked/Locking.antt =====
-- Locks that calls of `Linked` take and release.
use mathlib.Core.Path.{subst}
use clht.Prelude.{
  ℕ, zero, suc, ◌+◌, ◌<◌, ◌≤◌, ◌≡◌, ◌≢◌, ◌⊎◌, refl, ap, ◌∙◌, ◌==◌, ltb, ltb→lt, List, length, done,
  Bool-cases, ==→eq, ==→ne, inl, inr, arith,
}
use clht.LbRes.Bucket.{lock_free, lock_update}
use clht.Linked.{Bucket, modify, set_lock, lock_acq, lock_release_n}
use clht.Linked.Window.{bucket_at, at-bucket_at, length-modify, modify-here, modify-there}

-- Two arrays that differ in locks at most.
pub record Alike (t u : List Bucket) : Type 0 where
  pub size : length u ≡ length t
  pub slots : (m : ℕ) → (bucket_at u m).slots ≡ (bucket_at t m).slots
  pub hops : (m : ℕ) → (bucket_at u m).hops ≡ (bucket_at t m).hops

pub Alike-refl : (t : List Bucket) → Alike t t
Alike-refl t = record { size = refl; slots = λ m. refl; hops = λ m. refl }

pub Alike-trans : (t u w : List Bucket) → Alike t u → Alike u w → Alike t w
Alike-trans t u w x y = record {
  size = y.size ∙ x.size;
  slots = λ m. y.slots m ∙ x.slots m;
  hops = λ m. y.hops m ∙ x.hops m;
}

pub set_lock-Alike : (t : List Bucket) (i l : ℕ) → i < length t → Alike t (modify t i (set_lock l))
set_lock-Alike t i l h = record {
  size = length-modify t i (set_lock l);
  slots = λ m. elim (Bool-cases (i == m)) [
    | inl e ↦
        subst (λ k. (bucket_at (modify t i (set_lock l)) k).slots ≡ (bucket_at t k).slots)
          (==→eq i m e) (ap (λ b. b.slots) (modify-here t i (set_lock l) h))
    | inr e ↦ ap (λ b. b.slots) (modify-there t i m (set_lock l) (==→ne i m e))
  ];
  hops = λ m. elim (Bool-cases (i == m)) [
    | inl e ↦
        subst (λ k. (bucket_at (modify t i (set_lock l)) k).hops ≡ (bucket_at t k).hops)
          (==→eq i m e) (ap (λ b. b.hops) (modify-here t i (set_lock l) h))
    | inr e ↦ ap (λ b. b.hops) (modify-there t i m (set_lock l) (==→ne i m e))
  ];
}

abbrev pub lock_at : List Bucket → ℕ → ℕ
lock_at t i = (bucket_at t i).lock

pub lock_at-there :
    (t : List Bucket) (i m l : ℕ) → i ≢ m → lock_at (modify t i (set_lock l)) m ≡ lock_at t m
lock_at-there t i m l ne = ap (λ b. b.lock) (modify-there t i m (set_lock l) ne)

-- A lock that is free is taken.
pub lock_acq-free :
    (t : List Bucket) (i : ℕ)
    → i < length t
    → lock_at t i ≡ lock_free
    → lock_acq t i ≡ done (modify t i (set_lock lock_update))
unfolding lock_acq
lock_acq-free t i h free = rw (at-bucket_at t i h, free)

outside_of : (i n m : ℕ) → i ≢ m → (m < suc i) ⊎ (suc i + n ≤ m) → (m < i) ⊎ (i + suc n ≤ m)
outside_of i n m ne (inl l) = inl (ground arith)
outside_of i n m ne (inr l) = inr (omega (arith, l))

-- Releasing the n locks from bucket i on, where the others are free, leaves all locks free.
pub lock_release_n-free :
    (n i : ℕ) (t : List Bucket)
    → i + n ≤ length t
    → ((m : ℕ) → (m < i) ⊎ (i + n ≤ m) → lock_at t m ≡ lock_free)
    → Alike t (lock_release_n n i t) × ((m : ℕ) → lock_at (lock_release_n n i t) m ≡ lock_free)
unfolding lock_release_n
lock_release_n-free zero i t h free = (
  Alike-refl t,
  λ m. elim (Bool-cases (ltb m i)) [
    | inl e ↦ free m (inl (ltb→lt m i e))
    | inr e ↦ free m (inr (ground arith))
  ],
)
lock_release_n-free (suc n) i t h free =
    let inside : i < length t = omega (arith, h) in
    let t' = modify t i (set_lock lock_free) in
    let x = set_lock-Alike t i lock_free inside in
    let (y, unlocked) = lock_release_n-free n (suc i) t' (omega (arith, h, x.size)) (λ m o.
      elim (Bool-cases (i == m)) [
        | inl e ↦
            subst (λ k. lock_at t' k ≡ lock_free) (==→eq i m e)
              (ap (λ b. b.lock) (modify-here t i (set_lock lock_free) inside))
        | inr e ↦
            let ne = ==→ne i m e in
            lock_at-there t i m lock_free ne ∙ free m (outside_of i n m ne o)
      ]) in
    (Alike-trans t t' (lock_release_n n (suc i) t') x y, unlocked)
