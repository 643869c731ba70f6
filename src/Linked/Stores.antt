-- ===== src/Linked/Stores.antt =====
-- The stores of `clht_put` of `Linked`, and the array that they leave.
use mathlib.Core.Path.{subst}
use clht.Prelude.{
  ℕ, ◌+◌, ◌<◌, ◌≤◌, ◌≡◌, ◌≢◌, ◌⊎◌, sym, ap, ◌∙◌, ◌==◌, List, length, set, Bool-cases, ==→eq, ==→ne,
  inl, inr, arith,
}
use clht.LbRes.Bucket.{lock_free}
use clht.Linked.{Bucket, lock_release_n, store, set_hops}
use clht.Linked.Window.{bucket_at, length-modify, modify-here, modify-there}
use clht.Linked.Locking.{Alike, lock_at, lock_release_n-free}
use clht.Linked.Edit.{Edited}

-- the arrays that a store, and a change of `hops`, leave
module _ (t : List Bucket) (p : ℕ × ℕ) (s : ℕ × ℕ) where
  store-there : (m : ℕ) → p.0 ≢ m → bucket_at (store t p s) m ≡ bucket_at t m
  store-there m ne = modify-there t p.0 m _ ne

  store-here :
      p.0 < length t
      → bucket_at (store t p s) p.0
        ≡ record (bucket_at t p.0) { slots = set (bucket_at t p.0).slots p.1 s }
  store-here h = modify-here t p.0 _ h

  -- a store changes one slot, and no lock and no window
  store-same :
      (m : ℕ)
      → p.0 < length t
      → (lock_at (store t p s) m ≡ lock_at t m)
        × ((bucket_at (store t p s) m).hops ≡ (bucket_at t m).hops)
  store-same m h = elim (Bool-cases (p.0 == m)) [
    | inl e ↦
        subst
          (λ w.
            (lock_at (store t p s) w ≡ lock_at t w)
            × ((bucket_at (store t p s) w).hops ≡ (bucket_at t w).hops))
          (==→eq p.0 m e) (ap (λ b. b.lock) (store-here h), ap (λ b. b.hops) (store-here h))
    | inr e ↦
        let there = store-there m (==→ne p.0 m e) in
        (ap (λ b. b.lock) there, ap (λ b. b.hops) there)
  ]

-- a change of `hops` keeps locks and slots
set_hops-same :
    (t : List Bucket) (i n m : ℕ)
    → i < length t
    → (lock_at (set_hops t i n) m ≡ lock_at t m)
      × ((bucket_at (set_hops t i n) m).slots ≡ (bucket_at t m).slots)
set_hops-same t i n m h = elim (Bool-cases (i == m)) [
  | inl e ↦
      subst
        (λ w.
          (lock_at (set_hops t i n) w ≡ lock_at t w)
          × ((bucket_at (set_hops t i n) w).slots ≡ (bucket_at t w).slots))
        (==→eq i m e)
        (ap (λ b. b.lock) (modify-here t i _ h), ap (λ b. b.slots) (modify-here t i _ h))
  | inr e ↦
      let there = modify-there t i m (λ b. record b { hops = n }) (==→ne i m e) in
      (ap (λ b. b.lock) there, ap (λ b. b.slots) there)
]

-- The array w is t, but for the window of bucket i, which has n, and for the l locks from i on.
pub record Ready (t : List Bucket) (i n l : ℕ) (w : List Bucket) : Type 0 where
  pub size : length w ≡ length t
  pub locks : (m : ℕ) → (m < i) ⊎ (i + l ≤ m) → lock_at w m ≡ lock_free
  pub slots : (m : ℕ) → (bucket_at w m).slots ≡ (bucket_at t m).slots
  pub hops_here : (bucket_at w i).hops ≡ n
  pub hops_there : (m : ℕ) → m ≢ i → (bucket_at w m).hops ≡ (bucket_at t m).hops

-- The store into the free slot, and the release of the locks.
pub stored-Edited :
    (t w : List Bucket) (i n l : ℕ) (p : ℕ × ℕ) (k v : ℕ)
    → Ready t i n l w
    → i + l ≤ length t
    → p.0 < length t
    → Edited t i n p k v (lock_release_n l i (store w p (k, v)))
stored-Edited t w i n l p k v x fits inside =
    let inside' : p.0 < length w = omega (arith, inside, x.size) in
    let w' = store w p (k, v) in
    let size' : length w' ≡ length t = length-modify w p.0 _ ∙ x.size in
    let (y, unlocked) =
      lock_release_n-free l i w' (omega (arith, fits, size'))
        (λ m o. (store-same w p (k, v) m inside').0 ∙ x.locks m o) in
    record {
      size = y.size ∙ size';
      unlocked = unlocked;
      here =
          y.slots p.0
          ∙ ap (λ b. b.slots) (store-here w p (k, v) inside')
          ∙ ap (λ xs. set xs p.1 (k, v)) (x.slots p.0);
      there = λ m ne.
          y.slots m ∙ ap (λ b. b.slots) (store-there w p (k, v) m (λ e. ne (sym e))) ∙ x.slots m;
      hops_here = y.hops i ∙ (store-same w p (k, v) i inside').1 ∙ x.hops_here;
      hops_there = λ m ne. y.hops m ∙ (store-same w p (k, v) m inside').1 ∙ x.hops_there m ne;
    }

-- the window grows before the store
pub set_hops-Ready :
    (t u : List Bucket) (i n l : ℕ)
    → Alike t u
    → i < length t
    → ((m : ℕ) → (m < i) ⊎ (i + l ≤ m) → lock_at u m ≡ lock_free)
    → Ready t i n l (set_hops u i n)
set_hops-Ready t u i n l x h free =
    let h' : i < length u = omega (arith, h, x.size) in
    record {
      size = length-modify u i _ ∙ x.size;
      locks = λ m o. (set_hops-same u i n m h').0 ∙ free m o;
      slots = λ m. (set_hops-same u i n m h').1 ∙ x.slots m;
      hops_here = ap (λ b. b.hops) (modify-here u i _ h');
      hops_there = λ m ne. ap (λ b. b.hops) (modify-there u i m _ (λ e. ne (sym e))) ∙ x.hops m;
    }
