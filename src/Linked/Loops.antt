-- ===== src/Linked/Loops.antt =====
-- The loops of `clht_put` of `Linked`.
use mathlib.Core.Path.{subst}
use clht.Prelude.{
  some_injective, ℕ, zero, suc, ◌+◌, ◌<◌, ◌≤◌, ◌≡◌, ◌≢◌, ◌⊎◌, refl, sym, ap, ◌∙◌, ◌==◌, Option,
  none, some, List, length, get_elem?, done, Bool-cases, ==→eq, ==→ne, Option-cases, inl, inr,
  arith,
}
use clht.Slots.{find, count}
use clht.LbRes.Bucket.{lock_free, lock_update, empty_slot}
use clht.LbRes.Bucket.Search.{empty_slot-some, empty_slot-none}
use clht.Linked.{Bucket, modify, set_lock, vacant, remember, scan_from, free_from}
use clht.Linked.Window.{
  bucket_at, at-bucket_at, bound_at, look, look-alike, look-none, look-tail, exists_slots-none,
}
use clht.Linked.Locking.{
  Alike, Alike-refl, Alike-trans, set_lock-Alike, lock_at, lock_at-there, lock_acq-free,
}

-- slot p.1 of bucket p.0 is free, and the bucket is one of the n from i on
pub record IsRoom (t : List Bucket) (i n : ℕ) (p : ℕ × ℕ) : Type 0 where
  pub low : i ≤ p.0
  pub high : p.0 < i + n
  pub old : ℕ
  pub empty : get_elem? (bucket_at t p.0).slots p.1 ≡ some (0, old)

IsRoom-Alike :
    (t u : List Bucket) (i n : ℕ) (p : ℕ × ℕ)
    → Alike t u
    → IsRoom u (suc i) n p
    → IsRoom t i (suc n) p
IsRoom-Alike t u i n p x r = record {
  low = omega (arith, r.low);
  high = omega (arith, r.high);
  old = r.old;
  empty = ap (λ xs. get_elem? xs p.1) (sym (x.slots p.0)) ∙ r.empty;
}

first-IsRoom :
    (t : List Bucket) (i n j : ℕ)
    → empty_slot 0 (bucket_at t i).slots ≡ some j
    → IsRoom t i (suc n) (i, j)
first-IsRoom t i n j e =
    let v = empty_slot-some 0 (bucket_at t i).slots j e in
    let here : v.place ≡ j = omega (arith, v.at_place) in
    record {
      low = omega arith;
      high = omega arith;
      old = v.old;
      empty = ap (get_elem? (bucket_at t i).slots) (sym here) ∙ v.empty;
    }

remember-cases :
    (e : Option (ℕ × ℕ)) (i : ℕ) (o : Option ℕ) (p : ℕ × ℕ)
    → remember e i o ≡ some p
    → (e ≡ some p) ⊎ ((j : ℕ) × (o ≡ some j) × (some (i, j) ≡ some p))
remember-cases (some q) i o p h = inl h
remember-cases none i (some j) p h = inr (j, refl, h)
remember-cases none i none p h = inl h

-- the n buckets from i on have no empty slot
abbrev pub Full : List Bucket → ℕ → ℕ → Type 0
Full t i n = (m : ℕ) → i ≤ m → m < i + n → count 0 (bucket_at t m).slots ≡ 0

Full-suc :
    (t u : List Bucket) (i n : ℕ)
    → Alike t u
    → empty_slot 0 (bucket_at u i).slots ≡ none
    → Full u (suc i) n
    → Full t i (suc n)
Full-suc t u i n x e rest m low high = elim (Bool-cases (i == m)) [
  | inl f ↦
      subst (λ w. count 0 (bucket_at t w).slots ≡ 0) (==→eq i m f)
        (ap (count 0) (sym (x.slots i)) ∙ empty_slot-none 0 (bucket_at u i).slots e)
  | inr f ↦
      let ne = ==→ne i m f in
      ap (count 0) (sym (x.slots m)) ∙ rest m (ground arith) (omega (arith, high))
]

remember-none :
    (e : Option (ℕ × ℕ)) (i : ℕ) (o : Option ℕ) → remember e i o ≡ none → (e ≡ none) × (o ≡ none)
remember-none (some q) i o h = absurd (ground arith)
remember-none none i (some j) h = absurd (ground arith)
remember-none none i none h = (refl, refl)

-- What the first loop leaves, where it does not find the key.
pub record Scanned (t : List Bucket) (i n : ℕ) (e r : Option (ℕ × ℕ)) (u : List Bucket)
    : Type 0 where
  pub alike : Alike t u
  pub locks : (m : ℕ) → (m < i) ⊎ (i + n ≤ m) → lock_at u m ≡ lock_at t m
  pub room : (p : ℕ × ℕ) → r ≡ some p → (e ≡ some p) ⊎ IsRoom t i n p
  pub full : r ≡ none → (e ≡ none) × Full t i n

outside : (i n m : ℕ) → (m < i) ⊎ (i + suc n ≤ m) → (i ≢ m) × ((m < suc i) ⊎ (suc i + n ≤ m))
outside i n m (inl l) = (λ e. omega (arith, l, e), inl (omega (arith, l)))
outside i n m (inr l) = (λ e. omega (arith, l, e), inr (omega (arith, l)))

pub scan_from-Scanned :
    (n k l : ℕ) (e : Option (ℕ × ℕ)) (t : List Bucket) (i : ℕ)
    → i + n ≤ length t
    → ((m : ℕ) → i ≤ m → lock_at t m ≡ lock_free)
    → look n k t i ≡ none
    → (r : Option (ℕ × ℕ)) × (u : List Bucket) × (scan_from n k l e t i ≡ done (vacant r, u))
      × Scanned t i n e r u
unfolding scan_from
scan_from-Scanned zero k l e t i h free gone = (
  e,
  t,
  refl,
  record {
    alike = Alike-refl t;
    locks = λ m o. refl;
    room = λ p f. inl f;
    full = λ f. (f, λ m low high. absurd (omega (arith, low, high)));
  },
)
scan_from-Scanned (suc n) k l e t i h free gone =
    let inside : i < length t = omega (arith, h) in
    let t' = modify t i (set_lock lock_update) in
    let x = set_lock-Alike t i lock_update inside in
    let absent : bound_at k t' i ≡ none =
      ap (λ xs. find k xs) (x.slots i)
      ∙ look-none (suc n) k t i i gone (omega arith) (omega arith) in
    let rest : look n k t' (suc i) ≡ none =
      look-alike n k t t' (suc i) (λ m. ap (λ xs. find k xs) (x.slots m))
      ∙ look-tail n k t i gone in
    let (r, u, run, s) =
      scan_from-Scanned n k (suc l) (remember e i (empty_slot 0 (bucket_at t' i).slots)) t' (suc i)
        (omega (arith, h, x.size))
        (λ m low.
          lock_at-there t i m lock_update (λ q. omega (arith, q, low))
          ∙ free m (omega (arith, low)))
        rest in
    (
      r,
      u,
      rw
          (
            lock_acq-free t i inside (free i (omega arith)),
            at-bucket_at t' i (omega (arith, inside, x.size)),
            exists_slots-none k (bucket_at t' i).slots absent,
          )
          run,
      record {
        alike = Alike-trans t t' u x s.alike;
        locks = λ m o.
            let (ne, far) = outside i n m o in s.locks m far ∙ lock_at-there t i m lock_update ne;
        room = λ p f. elim (s.room p f) [
          | inr q ↦ inr (IsRoom-Alike t t' i n p x q)
          | inl q ↦ elim (remember-cases e i (empty_slot 0 (bucket_at t' i).slots) p q) [
            | inl g ↦ inl g
            | inr (j, g, w) ↦
                let here = ap (empty_slot 0) (sym (x.slots i)) ∙ g in
                inr (subst (IsRoom t i (suc n)) (some_injective w) (first-IsRoom t i n j here))
          ]
        ];
        full = λ f.
            let (g, rest_full) = s.full f in
            let (nothing, e_none) = remember-none e i (empty_slot 0 (bucket_at t' i).slots) g in
            (nothing, Full-suc t t' i n x e_none rest_full);
      },
    )

-- What the second loop leaves.
pub record Freed (t : List Bucket) (i n : ℕ) (r : Option (ℕ × ℕ)) (u : List Bucket) : Type 0 where
  pub alike : Alike t u
  pub low : (m : ℕ) → m < i → lock_at u m ≡ lock_at t m
  pub room :
      (p : ℕ × ℕ) → r ≡ some p → IsRoom t i n p × ((m : ℕ) → p.0 < m → lock_at u m ≡ lock_at t m)
  pub full : r ≡ none → Full t i n × ((m : ℕ) → i + n ≤ m → lock_at u m ≡ lock_at t m)

pub free_from-Freed :
    (n : ℕ) (t : List Bucket) (i : ℕ)
    → i + n ≤ length t
    → ((m : ℕ) → i ≤ m → lock_at t m ≡ lock_free)
    → (r : Option (ℕ × ℕ)) × (u : List Bucket) × (free_from n t i ≡ done (r, u)) × Freed t i n r u
unfolding free_from
free_from-Freed zero t i h free = (
  none,
  t,
  refl,
  record {
    alike = Alike-refl t;
    low = λ m l. refl;
    room = λ p f. absurd (ground arith);
    full = λ f. (λ m low high. absurd (omega (arith, low, high)), λ m l. refl);
  },
)
free_from-Freed (suc n) t i h free =
    let inside : i < length t = omega (arith, h) in
    let t' = modify t i (set_lock lock_update) in
    let x = set_lock-Alike t i lock_update inside in
    let taken = lock_acq-free t i inside (free i (omega arith)) in
    let read = at-bucket_at t' i (omega (arith, inside, x.size)) in
    let there : (m : ℕ) → i ≢ m → lock_at t' m ≡ lock_at t m =
      λ m ne. lock_at-there t i m lock_update ne in
    elim (Option-cases (empty_slot 0 (bucket_at t' i).slots)) [
      | inr (j, e) ↦
          let here = ap (empty_slot 0) (sym (x.slots i)) ∙ e in
          (
            some (i, j),
            t',
            rw (taken, read, e),
            record {
              alike = x;
              low = λ m l. there m (λ q. omega (arith, q, l));
              room = λ p f.
                  let at_p = some_injective f in
                  (
                    subst (IsRoom t i (suc n)) at_p (first-IsRoom t i n j here),
                    λ m l. there m (λ q. omega (arith, q, l, ap (λ w. w.0) at_p)),
                  );
              full = λ f. absurd (ground arith);
            },
          )
      | inl e ↦
          let (r, u, run, s) =
            free_from-Freed n t' (suc i) (omega (arith, h, x.size))
              (λ m low. there m (λ q. omega (arith, q, low)) ∙ free m (omega (arith, low))) in
          (
            r,
            u,
            rw (taken, read, e) run,
            record {
              alike = Alike-trans t t' u x s.alike;
              low = λ m l. s.low m (omega (arith, l)) ∙ there m (λ q. omega (arith, q, l));
              room = λ p f.
                  let (q, beyond) = s.room p f in
                  (
                    IsRoom-Alike t t' i n p x q,
                    λ m l. beyond m l ∙ there m (λ w. omega (arith, w, l, q.low)),
                  );
              full = λ f.
                  let (rest_full, beyond) = s.full f in
                  (
                    Full-suc t t' i n x e rest_full,
                    λ m l. beyond m (omega (arith, l)) ∙ there m (λ w. omega (arith, w, l)),
                  );
            },
          )
    ]
