-- ===== src/LbRes/Bucket/Remove.antt =====
-- What the loop of `clht_remove` writes.
use clht.Prelude.{
  ℕ, zero, suc, ◌+◌, ◌≡◌, refl, ap, ◌==◌, Option, none, some, List, [], ◌∷◌, ◌++◌, length,
  get_elem?, set, arith, Bool-cases, inl, inr, false, ==→eq,
}
use clht.Slots.{Slot, count}
use clht.Slots.Laws.{count-append}
use clht.LbRes.Bucket.{Chain, last, link, walk, lock_of, remove_slots, remove_chain}

-- a slot of `xs` with key `k` and value `v` was emptied
pub record Emptied (k : ℕ) (xs : List Slot) (v : ℕ) (ys : List Slot) : Type 0 where
  pub place : ℕ
  pub had : get_elem? xs place ≡ some (k, v)
  pub written : ys ≡ set xs place (0, v)

get_elem?-append_left :
    (xs ys : List Slot) (i : ℕ) (s : Slot)
    → get_elem? xs i ≡ some s
    → get_elem? (xs ++ ys) i ≡ some s
get_elem?-append_left [] ys i s h = ground arith
get_elem?-append_left (x ∷ xs) ys zero s h = h
get_elem?-append_left (x ∷ xs) ys (suc i) s h = get_elem?-append_left xs ys i s h

set-append_left :
    (xs ys : List Slot) (i : ℕ) (s t : Slot)
    → get_elem? xs i ≡ some s
    → set (xs ++ ys) i t ≡ set xs i t ++ ys
set-append_left [] ys i s t h = ground arith
set-append_left (x ∷ xs) ys zero s t h = refl
set-append_left (x ∷ xs) ys (suc i) s t h = ap (λ r. x ∷ r) (set-append_left xs ys i s t h)

get_elem?-append_right :
    (xs ys : List Slot) (i : ℕ) → get_elem? (xs ++ ys) (length xs + i) ≡ get_elem? ys i
get_elem?-append_right [] ys i = ground arith
get_elem?-append_right (x ∷ xs) ys i = ground (arith, get_elem?-append_right xs ys i)

set-append_right :
    (xs ys : List Slot) (i : ℕ) (t : Slot) → set (xs ++ ys) (length xs + i) t ≡ xs ++ set ys i t
set-append_right [] ys i t = ground arith
set-append_right (x ∷ xs) ys i t = ground (arith, set-append_right xs ys i t)

Emptied-append_left :
    {k v : ℕ} {xs zs : List Slot} (ys : List Slot)
    → Emptied k xs v zs
    → Emptied k (xs ++ ys) v (zs ++ ys)
Emptied-append_left {k} {v} {xs} ys e = record {
  place = e.place;
  had = get_elem?-append_left xs ys e.place _ e.had;
  written = rw (e.written, set-append_left xs ys e.place _ (0, v) e.had);
}

Emptied-append_right :
    {k v : ℕ} {ys zs : List Slot} (xs : List Slot)
    → Emptied k ys v zs
    → Emptied k (xs ++ ys) v (xs ++ zs)
Emptied-append_right {k} {v} {ys} xs e = record {
  place = length xs + e.place;
  had = rw get_elem?-append_right e.had;
  written = rw (e.written, set-append_right);
}

-- the result of the loop over `xs`
abbrev pub Removes : ℕ → List Slot → Option (ℕ × List Slot) → Type 0
Removes k xs none = count k xs ≡ 0
Removes k xs (some r) = Emptied k xs r.0 r.1

remove_slots-Removes : (k : ℕ) (xs : List Slot) → Removes k xs (remove_slots k xs)
unfolding remove_slots count
remove_slots-Removes k [] = refl
remove_slots-Removes k (s ∷ xs) = elim (Bool-cases (s.0 == k)) [
  | inl e ↦
      rw e (record { place = 0; had = ap (λ t. some (t, s.1)) (==→eq s.0 k e); written = refl })
  | inr e ↦ rw e (step e (remove_slots k xs) (remove_slots-Removes k xs))
]
  where
    step :
        (s.0 == k) ≡ false
        → (r : Option (ℕ × List Slot)) → Removes k xs r
        → Removes k (s ∷ xs) (elim r [ none ↦ none | some q ↦ some (q.0, s ∷ q.1) ])
    step e none h = ground arith
    step e (some q) h = Emptied-append_right (s ∷ []) h

-- The loop over the buckets empties one slot with the key if there is one, and keeps the lock.
abbrev pub RemovesChain : ℕ → Chain → Option (ℕ × Chain) → Type 0
RemovesChain k c none = count k (walk c) ≡ 0
RemovesChain k c (some r) = Emptied k (walk c) r.0 (walk r.1) × (lock_of r.1 ≡ lock_of c)

pub remove_chain-Removes : (k : ℕ) (c : Chain) → RemovesChain k c (remove_chain k c)
unfolding remove_chain walk lock_of
remove_chain-Removes k (last b) = step (remove_slots k b.slots) (remove_slots-Removes k b.slots)
  where
    step :
        (r : Option (ℕ × List Slot))
        → Removes k b.slots r
        → RemovesChain k
            (last b)
            (elim r [ none ↦ none | some q ↦ some (q.0, last (record b { slots = q.1 })) ])
    step none h = h
    step (some q) h = (h, refl)
remove_chain-Removes k (link b c) =
    step (remove_slots k b.slots) (remove_slots-Removes k b.slots) (remove_chain k c)
      (remove_chain-Removes k c)
  where
    step :
        (r : Option (ℕ × List Slot))
        → Removes k b.slots r
        → (t : Option (ℕ × Chain)) → RemovesChain k c t
        → RemovesChain k (link b c) (elim r [
          | some q ↦ some (q.0, link (record b { slots = q.1 }) c)
          | none ↦ elim t [ none ↦ none | some q ↦ some (q.0, link b q.1) ]
        ])
    step (some q) h t g = (Emptied-append_left (walk c) h, refl)
    step none h none g = rw count-append (omega arith)
    step none h (some q) g = (Emptied-append_right b.slots g.0, refl)
