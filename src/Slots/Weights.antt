-- ===== src/Slots/Weights.antt =====
-- The sum of the values that a key has in a list of slots. Where a key has one slot at most, its count
-- and this sum say what a lookup finds, in whatever order the slots are.
use clht.Prelude.{
  ℕ, zero, suc, ◌+◌, ◌≤◌, ◌≡◌, refl, ◌==◌, if◌then◌else◌, Option, none, some, List, [], ◌∷◌, ◌++◌,
  get_elem?, set, arith, Bool-cases, inl, inr,
}
use clht.Slots.{Slot, find, count}

-- v if the two keys are the same, else 0
abbrev pub share : ℕ → ℕ → ℕ → ℕ
share a b v = if a == b then v else 0

unfoldable pub weight : ℕ → List Slot → ℕ
weight q [] = 0
weight q (s ∷ xs) = share s.0 q s.1 + weight q xs

pub weight-append : (q : ℕ) (xs ys : List Slot) → weight q (xs ++ ys) ≡ weight q xs + weight q ys
unfolding weight
weight-append q [] ys = omega arith
weight-append q (s ∷ xs) ys = omega (arith, weight-append q xs ys)

pub weight-eq-zero : (q : ℕ) (xs : List Slot) → count q xs ≡ 0 → weight q xs ≡ 0
unfolding weight count
weight-eq-zero q [] h = refl
weight-eq-zero q (s ∷ xs) h = ground (arith, weight-eq-zero q xs)

pub weight-set :
    (q : ℕ) (xs : List Slot) (i old w k v : ℕ)
    → get_elem? xs i ≡ some (old, w)
    → weight q (set xs i (k, v)) + share old q w ≡ weight q xs + share k q v
unfolding weight
weight-set q [] i old w k v h = ground arith
weight-set q (s ∷ xs) zero old w k v h = ground arith
weight-set q (s ∷ xs) (suc i) old w k v h = omega (arith, weight-set q xs i old w k v h)

-- what a lookup finds, from the count and the weight
abbrev pub lookup_of : ℕ → ℕ → Option ℕ
lookup_of n v = if n == 0 then none else some v

pub find-lookup_of :
    (q : ℕ) (xs : List Slot) → count q xs ≤ 1 → find q xs ≡ lookup_of (count q xs) (weight q xs)
unfolding find count weight
find-lookup_of q [] h = refl
find-lookup_of q (s ∷ xs) h = elim (Bool-cases (s.0 == q)) [
  | inl e ↦ ground (arith, weight-eq-zero q xs)
  | inr e ↦ ground (arith, find-lookup_of q xs)
]
