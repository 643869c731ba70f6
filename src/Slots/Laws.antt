-- ===== src/Slots/Laws.antt =====
-- Writes to one slot, as the lookups and the counts see them.
use clht.Prelude.{
  ℕ, zero, suc, ◌+◌, ◌<◌, ◌≤◌, ◌≡◌, ◌≢◌, refl, ◌==◌, if◌then◌else◌, Option, none, some, List, [],
  ◌∷◌, ◌++◌, get_elem?, set, arith,
}
use clht.Slots.{Slot, hit, find, count}

-- the lookup of a concatenation
abbrev pub or_else : Option ℕ → Option ℕ → Option ℕ
or_else none o = o
or_else (some a) o = some a

pub find-append : (q : ℕ) (xs ys : List Slot) → find q (xs ++ ys) ≡ or_else (find q xs) (find q ys)
unfolding find
find-append q [] ys = refl
find-append q (s ∷ xs) ys = ground (arith, find-append q xs ys)

pub count-append : (q : ℕ) (xs ys : List Slot) → count q (xs ++ ys) ≡ count q xs + count q ys
unfolding count
count-append q [] ys = omega arith
count-append q (s ∷ xs) ys = omega (arith, count-append q xs ys)

pub find-eq-none : (q : ℕ) (xs : List Slot) → count q xs ≡ 0 → find q xs ≡ none
unfolding find count
find-eq-none q [] h = refl
find-eq-none q (s ∷ xs) h = ground (arith, find-eq-none q xs)

pub count-eq-zero : (q : ℕ) (xs : List Slot) → find q xs ≡ none → count q xs ≡ 0
unfolding find count
count-eq-zero q [] h = refl
count-eq-zero q (s ∷ xs) h = ground (arith, count-eq-zero q xs)

-- A slot with key `old` is overwritten by (k, v).
pub count-set :
    (q : ℕ) (xs : List Slot) (i old w k v : ℕ)
    → get_elem? xs i ≡ some (old, w)
    → count q (set xs i (k, v)) + hit old q ≡ count q xs + hit k q
unfolding count
count-set q [] i old w k v h = ground arith
count-set q (s ∷ xs) zero old w k v h = ground arith
count-set q (s ∷ xs) (suc i) old w k v h = omega (arith, count-set q xs i old w k v h)

-- Binding a new key in an empty slot.
pub find-set :
    (q : ℕ) (xs : List Slot) (i w k v : ℕ)
    → q ≢ 0
    → get_elem? xs i ≡ some (0, w)
    → count k xs ≡ 0
    → find q (set xs i (k, v)) ≡ (if k == q then some v else find q xs)
unfolding find count
find-set q [] i w k v nz h c = ground arith
find-set q (s ∷ xs) zero w k v nz h c = ground (arith, find-eq-none k xs)
find-set q (s ∷ xs) (suc i) w k v nz h c = ground (arith, find-set q xs i w k v nz h)

pub count_pos : (xs : List Slot) (i k w : ℕ) → get_elem? xs i ≡ some (k, w) → 0 < count k xs
unfolding count
count_pos [] i k w h = ground arith
count_pos (s ∷ xs) zero k w h = ground arith
count_pos (s ∷ xs) (suc i) k w h = omega (arith, count_pos xs i k w h)

-- Emptying the only slot of a key.
pub find-set_empty :
    (q : ℕ) (xs : List Slot) (i w k v : ℕ)
    → q ≢ 0
    → get_elem? xs i ≡ some (k, w)
    → count k xs ≤ 1
    → find q (set xs i (0, v)) ≡ (if k == q then none else find q xs)
unfolding find count
find-set_empty q [] i w k v nz h c = ground arith
find-set_empty q (s ∷ xs) zero w k v nz h c = ground (arith, find-eq-none k xs)
find-set_empty q (s ∷ xs) (suc i) w k v nz h c =
    ground (arith, find-set_empty q xs i w k v nz h, count_pos xs i k w h)

-- The only slot of a key is the one that a lookup reads.
pub find_only :
    (xs : List Slot) (i k v : ℕ)
    → get_elem? xs i ≡ some (k, v)
    → count k xs ≤ 1
    → find k xs ≡ some v
unfolding find count
find_only [] i k v h c = ground arith
find_only (s ∷ xs) zero k v h c = ground arith
find_only (s ∷ xs) (suc i) k v h c = ground (arith, find_only xs i k v h, count_pos xs i k v h)
