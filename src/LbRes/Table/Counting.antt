-- ===== src/LbRes/Table/Counting.antt =====
-- How many slots of a chain, and of a table, are in use.
use clht.Prelude.{
  ℕ, zero, suc, ◌+◌, ◌<◌, ◌≡◌, refl, Option, none, some, List, [], ◌∷◌, ◌++◌, length, length-set,
  set, get_elem?, get_or, arith,
}
use clht.Slots.{Slot, hit, count}
use clht.Slots.Laws.{count-set}
use clht.LbRes.Bucket.{Chain, last, link, walk}
use clht.LbRes.Table.{size_slots, size_chain, size_bins}

pub size_slots-append : (xs ys : List Slot) → size_slots (xs ++ ys) ≡ size_slots xs + size_slots ys
unfolding size_slots
size_slots-append [] ys = omega arith
size_slots-append (s ∷ xs) ys = omega (arith, size_slots-append xs ys)

-- Each slot is in use or empty.
pub size_slots-count : (xs : List Slot) → size_slots xs + count 0 xs ≡ length xs
unfolding size_slots count
size_slots-count [] = refl
size_slots-count (s ∷ xs) = ground (arith, size_slots-count xs)

pub size_chain-walk : (c : Chain) → size_chain c ≡ size_slots (walk c)
unfolding size_chain walk
size_chain-walk (last b) = refl
size_chain-walk (link b c) = rw (size_slots-append, size_chain-walk c)

pub size_slots-set :
    (xs : List Slot) (i old w k v : ℕ)
    → get_elem? xs i ≡ some (old, w)
    → size_slots (set xs i (k, v)) + hit k 0 ≡ size_slots xs + hit old 0
size_slots-set xs i old w k v h = omega (
  arith,
  size_slots-count (set xs i (k, v)),
  size_slots-count xs,
  length-set xs i (k, v),
  count-set 0 xs i old w k v h,
)

pub size_bins-set :
    (cs : List Chain) (i : ℕ) (c d : Chain)
    → i < length cs
    → size_bins (set cs i c) + size_chain (get_or cs i d) ≡ size_bins cs + size_chain c
unfolding size_bins
size_bins-set [] i c d h = absurd (omega arith)
size_bins-set (x ∷ cs) zero c d h = omega arith
size_bins-set (x ∷ cs) (suc i) c d h = omega (arith, size_bins-set cs i c d (omega arith))

-- 1 for a binding, 0 for none
abbrev pub bound : Option ℕ → ℕ
bound none = 0
bound (some v) = 1
