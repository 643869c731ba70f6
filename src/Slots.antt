-- ===== src/Slots.antt =====
-- The arrays `key[]` and `val[]` of one bucket, and of a chain of buckets in the order of the walk:
-- slot j pairs `key[j]` with `val[j]`, and key 0 marks a slot as empty. These are the
-- specification's view of a bucket: what a key is bound to, and how often it occurs.
pub mod Laws
pub mod Weights
use clht.Prelude.{ℕ, suc, ◌+◌, ◌==◌, if◌then◌else◌, Bool, Option, none, some, List, [], ◌∷◌}

abbrev pub Slot : Type 0
Slot = ℕ × ℕ

-- 1 if the two keys are the same, else 0
abbrev pub hit : ℕ → ℕ → ℕ
hit a b = if a == b then 1 else 0

-- the value in the first slot that has the key
unfoldable pub find : ℕ → List Slot → Option ℕ
find k [] = none
find k (s ∷ xs) = if s.0 == k then some s.1 else find k xs

-- how many slots have the key; `count 0` is the number of empty slots
unfoldable pub count : ℕ → List Slot → ℕ
count k [] = 0
count k (s ∷ xs) = hit s.0 k + count k xs
