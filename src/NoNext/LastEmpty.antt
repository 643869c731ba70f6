-- ===== src/NoNext/LastEmpty.antt =====
-- The walk of `clht_put` over one bucket: it keeps the last empty slot.
use clht.Prelude.{
  ℕ, suc, ◌≡◌, inl, inr, refl, ap, ◌==◌, Bool-cases, ==→eq, Option, some, List, [], ◌∷◌, arith,
}
use clht.Slots.{Slot, count}
use clht.LbRes.Bucket.{Scan, vacant}
use clht.LbRes.Bucket.Search.{Vacant}
use clht.NoNext.{scan_last}

-- a slot found from the second one on
Vacant-suc : (j : ℕ) (s : Slot) (xs : List Slot) (p : ℕ) → Vacant (suc j) xs p → Vacant j (s ∷ xs) p
Vacant-suc j s xs p f = record {
  place = suc f.place;
  at_place = omega (arith, f.at_place);
  old = f.old;
  empty = f.empty;
}

-- how the walk ends over slots without the key: at an empty slot of theirs, or, where they are full,
-- with what it had
pub data Ends (j : ℕ) (e : Option ℕ) (xs : List Slot) (r : Scan) : Type 0 where
  empty_at : (p : ℕ) → r ≡ vacant (some p) → Vacant j xs p → Ends j e xs r
  none_empty : r ≡ vacant e → count 0 xs ≡ 0 → Ends j e xs r

pub scan_last-Ends :
    (k j : ℕ) (e : Option ℕ) (xs : List Slot) → count k xs ≡ 0 → Ends j e xs (scan_last k j e xs)
unfolding scan_last count
scan_last-Ends k j e [] h = none_empty refl refl
scan_last-Ends k j e ((a, v) ∷ xs) h = elim (Bool-cases (a == 0)) [
  | inl f ↦ elim (scan_last-Ends k (suc j) (some j) xs (omega (arith, h))) [
    | empty_at p r free ↦ empty_at p (ground (arith, r)) (Vacant-suc j (a, v) xs p free)
    | none_empty r full ↦ empty_at j (ground (arith, r)) (record {
      place = 0;
      at_place = omega arith;
      old = v;
      empty = ap (λ t. some (t, v)) (==→eq a 0 f);
    })
  ]
  | inr f ↦ elim (scan_last-Ends k (suc j) e xs (omega (arith, h))) [
    | empty_at p r free ↦ empty_at p (ground (arith, r)) (Vacant-suc j (a, v) xs p free)
    | none_empty r full ↦ none_empty (ground (arith, r)) (ground (arith, full))
  ]
]
