-- ===== src/Packed/Bucket/Search.antt =====
-- The loop of `clht_remove` over a packed chain: the search for the slot, and its removal.
use mathlib.Core.Path.{subst}
use mathlib.Core.List.{append-nil}
use clht.Prelude.{
  ℕ, zero, suc, ◌≡◌, inl, inr, refl, ltb, some, List, [], ◌∷◌, length-append, take, get_elem?,
  Returns, arith, Bool-cases, Option-cases,
}
use clht.Slots.{Slot, count}
use clht.Slots.Laws.{count-append}
use clht.Slots.Weights.{weight-append}
use clht.Packed.Bucket.{Bucket, Chain, last, link, slot, position, remove_chain, fill_hole, lock_of}
use clht.Packed.Bucket.Entries.{entries, entries_stop, IsPacked}
use clht.Packed.Bucket.Put.{Positioned, Positions, position-Positions}
use clht.Packed.Bucket.Pop.{first}
use clht.Packed.Bucket.Remove.{Drops, fill_hole-Drops}

-- A correct end of the loop: the key is not there and nothing changes, or one slot of it is dropped.
pub data Removal (k : ℕ) (c : Chain) (r : ℕ × Chain) : Type 0 where
  absent : count k (entries c) ≡ 0 → r ≡ (0, c) → Removal k c r
  dropped : (v : ℕ) → Drops k v c r → Removal k c r

-- slot j of the first n is slot j of the array
slot_value :
    (n j k v : ℕ) (xs : List Slot) → get_elem? (take n xs) j ≡ some (k, v) → (slot xs j).1 ≡ v
slot_value zero j k v xs h = ground arith
slot_value (suc n) j k v [] h = ground arith
slot_value (suc n) zero k v (x ∷ xs) h = ground arith
slot_value (suc n) (suc j) k v (x ∷ xs) h = slot_value n j k v xs h

-- the slot that the search finds in the first bucket of `c` is removed
module _ (k i n : ℕ) (xs : List Slot) (c : Chain) (p : IsPacked c) (same : first c ≡ take n xs)
    (at_i : Positioned k 0 (take n xs) i) where
  found_place : get_elem? (first c) i ≡ some (k, (slot xs i).1)
  found_place =
      let here : at_i.place ≡ i = omega (arith, at_i.at_place) in
      let there = subst (λ j. get_elem? (take n xs) j ≡ some (k, at_i.value)) here at_i.there in
      rw (same, there, slot_value n i k at_i.value xs there)

  found_Removal : Returns (fill_hole i (slot xs i).1 c) (Removal k c)
  found_Removal =
      let (r, run, d) = fill_hole-Drops k (slot xs i).1 i c p found_place in
      (r, run, dropped (slot xs i).1 d)

link-Removal :
    (k : ℕ) (b : Bucket) (c : Chain) (r : ℕ × Chain)
    → IsPacked (link b c)
    → b.last ≡ 3
    → count k (take b.last b.slots) ≡ 0
    → Removal k c r
    → Removal k (link b c) (r.0, link b r.1)
unfolding entries lock_of
link-Removal k b c r p full none_here (absent h e) =
    absent (rw count-append (omega (arith, h, none_here))) (rw e)
link-Removal k b c r p full none_here (dropped v d) = dropped v (record {
  value = d.value;
  counts = λ q nz. rw (count-append, count-append) (omega (arith, d.counts q nz));
  weights = λ q nz. rw (weight-append, weight-append) (omega (arith, d.weights q nz));
  shorter = rw (length-append, length-append) (omega (arith, d.shorter));
  packed = (p.0, d.packed, inl full);
  locked = refl;
})

pub remove_chain-Removal :
    (k : ℕ) (c : Chain) → IsPacked c → Returns (remove_chain k c) (Removal k c)
unfolding remove_chain entries
remove_chain-Removal k (last b) p = elim (Option-cases (position k 0 b.last b.slots)) [
  | inl e ↦
      let gone =
        subst (Positions k 0 (take b.last b.slots)) e (position-Positions k 0 b.last b.slots) in
      rw (e, remove_chain) (_, refl, absent gone refl)
  | inr (i, e) ↦
      let there =
        subst (Positions k 0 (take b.last b.slots)) e (position-Positions k 0 b.last b.slots) in
      rw (e, remove_chain) (found_Removal k i b.last b.slots (last b) p refl there)
]
remove_chain-Removal k (link b c) p = elim (Option-cases (position k 0 b.last b.slots)) [
  | inr (i, e) ↦
      let there =
        subst (Positions k 0 (take b.last b.slots)) e (position-Positions k 0 b.last b.slots) in
      rw (e, remove_chain) (found_Removal k i b.last b.slots (link b c) p refl there)
  | inl e ↦
      let gone =
        subst (Positions k 0 (take b.last b.slots)) e (position-Positions k 0 b.last b.slots) in
      rw (e, remove_chain)
        (elim (Bool-cases (ltb b.last 3)) [
          | inl f ↦ rw f (_, refl, absent (rw (entries_stop b c p.2 f, append-nil) gone) refl)
          | inr f ↦
              let (r, run, d) = remove_chain-Removal k c p.1 in
              rw (f, run) (_, refl, link-Removal k b c r p (ground (arith, p.0.1)) gone d)
        ])
]
