-- ===== src/LbRes/Bucket/Search.antt =====
-- What the walks of `clht_put` and `clht_put_seq` find.
use clht.Prelude.{
  ℕ, zero, suc, ◌+◌, ◌≡◌, refl, ◌==◌, if◌then◌else◌, Option, none, some, ◌&&◌, List, [], ◌∷◌, ◌++◌,
  length, get_elem?, arith,
}
use clht.Slots.{Slot, count}
use clht.Slots.Laws.{or_else}
use clht.LbRes.Bucket.{
  Chain, last, link, walk, present, vacant, is_none, scan, scan_chain, empty_slot, empty_in_chain,
}
use clht.LbRes.Bucket.Walk.{scan_chain-walk}

scan-empty_slot :
    (k i : ℕ) (e : Option ℕ) (xs : List Slot)
    → scan k i e xs ≡ (if count k xs == 0 then vacant (or_else e (empty_slot i xs)) else present)
unfolding scan count empty_slot
scan-empty_slot k i e [] = ground arith
scan-empty_slot k i e (s ∷ xs) =
    ground (arith, scan-empty_slot k (suc i) (if is_none e && (s.0 == 0) then some i else e) xs)

-- slot `i + place` is the first of `xs` that is empty
pub record Vacant (i : ℕ) (xs : List Slot) (p : ℕ) : Type 0 where
  pub place : ℕ
  pub at_place : p ≡ i + place
  pub old : ℕ
  pub empty : get_elem? xs place ≡ some (0, old)

pub empty_slot-some : (i : ℕ) (xs : List Slot) (p : ℕ) → empty_slot i xs ≡ some p → Vacant i xs p
unfolding empty_slot
empty_slot-some i [] p h = ground arith
empty_slot-some i ((zero, v) ∷ xs) p h = record {
  place = 0;
  at_place = ground arith;
  old = v;
  empty = refl;
}
empty_slot-some i ((suc k, v) ∷ xs) p h =
    let rest = empty_slot-some (suc i) xs p (ground arith) in
    record { place = suc rest.place; at_place = omega arith; old = rest.old; empty = rest.empty }

pub empty_slot-none : (i : ℕ) (xs : List Slot) → empty_slot i xs ≡ none → count 0 xs ≡ 0
unfolding empty_slot count
empty_slot-none i [] h = refl
empty_slot-none i (s ∷ xs) h = ground (arith, empty_slot-none (suc i) xs)

empty_slot-append :
    (i : ℕ) (xs ys : List Slot)
    → empty_slot i (xs ++ ys) ≡ or_else (empty_slot i xs) (empty_slot (i + length xs) ys)
unfolding empty_slot
empty_slot-append i [] ys = ground arith
empty_slot-append i (s ∷ xs) ys = ground (arith, empty_slot-append (suc i) xs ys)

pub empty_in_chain-walk : (i : ℕ) (c : Chain) → empty_in_chain i c ≡ empty_slot i (walk c)
unfolding empty_in_chain walk
empty_in_chain-walk i (last b) = refl
empty_in_chain-walk i (link b c) =
    rw empty_slot-append (ground (arith, empty_in_chain-walk (i + length b.slots) c))

pub empty_in_chain-some : (c : Chain) (p : ℕ) → empty_in_chain 0 c ≡ some p → Vacant 0 (walk c) p
empty_in_chain-some c p h = empty_slot-some 0 (walk c) p (rw empty_in_chain-walk at h)

pub empty_in_chain-none : (c : Chain) → empty_in_chain 0 c ≡ none → count 0 (walk c) ≡ 0
empty_in_chain-none c h = empty_slot-none 0 (walk c) (rw empty_in_chain-walk at h)

-- The walk of `clht_put` stops at the key, or returns the first empty slot of the chain.
pub scan_chain-empty :
    (k : ℕ) (c : Chain)
    → scan_chain k 0 none c
      ≡ (if count k (walk c) == 0 then vacant (empty_in_chain 0 c) else present)
scan_chain-empty k c = rw (scan_chain-walk, scan-empty_slot, empty_in_chain-walk)
