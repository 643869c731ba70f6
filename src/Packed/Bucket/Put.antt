-- ===== src/Packed/Bucket/Put.antt =====
-- The loop of `clht_put` appends to the entries of a packed chain.
use mathlib.Core.List.{append_assoc, append-nil}
use clht.Prelude.{
  ℕ, zero, suc, ◌+◌, ◌<◌, ◌≡◌, ◌⊎◌, inl, inr, refl, ap, ◌∙◌, ◌==◌, ltb, Bool, true, false, Option,
  none, some, List, [], ◌∷◌, ◌++◌, length-set, take, take-set_end, get_elem?, Returns, arith,
  Bool-cases, Option-cases, ==→eq, set,
}
use clht.Slots.{Slot, count}
use clht.Slots.Laws.{count-append, count_pos}
use mathlib.Core.Path.{subst}
use clht.Packed.Bucket.{
  Bucket, Chain, last, link, bucket_create, position, pushed, put_chain, lock_of,
}
use clht.Packed.Bucket.Entries.{entries, entries_stop, IsPacked, IsEmpty, Fits}

-- the first slot with the key
pub record Positioned (k j : ℕ) (xs : List Slot) (i : ℕ) : Type 0 where
  pub place : ℕ
  pub at_place : i ≡ j + place
  pub value : ℕ
  pub there : get_elem? xs place ≡ some (k, value)

abbrev pub Positions : ℕ → ℕ → List Slot → Option ℕ → Type 0
Positions k j xs none = count k xs ≡ 0
Positions k j xs (some i) = Positioned k j xs i

pub position-Positions :
    (k j n : ℕ) (xs : List Slot) → Positions k j (take n xs) (position k j n xs)
unfolding position count
position-Positions k j zero xs = refl
position-Positions k j (suc n) [] = refl
position-Positions k j (suc n) (s ∷ xs) = elim (Bool-cases (s.0 == k)) [
  | inl e ↦ rw e (record {
    place = 0;
    at_place = omega arith;
    value = s.1;
    there = ap (λ a. some (a, s.1)) (==→eq s.0 k e);
  })
  | inr e ↦ rw e (later e (position k (suc j) n xs) (position-Positions k (suc j) n xs))
]
  where
    later :
        (s.0 == k) ≡ false
        → (o : Option ℕ) → Positions k (suc j) (take n xs) o
        → Positions k j (s ∷ take n xs) o
    later e none h = ground arith
    later e (some i) h = record {
      place = suc h.place;
      at_place = omega (arith, h.at_place);
      value = h.value;
      there = h.there;
    }

-- A correct end of the loop for a key that the chain has not.
pub record Appends (s : Slot) (c : Chain) (r : Bool × Chain) : Type 0 where
  pub result : r.0 ≡ true
  pub entered : entries r.1 ≡ entries c ++ s ∷ []
  pub packed : IsPacked r.1
  pub locked : lock_of r.1 ≡ lock_of c

pushed_entries :
    (b : Bucket) (s : Slot)
    → Fits b
    → b.last < 3
    → take (suc b.last) (set b.slots b.last s) ≡ take b.last b.slots ++ s ∷ []
pushed_entries b s f h = take-set_end b.last b.slots s (omega (arith, f.0))

pushed-Fits : (b : Bucket) (s : Slot) → Fits b → b.last < 3 → Fits (pushed b s)
pushed-Fits b s f h = (length-set b.slots b.last s ∙ f.0, omega arith)

missed :
    (k : ℕ) (b : Bucket) → count k (take b.last b.slots) ≡ 0 → position k 0 b.last b.slots ≡ none
unfolding count
missed k b h = elim (Option-cases (position k 0 b.last b.slots)) [
  | inl e ↦ e
  | inr (i, e) ↦
      let p =
        subst (Positions k 0 (take b.last b.slots)) e (position-Positions k 0 b.last b.slots) in
      absurd (omega (arith, h, count_pos (take b.last b.slots) p.place k p.value p.there))
]

-- The loop of `clht_put` over a packed chain that has not the key appends it to the entries, in the
-- first bucket that is not full or in a new one, and the chain stays packed.
pub put_chain-Appends :
    (words : ℕ → ℕ) (s : Slot) (c : Chain)
    → IsPacked c
    → count s.0 (entries c) ≡ 0
    → Returns (put_chain (some words) s c) (Appends s c)
unfolding put_chain entries bucket_create lock_of
put_chain-Appends words s (last b) p h =
    let gone = missed s.0 b h in
    elim (Bool-cases (ltb b.last 3)) [
      | inl e ↦
          let room : b.last < 3 = ground arith in
          rw (gone, put_chain, e)
            (
              _,
              refl,
              record {
                result = refl;
                entered = pushed_entries b s p room;
                packed = pushed-Fits b s p room;
                locked = refl;
              },
            )
      | inr e ↦
          rw (gone, put_chain, e)
            (
              _,
              refl,
              record {
                result = refl;
                entered = refl;
                packed = (p, (refl, omega arith), inl (ground (arith, p.1)));
                locked = refl;
              },
            )
    ]
put_chain-Appends words s (link b c) p h =
    let counted = rw count-append at h in
    let gone = missed s.0 b (omega (arith, counted)) in
    elim (Bool-cases (ltb b.last 3)) [
      | inl e ↦
          let room : b.last < 3 = ground arith in
          let stop = entries_stop b c p.2 e in
          rw (gone, put_chain, e)
            (
              _,
              refl,
              record {
                result = refl;
                entered = rw (stop, append-nil, append-nil) (pushed_entries b s p.0 room);
                packed = (pushed-Fits b s p.0 room, p.1, inr (emptied b c p.2 room));
                locked = refl;
              },
            )
      | inr e ↦
          let (r, run, a) = put_chain-Appends words s c p.1 (omega (arith, counted)) in
          rw (gone, put_chain, e, run)
            (
              _,
              refl,
              record {
                result = a.result;
                entered = rw (a.entered, append_assoc);
                packed = (p.0, a.packed, inl (ground (arith, p.0.1)));
                locked = refl;
              },
            )
    ]
  where
    emptied : (b : Bucket) (c : Chain) → (b.last ≡ 3) ⊎ IsEmpty c → b.last < 3 → IsEmpty c
    emptied b c (inl full) room = absurd (omega arith)
    emptied b c (inr empty) room = empty
