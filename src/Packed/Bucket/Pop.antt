-- ===== src/Packed/Bucket/Pop.antt =====
-- The walk of `clht_remove` to the last entry of a packed chain, and a store into its first bucket.
use mathlib.Core.Path.{subst}
use mathlib.Core.List.{append_assoc, append-nil}
use clht.Prelude.{
  ℕ, suc, ◌-◌, ◌<◌, ◌≡◌, ◌⊎◌, inl, inr, refl, sym, ap, ◌∙◌, ◌==◌, false, List, [], ◌∷◌, ◌++◌,
  length, length-set, length-take, take, take-set, take-suc, set, Returns, arith, Bool-cases,
}
use clht.Slots.{Slot}
use clht.Packed.Bucket.{
  Bucket, Chain, last, link, slot, head_last, popped, pop_last, set_head, lock_of,
}
use clht.Packed.Bucket.Entries.{entries, entries-IsEmpty, IsPacked, IsEmpty, Fits}

-- Where the next bucket is empty, all that follow are.
pub IsEmpty-head : (c : Chain) → IsPacked c → head_last c ≡ 0 → IsEmpty c
IsEmpty-head (last b) p h = h
IsEmpty-head (link b c) p h = elim p.2 [ inl full ↦ absurd (omega arith) | inr e ↦ (h, e) ]

pub head_IsEmpty : (c : Chain) → IsEmpty c → head_last c ≡ 0
head_IsEmpty (last b) h = h
head_IsEmpty (link b c) h = h.0

-- the entries of the first bucket, and the others
abbrev pub first : Chain → List Slot
first (last b) = take b.last b.slots
first (link b c) = take b.last b.slots

abbrev pub others : Chain → List Slot
others (last b) = []
others (link b c) = entries c

-- A correct end of the walk to the last entry of `c`.
pub record Pops (c : Chain) (r : Slot × Chain) : Type 0 where
  pub split : entries c ≡ entries r.1 ++ r.0 ∷ []
  pub packed : IsPacked r.1
  pub locked : lock_of r.1 ≡ lock_of c
  pub head :
      (head_last r.1 ≡ head_last c) ⊎ ((suc (head_last r.1) ≡ head_last c) × (others r.1 ≡ []))

pub popped_entries :
    (b : Bucket)
    → Fits b
    → 0 < b.last
    → take b.last b.slots ≡ take (b.last - 1) b.slots ++ slot b.slots (b.last - 1) ∷ []
popped_entries b f h =
    let up : suc (b.last - 1) ≡ b.last = omega arith in
    subst (λ n. take n b.slots ≡ take (b.last - 1) b.slots ++ slot b.slots (b.last - 1) ∷ []) up
      (take-suc (b.last - 1) b.slots (0, 0) (omega (arith, f.0, f.1)))

pub pop_last-Pops : (c : Chain) → IsPacked c → 0 < head_last c → Returns (pop_last c) (Pops c)
unfolding pop_last popped entries lock_of
pop_last-Pops (last b) p h =
    let some_entry : (b.last == 0) ≡ false = ground arith in
    rw some_entry (
      _,
      refl,
      record {
        split = popped_entries b p h;
        packed = (p.0, omega (arith, p.1));
        locked = refl;
        head = inr (omega arith, refl);
      },
    )
pop_last-Pops (link b c) p h = elim (Bool-cases (head_last c == 0)) [
  | inl e ↦
      let empty = IsEmpty-head c p.1 (ground arith) in
      let nothing = entries-IsEmpty c empty in
      let some_entry : (b.last == 0) ≡ false = ground arith in
      rw (e, some_entry)
        (
          _,
          refl,
          record {
            split = rw (nothing, append-nil, append-nil) (popped_entries b p.0 h);
            packed = ((p.0.0, omega (arith, p.0.1)), p.1, inr empty);
            locked = refl;
            head = inr (omega arith, nothing);
          },
        )
  | inr e ↦
      let full : b.last ≡ 3 = is_full b c p.2 e in
      let (r, run, d) = pop_last-Pops c p.1 (ground arith) in
      rw (e, run)
        (
          _,
          refl,
          record {
            split = rw (d.split, append_assoc);
            packed = (p.0, d.packed, inl full);
            locked = refl;
            head = inl refl;
          },
        )
]
  where
    is_full :
        (b : Bucket) (c : Chain)
        → (b.last ≡ 3) ⊎ IsEmpty c
        → (head_last c == 0) ≡ false
        → b.last ≡ 3
    is_full b c (inl full) e = full
    is_full b c (inr empty) e = absurd (ground (arith, head_IsEmpty c empty))

pub set_head-IsPacked : (c : Chain) (j : ℕ) (s : Slot) → IsPacked c → IsPacked (set_head c j s)
unfolding set_head
set_head-IsPacked (last b) j s p = (length-set b.slots j s ∙ p.0, p.1)
set_head-IsPacked (link b c) j s p = ((length-set b.slots j s ∙ p.0.0, p.0.1), p.1, p.2)

pub head_last-set_head : (c : Chain) (j : ℕ) (s : Slot) → head_last (set_head c j s) ≡ head_last c
unfolding set_head
head_last-set_head (last b) j s = refl
head_last-set_head (link b c) j s = refl

pub lock_of-set_head : (c : Chain) (j : ℕ) (s : Slot) → lock_of (set_head c j s) ≡ lock_of c
unfolding set_head lock_of
lock_of-set_head (last b) j s = refl
lock_of-set_head (link b c) j s = refl

pub entries-first : (c : Chain) → entries c ≡ first c ++ others c
unfolding entries
entries-first (last b) = sym (append-nil (take b.last b.slots))
entries-first (link b c) = refl

pub entries-set_head :
    (c : Chain) (j : ℕ) (s : Slot) → entries (set_head c j s) ≡ set (first c) j s ++ others c
unfolding set_head entries
entries-set_head (last b) j s =
    take-set b.last b.slots j s ∙ sym (append-nil (set (take b.last b.slots) j s))
entries-set_head (link b c) j s = ap (λ xs. xs ++ entries c) (take-set b.last b.slots j s)

pub length-first : (c : Chain) → IsPacked c → length (first c) ≡ head_last c
length-first (last b) p = length-take b.last b.slots (omega (arith, p.0, p.1))
length-first (link b c) p = length-take b.last b.slots (omega (arith, p.0.0, p.0.1))
