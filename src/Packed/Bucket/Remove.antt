-- ===== src/Packed/Bucket/Remove.antt =====
-- The loop of `clht_remove` moves the last entry of a packed chain into the hole.
use mathlib.Core.List.{append-nil}
use clht.Prelude.{
  some_injective, ℕ, zero, suc, ◌+◌, ◌<◌, ◌≡◌, ◌≢◌, inl, inr, refl, sym, ap, ◌∙◌, ltb, true, false,
  some, List, [], ◌∷◌, ◌++◌, length, length-set, length-append, set, get_elem?, Returns, arith,
  Bool-cases, ltb→lt,
}
use clht.Slots.{Slot, hit, count}
use clht.Slots.Laws.{count-append, count-set}
use clht.Slots.Weights.{share, weight, weight-append, weight-set}
use clht.Packed.Bucket.{Chain, head_last, set_head, fill_hole, lock_of}
use clht.Packed.Bucket.Entries.{entries, IsPacked}
use clht.Packed.Bucket.Pop.{
  first, others, Pops, pop_last-Pops, set_head-IsPacked, head_last-set_head, lock_of-set_head,
  entries-first, entries-set_head, length-first,
}

-- A correct end of the removal of slot j, with key `k` and value `v`, from the first bucket: what
-- the entries hold is what they held, less that slot.
pub record Drops (k v : ℕ) (c : Chain) (r : ℕ × Chain) : Type 0 where
  pub value : r.0 ≡ v
  pub counts : (q : ℕ) → q ≢ 0 → count q (entries r.1) + hit k q ≡ count q (entries c)
  pub weights : (q : ℕ) → q ≢ 0 → weight q (entries r.1) + share k q v ≡ weight q (entries c)
  pub shorter : length (entries r.1) + 1 ≡ length (entries c)
  pub packed : IsPacked r.1
  pub locked : lock_of r.1 ≡ lock_of c

-- what emptying slot j of the first bucket does to the entries
module _ (k v j : ℕ) (c : Chain) (there : get_elem? (first c) j ≡ some (k, v)) where
  abbrev holed : Chain
  holed = set_head c j (0, v)

  count-holed : (q : ℕ) → q ≢ 0 → count q (entries holed) + hit k q ≡ count q (entries c)
  count-holed q nz =
      rw (entries-set_head, entries-first c, count-append, count-append)
        (ground (arith, count-set q (first c) j k v 0 v there))

  weight-holed : (q : ℕ) → q ≢ 0 → weight q (entries holed) + share k q v ≡ weight q (entries c)
  weight-holed q nz =
      rw (entries-set_head, entries-first c, weight-append, weight-append)
        (ground (arith, weight-set q (first c) j k v 0 v there))

  length-holed : length (entries holed) ≡ length (entries c)
  length-holed = rw (entries-set_head, entries-first c, length-append, length-append, length-set)

get_elem?-length : (xs : List Slot) (j : ℕ) (s : Slot) → get_elem? xs j ≡ some s → j < length xs
get_elem?-length [] j s h = ground arith
get_elem?-length (x ∷ xs) zero s h = omega arith
get_elem?-length (x ∷ xs) (suc j) s h = omega (arith, get_elem?-length xs j s h)

-- The hole at slot j of `d` is filled with `s`, where the slot is still in use; the entries of `e`
-- were those of `d` and `s`.
module _ (j v : ℕ) (s : Slot) (d e : Chain) (split : entries e ≡ entries d ++ s ∷ []) where
  filled_counts :
      (q w : ℕ)
      → q ≢ 0
      → get_elem? (first d) j ≡ some (0, w)
      → (count q (entries (set_head d j s)) ≡ count q (entries e))
        × (weight q (entries (set_head d j s)) ≡ weight q (entries e))
  unfolding count weight
  filled_counts q w nz hole = (
    rw (entries-set_head, split, entries-first d, count-append, count-append, count-append)
        (ground (arith, count-set q (first d) j 0 w s.0 s.1 hole)),
    rw (entries-set_head, split, entries-first d, weight-append, weight-append, weight-append)
        (ground (arith, weight-set q (first d) j 0 w s.0 s.1 hole)),
  )

  filled_length : length (entries (set_head d j s)) + 1 ≡ length (entries e)
  filled_length =
      rw
        (
          entries-set_head,
          split,
          entries-first d,
          length-append,
          length-append,
          length-append,
          length-set,
        )
        (omega arith)

get_elem?-append_left :
    (xs ys : List Slot) (j : ℕ) → j < length xs → get_elem? (xs ++ ys) j ≡ get_elem? xs j
get_elem?-append_left [] ys j h = absurd (omega arith)
get_elem?-append_left (x ∷ xs) ys zero h = refl
get_elem?-append_left (x ∷ xs) ys (suc j) h = get_elem?-append_left xs ys j (omega arith)

get_elem?-append_end :
    (xs : List Slot) (j : ℕ) (s : Slot) → j ≡ length xs → get_elem? (xs ++ s ∷ []) j ≡ some s
get_elem?-append_end [] j s h = rw h
get_elem?-append_end (x ∷ xs) zero s h = absurd (omega arith)
get_elem?-append_end (x ∷ xs) (suc j) s h = get_elem?-append_end xs j s (omega arith)

get_elem?-set_self :
    (xs : List Slot) (j : ℕ) (s : Slot) → j < length xs → get_elem? (set xs j s) j ≡ some s
get_elem?-set_self [] j s h = absurd (omega arith)
get_elem?-set_self (x ∷ xs) zero s h = refl
get_elem?-set_self (x ∷ xs) (suc j) s h = get_elem?-set_self xs j s (omega arith)

set_end : (xs : List Slot) (j : ℕ) (s : Slot) → j ≡ length xs → set xs j s ≡ xs
set_end [] j s h = refl
set_end (x ∷ xs) zero s h = absurd (omega arith)
set_end (x ∷ xs) (suc j) s h = ap (λ ys. x ∷ ys) (set_end xs j s (omega arith))

module _ (k v j : ℕ) (c : Chain) (p : IsPacked c)
    (there : get_elem? (first c) j ≡ some (k, v)) where
  abbrev hollow : Chain
  hollow = holed k v j c there

  inside : j < head_last c
  inside = omega (arith, get_elem?-length (first c) j (k, v) there, length-first c p)

  hole : get_elem? (entries hollow) j ≡ some (0, v)
  hole =
      rw
        (
          entries-set_head,
          get_elem?-append_left (set (first c) j (0, v)) (others c) j
              (rw length-set (omega (arith, inside, length-first c p))),
        )
        (get_elem?-set_self (first c) j (0, v) (omega (arith, inside, length-first c p)))

  -- the hole has been filled, and the entries are those of the hollow chain but for an empty slot
  completed :
      (r : Slot × Chain)
      → Pops hollow r
      → ((q : ℕ)
          → q ≢ 0
          → (count q (entries (set_head r.1 j r.0)) ≡ count q (entries hollow))
            × (weight q (entries (set_head r.1 j r.0)) ≡ weight q (entries hollow)))
      → length (entries (set_head r.1 j r.0)) + 1 ≡ length (entries hollow)
      → Drops k v c (v, set_head r.1 j r.0)
  completed r d same short = record {
    value = refl;
    counts = λ q nz. omega (arith, (same q nz).0, count-holed k v j c there q nz);
    weights = λ q nz. omega (arith, (same q nz).1, weight-holed k v j c there q nz);
    shorter = omega (arith, short, length-holed k v j c there);
    packed = set_head-IsPacked r.1 j r.0 d.packed;
    locked = lock_of-set_head r.1 j r.0 ∙ d.locked ∙ lock_of-set_head c j (0, v);
  }

  -- the last entry stood after the hole
  moved :
      (r : Slot × Chain)
      → Pops hollow r
      → ltb j (head_last r.1) ≡ true
      → Drops k v c (v, set_head r.1 j r.0)
  moved r d e =
      let within : j < length (first r.1) =
        omega (arith, length-first r.1 d.packed, ltb→lt j (head_last r.1) e) in
      let longer : length (entries r.1) ≡ length (first r.1) + length (others r.1) =
        ap length (entries-first r.1) ∙ length-append (first r.1) (others r.1) in
      let still : get_elem? (entries hollow) j ≡ get_elem? (first r.1) j =
        ap (λ xs. get_elem? xs j) d.split
        ∙ get_elem?-append_left (entries r.1) (r.0 ∷ []) j (omega (arith, within, longer))
        ∙ ap (λ xs. get_elem? xs j) (entries-first r.1)
        ∙ get_elem?-append_left (first r.1) (others r.1) j within in
      completed r d (λ q nz. filled_counts j v r.0 r.1 hollow d.split q v nz (sym still ∙ hole))
        (filled_length j v r.0 r.1 hollow d.split)

  vanished_alone :
      (r : Slot × Chain)
      → Pops hollow r
      → ltb j (head_last r.1) ≡ false
      → (j ≡ length (first r.1)) × (others r.1 ≡ [])
  vanished_alone r d e = elim d.head [
    | inl same ↦ absurd (ground (arith, inside, head_last-set_head c j (0, v)))
    | inr one ↦
        (ground (arith, inside, head_last-set_head c j (0, v), length-first r.1 d.packed), one.1)
  ]

  -- the last entry was the hole itself
  vanished :
      (r : Slot × Chain)
      → Pops hollow r
      → ltb j (head_last r.1) ≡ false
      → Drops k v c (v, set_head r.1 j r.0)
  unfolding count weight
  vanished r d e =
      let alone = vanished_alone r d e in
      let end : j ≡ length (first r.1) = alone.0 in
      let all : entries r.1 ≡ first r.1 =
        entries-first r.1 ∙ ap (λ xs. first r.1 ++ xs) alone.1 ∙ append-nil (first r.1) in
      let taken : r.0 ≡ (0, v) = some_injective (
        sym (get_elem?-append_end (entries r.1) j r.0 (end ∙ ap length (sym all)))
        ∙ ap (λ xs. get_elem? xs j) (sym d.split)
        ∙ hole) in
      let left : entries (set_head r.1 j r.0) ≡ entries r.1 =
        entries-set_head r.1 j r.0
        ∙ ap (λ xs. xs ++ others r.1) (set_end (first r.1) j r.0 end)
        ∙ sym (entries-first r.1) in
      completed r d
        (λ q nz. (
          rw (left, d.split, count-append, taken) (ground arith),
          rw (left, d.split, weight-append, taken) (ground arith),
        ))
        (rw (left, d.split, length-append) refl)

  drops : (r : Slot × Chain) → Pops hollow r → Drops k v c (v, set_head r.1 j r.0)
  drops r d = elim (Bool-cases (ltb j (head_last r.1))) [
    | inl e ↦ moved r d e
    | inr e ↦ vanished r d e
  ]

  pub fill_hole-Drops : Returns (fill_hole j v c) (Drops k v c)
  unfolding fill_hole
  fill_hole-Drops =
      let packed = set_head-IsPacked c j (0, v) p in
      let some_entry : 0 < head_last hollow =
        omega (arith, inside, head_last-set_head c j (0, v)) in
      let (r, run, d) = pop_last-Pops hollow packed some_entry in rw run (_, refl, drops r d)
