-- ===== src/Tests/Linked.antt =====
-- `clht_lb_linked`: a window that overflows into the next bucket, and the theorem at the table there.
use mathlib.Core.Path.{subst}
use clht.Prelude.{
  false, ℕ, zero, suc, ◌≡◌, ◌≢◌, refl, sym, ◌∙◌, none, List, [], ◌∷◌, replicate, done,
  done_injective, Returns, arith,
}
use clht.Slots.{Slot, find}
use clht.LbRes.Bucket.{lock_free}
use clht.Linked.{
  Bucket, Hashtable, get, overflowed, scanned, put_table, Answer, stored, remove, size,
}
use clht.Linked.Window.{bucket_at, bound_at}
use clht.Linked.Locking.{lock_at}
use clht.LbRes.Bucket.Walk.{value_or_zero}
use clht.Linked.Valid.{IsValid, view, get-linked_view}
use clht.Linked.Put.{Puts, finds, binds, asks, put_table-Puts}

abbrev empty_bucket : Bucket
empty_bucket = record { lock = 0; hops = 0; slots = (0, 0) ∷ (0, 0) ∷ (0, 0) ∷ [] }

-- two buckets, and the sixteen extra ones
abbrev fresh : Hashtable
fresh = record { num_buckets = 2; table = replicate 18 empty_bucket; hash = 1 }

-- the first bucket of `fresh` with other slots and windows
abbrev with_first : ℕ → List Slot → Bucket → Hashtable
with_first n xs b = record fresh {
  table = record { lock = 0; hops = n; slots = xs } ∷ b ∷ replicate 16 empty_bucket;
}

bound_at-fresh : (n k m : ℕ) → k ≢ 0 → bound_at k (replicate n empty_bucket) m ≡ none
unfolding find
bound_at-fresh zero k m nz = refl
bound_at-fresh (suc n) k zero nz = ground arith
bound_at-fresh (suc n) k (suc m) nz = bound_at-fresh n k m nz

lock_at-fresh : (n m : ℕ) → lock_at (replicate n empty_bucket) m ≡ lock_free
lock_at-fresh zero m = refl
lock_at-fresh (suc n) zero = refl
lock_at-fresh (suc n) (suc m) = lock_at-fresh n m

hops-fresh : (n m : ℕ) → (bucket_at (replicate n empty_bucket) m).hops ≡ 0
hops-fresh zero m = refl
hops-fresh (suc n) zero = refl
hops-fresh (suc n) (suc m) = hops-fresh n m

fresh-IsValid : IsValid fresh
fresh-IsValid = record {
  sized = refl;
  masked = refl;
  free = lock_at-fresh 18;
  bounded = λ m. omega (arith, hops-fresh 18 m);
  windowed = λ k m nz b. absurd (b (bound_at-fresh 18 k m nz));
}

after-IsValid :
    (ht : Hashtable) (k v : ℕ) (r : Answer × Hashtable) → IsValid ht → Puts ht k v r → IsValid r.1
after-IsValid ht k v r valid (finds w e) = valid
after-IsValid ht k v r valid (binds ht' b e c x f g) = x
after-IsValid ht k v r valid (asks ht' e x f g) = x

next-IsValid :
    (ht : Hashtable) (k v : ℕ) (r : Answer × Hashtable)
    → IsValid ht
    → k ≢ 0
    → put_table ht k v ≡ done r
    → IsValid r.1
next-IsValid ht k v r valid nz e =
    let (s, run, p) = put_table-Puts ht k v valid nz in
    after-IsValid ht k v r valid (subst (Puts ht k v) (done_injective (sym run ∙ e)) p)

abbrev one : Hashtable
one = with_first 0 ((2, 20) ∷ (0, 0) ∷ (0, 0) ∷ []) empty_bucket

abbrev two : Hashtable
two = with_first 0 ((2, 20) ∷ (4, 40) ∷ (0, 0) ∷ []) empty_bucket

abbrev three : Hashtable
three = with_first 0 ((2, 20) ∷ (4, 40) ∷ (6, 60) ∷ []) empty_bucket

abbrev four : Hashtable
four =
    with_first 1 ((2, 20) ∷ (4, 40) ∷ (6, 60) ∷ [])
      (record { lock = 0; hops = 0; slots = (8, 80) ∷ (0, 0) ∷ (0, 0) ∷ [] })

puts_run :
    (put_table fresh 2 20 ≡ done (stored false, one))
    × (put_table one 4 40 ≡ done (stored false, two))
    × (put_table two 6 60 ≡ done (stored false, three))
    × (put_table three 8 80 ≡ done (stored false, four))
    × (get four 8 ≡ done 80)
unfolding put_table get scanned overflowed
puts_run = (refl, refl, refl, refl, refl)

-- a remove leaves the window as wide as it was
removes_run :
    (remove four 8
      ≡ done (
        80,
        with_first 1
            ((2, 20) ∷ (4, 40) ∷ (6, 60) ∷ [])
            (record { lock = 0; hops = 0; slots = (0, 80) ∷ (0, 0) ∷ (0, 0) ∷ [] }),
      ))
    × (remove four 4
        ≡ done (
          40,
          with_first 1
              ((2, 20) ∷ (0, 40) ∷ (6, 60) ∷ [])
              (record { lock = 0; hops = 0; slots = (8, 80) ∷ (0, 0) ∷ (0, 0) ∷ [] }),
        ))
    × (remove four 10 ≡ done (0, four))
    × (size four ≡ done 4)
unfolding remove size
removes_run = (refl, refl, refl, refl)

three-IsValid : IsValid three
three-IsValid =
    let first =
      next-IsValid fresh 2 20 (stored false, one) fresh-IsValid (ground arith) puts_run.0 in
    let second = next-IsValid one 4 40 (stored false, two) first (ground arith) puts_run.1 in
    next-IsValid two 6 60 (stored false, three) second (ground arith) puts_run.2

put_table-Puts_example : Returns (put_table three 8 80) (Puts three 8 80)
put_table-Puts_example = put_table-Puts three 8 80 three-IsValid (ground arith)

four-IsValid : IsValid four
four-IsValid = next-IsValid three 8 80 (stored false, four) three-IsValid (ground arith) puts_run.3

get-linked_view_example : get four 8 ≡ done (value_or_zero (view four 8))
get-linked_view_example = get-linked_view four 8 four-IsValid
