-- ===== src/Packed/Bucket/Entries.antt =====
-- The entries of a chain that is packed, and the loops that read it.
use clht.Prelude.{
  ℕ, zero, suc, ◌≤◌, ◌≡◌, ◌⊎◌, inl, inr, refl, sym, ◌∙◌, ◌==◌, ltb, if◌then◌else◌, true, false,
  List, [], ◌++◌, length, take, take-suc, length-take, length-append, arith, Bool-cases,
  Option-cases,
}
use clht.Slots.{Slot, find, count}
use clht.Slots.Laws.{find-append, count-append, find-eq-none}
use clht.LbRes.Bucket.Walk.{value_or_zero}
use clht.Packed.Bucket.{
  Bucket, Chain, last, link, get_down, get_chain, exists_down, bucket_exists, size_chain,
}

-- the slots in use
unfoldable pub entries : Chain → List Slot
entries (last b) = take b.last b.slots
entries (link b c) = take b.last b.slots ++ entries c

abbrev pub IsEmpty : Chain → Type 0
IsEmpty (last b) = b.last ≡ 0
IsEmpty (link b c) = (b.last ≡ 0) × IsEmpty c

-- a bucket has three slots
abbrev pub Fits : Bucket → Type 0
Fits b = (length b.slots ≡ 3) × (b.last ≤ 3)

-- A bucket that is not full has only empty buckets after it.
abbrev pub IsPacked : Chain → Type 0
IsPacked (last b) = Fits b
IsPacked (link b c) = Fits b × IsPacked c × ((b.last ≡ 3) ⊎ IsEmpty c)

pub entries-IsEmpty : (c : Chain) → IsEmpty c → entries c ≡ []
unfolding entries
entries-IsEmpty (last b) h = rw h
entries-IsEmpty (link b c) h = rw (h.0, entries-IsEmpty c h.1)

-- Before a bucket that is not full, nothing follows.
pub entries_stop :
    (b : Bucket) (c : Chain) → (b.last ≡ 3) ⊎ IsEmpty c → ltb b.last 3 ≡ true → entries c ≡ []
entries_stop b c (inl full) h = absurd (ground arith)
entries_stop b c (inr empty) h = entries-IsEmpty c empty

get_down-find :
    (k n : ℕ) (xs : List Slot)
    → n ≤ length xs
    → count k (take n xs) ≤ 1
    → get_down k n xs ≡ find k (take n xs)
unfolding get_down find count
get_down-find k zero xs h few = refl
get_down-find k (suc n) xs h few =
    let split = take-suc n xs (0, 0) (omega arith) in
    let counted = rw (split, count-append) at few in
    rw (split, find-append)
      (ground (
        arith,
        get_down-find k n xs (omega arith) (ground (arith, counted)),
        counted,
        find-eq-none k (take n xs),
      ))

exists_down-count :
    (k n : ℕ) (xs : List Slot)
    → n ≤ length xs
    → exists_down k n xs ≡ (if count k (take n xs) == 0 then false else true)
unfolding exists_down count
exists_down-count k zero xs h = refl
exists_down-count k (suc n) xs h =
    rw (take-suc n xs (0, 0) (omega arith), count-append)
      (ground (arith, exists_down-count k n xs (omega arith)))

-- `clht_get` finds what a packed chain binds, the buckets after one that is not full left unread.
pub get_chain-find :
    (k : ℕ) (c : Chain)
    → IsPacked c
    → count k (entries c) ≤ 1
    → get_chain k c ≡ value_or_zero (find k (entries c))
unfolding get_chain entries
get_chain-find k (last b) p few =
    ground (arith, get_down-find k b.last b.slots (omega (arith, p.0, p.1)) few)
get_chain-find k (link b c) p few =
    let counted = rw count-append at few in
    let here =
      get_down-find k b.last b.slots (omega (arith, p.0.0, p.0.1)) (omega (arith, counted)) in
    rw find-append (elim (Option-cases (find k (take b.last b.slots))) [
      | inr (v, e) ↦ rw e (ground (arith, here ∙ e))
      | inl e ↦ rw e (elim (Bool-cases (ltb b.last 3)) [
        | inl f ↦ rw (entries_stop b c p.2 f) (unfold find in ground (arith, here ∙ e, f))
        | inr f ↦ ground (arith, here ∙ e, f, get_chain-find k c p.1 (omega (arith, counted)))
      ])
    ])

pub bucket_exists-count :
    (k : ℕ) (c : Chain)
    → IsPacked c
    → bucket_exists k c ≡ (if count k (entries c) == 0 then false else true)
unfolding bucket_exists entries
bucket_exists-count k (last b) p = exists_down-count k b.last b.slots (omega (arith, p.0, p.1))
bucket_exists-count k (link b c) p =
    let here = exists_down-count k b.last b.slots (omega (arith, p.0.0, p.0.1)) in
    rw count-append (elim (Bool-cases (ltb b.last 3)) [
      | inl f ↦ rw (entries_stop b c p.2 f) (unfold count in ground (arith, here))
      | inr f ↦ ground (arith, here, bucket_exists-count k c p.1)
    ])

pub size_chain-length : (c : Chain) → IsPacked c → size_chain c ≡ length (entries c)
unfolding size_chain entries
size_chain-length (last b) p = sym (length-take b.last b.slots (omega (arith, p.0, p.1)))
size_chain-length (link b c) p =
    let here = length-take b.last b.slots (omega (arith, p.0.0, p.0.1)) in
    rw length-append (elim (Bool-cases (ltb b.last 3)) [
      | inl f ↦ rw (f, entries_stop b c p.2 f) (omega (arith, here))
      | inr f ↦ rw f (omega (arith, here, size_chain-length c p.1))
    ])
