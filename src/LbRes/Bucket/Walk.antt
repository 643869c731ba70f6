-- ===== src/LbRes/Bucket/Walk.antt =====
-- The loops over a chain that only read it are loops over the slots of the walk.
use clht.Prelude.{
  ℕ, suc, ◌+◌, ◌≡◌, refl, ◌==◌, if◌then◌else◌, true, false, ◌&&◌, Option, none, some, List, [], ◌∷◌,
  ◌++◌, length, arith,
}
use clht.Slots.{Slot, find, count}
use clht.Slots.Laws.{find-append, count-append}
use clht.LbRes.Bucket.{
  Chain, last, link, walk, get_slots, get_chain, exists_slots, bucket_exists, Scan, present, vacant,
  is_none, scan, scan_chain,
}

-- what `clht_get` returns for a lookup: 0 stands for no binding
abbrev pub value_or_zero : Option ℕ → ℕ
value_or_zero none = 0
value_or_zero (some v) = v

pub get_slots-find : (k : ℕ) (xs : List Slot) → get_slots k xs ≡ find k xs
unfolding get_slots find
get_slots-find k [] = refl
get_slots-find k (s ∷ xs) = ground (arith, get_slots-find k xs)

pub get_chain-find : (k : ℕ) (c : Chain) → get_chain k c ≡ value_or_zero (find k (walk c))
unfolding get_chain walk
get_chain-find k (last b) = ground (arith, get_slots-find k b.slots)
get_chain-find k (link b c) =
    rw find-append (ground (arith, get_slots-find k b.slots, get_chain-find k c))

pub exists_slots-count :
    (k : ℕ) (xs : List Slot) → exists_slots k xs ≡ (if count k xs == 0 then false else true)
unfolding exists_slots count
exists_slots-count k [] = refl
exists_slots-count k (s ∷ xs) = ground (arith, exists_slots-count k xs)

pub bucket_exists-count :
    (k : ℕ) (c : Chain) → bucket_exists k c ≡ (if count k (walk c) == 0 then false else true)
unfolding bucket_exists walk
bucket_exists-count k (last b) = ground (arith, exists_slots-count k b.slots)
bucket_exists-count k (link b c) =
    rw count-append (ground (arith, exists_slots-count k b.slots, bucket_exists-count k c))

abbrev next_scan : ℕ → ℕ → List Slot → Scan → Scan
next_scan k i ys present = present
next_scan k i ys (vacant e) = scan k i e ys

scan-append :
    (k i : ℕ) (e : Option ℕ) (xs ys : List Slot)
    → scan k i e (xs ++ ys) ≡ next_scan k (i + length xs) ys (scan k i e xs)
unfolding scan
scan-append k i e [] ys = ground arith
scan-append k i e (s ∷ xs) ys =
    let e' = if is_none e && (s.0 == 0) then some i else e in
    ground (arith, scan-append k (suc i) e' xs ys)

pub scan_chain-walk :
    (k i : ℕ) (e : Option ℕ) (c : Chain) → scan_chain k i e c ≡ scan k i e (walk c)
unfolding scan_chain walk
scan_chain-walk k i e (last b) = refl
scan_chain-walk k i e (link b c) =
    rw scan-append (step (scan k i e b.slots) (λ i e'. scan_chain-walk k i e' c))
  where
    step :
        (r : Scan)
        → ((i : ℕ) (e' : Option ℕ) → scan_chain k i e' c ≡ scan k i e' (walk c))
        → (elim r [ present ↦ present | vacant e' ↦ scan_chain k (i + length b.slots) e' c ])
          ≡ next_scan k (i + length b.slots) (walk c) r
    step present h = refl
    step (vacant e') h = h (i + length b.slots) e'
