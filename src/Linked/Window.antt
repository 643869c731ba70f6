-- ===== src/Linked/Window.antt =====
-- The buckets of a table of `Linked` by their numbers, and the walk over a window of them.
use clht.Prelude.{
  ℕ, zero, suc, ◌+◌, ◌<◌, ◌≤◌, ◌≡◌, ◌≢◌, refl, sym, ap, ◌∙◌, ◌==◌, Bool, true, false, Option, none,
  some, List, [], ◌∷◌, length, get_or, done, Bool-cases, ==→eq, ==→ne, Option-cases, inl, inr,
  arith,
}
use clht.Slots.{Slot, find}
use clht.Slots.Laws.{or_else}
use clht.LbRes.Bucket.{exists_slots}
use clht.LbRes.Bucket.Walk.{value_or_zero, get_slots-find}
use clht.Linked.{Bucket, at, modify, get_from, exists_from}

abbrev blank : Bucket
blank = record { lock = 0; hops = 0; slots = [] }

-- bucket i of the array, and an empty one past its end
abbrev pub bucket_at : List Bucket → ℕ → Bucket
bucket_at t i = get_or t i blank

pub at-bucket_at : (t : List Bucket) (i : ℕ) → i < length t → at t i ≡ done (bucket_at t i)
unfolding at
at-bucket_at [] i h = absurd (omega (arith, h))
at-bucket_at (b ∷ t) zero h = refl
at-bucket_at (b ∷ t) (suc i) h = at-bucket_at t i (omega (arith, h))

pub length-modify :
    (t : List Bucket) (i : ℕ) (f : Bucket → Bucket) → length (modify t i f) ≡ length t
unfolding modify
length-modify [] i f = refl
length-modify (b ∷ t) zero f = refl
length-modify (b ∷ t) (suc i) f = ap suc (length-modify t i f)

pub modify-here :
    (t : List Bucket) (i : ℕ) (f : Bucket → Bucket)
    → i < length t
    → bucket_at (modify t i f) i ≡ f (bucket_at t i)
unfolding modify
modify-here [] i f h = absurd (omega (arith, h))
modify-here (b ∷ t) zero f h = refl
modify-here (b ∷ t) (suc i) f h = modify-here t i f (omega (arith, h))

pub modify-there :
    (t : List Bucket) (i m : ℕ) (f : Bucket → Bucket)
    → i ≢ m
    → bucket_at (modify t i f) m ≡ bucket_at t m
unfolding modify
modify-there [] i m f ne = refl
modify-there (b ∷ t) zero zero f ne = absurd (ne refl)
modify-there (b ∷ t) zero (suc m) f ne = refl
modify-there (b ∷ t) (suc i) zero f ne = refl
modify-there (b ∷ t) (suc i) (suc m) f ne = modify-there t i m f (λ e. ne (ap suc e))

-- what bucket i binds the key to
abbrev pub bound_at : ℕ → List Bucket → ℕ → Option ℕ
bound_at k t i = find k (bucket_at t i).slots

-- what the n buckets from i on bind the key to
unfoldable pub look : ℕ → ℕ → List Bucket → ℕ → Option ℕ
look zero k t i = none
look (suc n) k t i = or_else (bound_at k t i) (look n k t (suc i))

pub get_from-look :
    (n k : ℕ) (t : List Bucket) (i : ℕ)
    → i + n ≤ length t
    → get_from n k t i ≡ done (value_or_zero (look n k t i))
unfolding get_from look
get_from-look zero k t i h = refl
get_from-look (suc n) k t i h =
    let rest = get_from-look n k t (suc i) (omega (arith, h)) in
    let here = get_slots-find k (bucket_at t i).slots in
    elim (Option-cases (bound_at k t i)) [
      | inl e ↦ rw (at-bucket_at t i (omega (arith, h)), here, e) rest
      | inr (v, e) ↦ rw (at-bucket_at t i (omega (arith, h)), here, e)
    ]

abbrev pub is_some : Option ℕ → Bool
is_some none = false
is_some (some v) = true

find-some_count : (k : ℕ) (xs : List Slot) → exists_slots k xs ≡ is_some (find k xs)
unfolding exists_slots find
find-some_count k [] = refl
find-some_count k (s ∷ xs) = ground (arith, find-some_count k xs)

pub exists_from-look :
    (n k : ℕ) (t : List Bucket) (i : ℕ)
    → i + n ≤ length t
    → exists_from n k t i ≡ done (is_some (look n k t i))
unfolding exists_from look
exists_from-look zero k t i h = refl
exists_from-look (suc n) k t i h =
    let rest = exists_from-look n k t (suc i) (omega (arith, h)) in
    let here = find-some_count k (bucket_at t i).slots in
    elim (Option-cases (bound_at k t i)) [
      | inl e ↦ rw (at-bucket_at t i (omega (arith, h)), here, e) rest
      | inr (v, e) ↦ rw (at-bucket_at t i (omega (arith, h)), here, e)
    ]

pub exists_slots-none : (k : ℕ) (xs : List Slot) → find k xs ≡ none → exists_slots k xs ≡ false
exists_slots-none k xs e = find-some_count k xs ∙ ap is_some e

-- Walks over buckets that bind the key alike end alike.
pub look-alike :
    (n k : ℕ) (t u : List Bucket) (i : ℕ)
    → ((m : ℕ) → bound_at k u m ≡ bound_at k t m)
    → look n k u i ≡ look n k t i
unfolding look
look-alike zero k t u i same = refl
look-alike (suc n) k t u i same = rw (same i, look-alike n k t u (suc i) same)

-- A walk that finds nothing has passed no bucket that binds the key.
pub look-none :
    (n k : ℕ) (t : List Bucket) (i m : ℕ)
    → look n k t i ≡ none
    → i ≤ m
    → m < i + n
    → bound_at k t m ≡ none
unfolding look
look-none zero k t i m e low high = absurd (omega (arith, low, high))
look-none (suc n) k t i m e low high = elim (Option-cases (bound_at k t i)) [
  | inr (v, f) ↦ let never : some v ≡ none = rw f at e in absurd (ground arith)
  | inl f ↦ elim (Bool-cases (i == m)) [
    | inl g ↦ ap (bound_at k t) (sym (==→eq i m g)) ∙ f
    | inr g ↦
        let rest : look n k t (suc i) ≡ none = rw f at e in
        let ne = ==→ne i m g in look-none n k t (suc i) m rest (ground arith) (omega (arith, high))
  ]
]

pub look-tail :
    (n k : ℕ) (t : List Bucket) (i : ℕ) → look (suc n) k t i ≡ none → look n k t (suc i) ≡ none
unfolding look
look-tail n k t i e = elim (Option-cases (bound_at k t i)) [
  | inl f ↦ rw f at e
  | inr (v, f) ↦ let never : some v ≡ none = rw f at e in absurd (ground arith)
]

-- A walk over buckets that do not bind the key.
look-beyond :
    (n k : ℕ) (t : List Bucket) (i : ℕ)
    → ((m : ℕ) → i ≤ m → bound_at k t m ≡ none)
    → look n k t i ≡ none
unfolding look
look-beyond zero k t i gone = refl
look-beyond (suc n) k t i gone =
    rw (gone i (omega arith)) (look-beyond n k t (suc i) (λ m h. gone m (omega (arith, h))))

-- A longer walk finds no more, where no bucket past the shorter one binds the key.
pub look-longer :
    (n r k : ℕ) (t : List Bucket) (i : ℕ)
    → n ≤ r
    → ((m : ℕ) → i + n ≤ m → bound_at k t m ≡ none)
    → look r k t i ≡ look n k t i
unfolding look
look-longer zero r k t i h gone = look-beyond r k t i (λ m l. gone m (omega (arith, l)))
look-longer (suc n) zero k t i h gone = absurd (omega (arith, h))
look-longer (suc n) (suc r) k t i h gone =
    ap (or_else (bound_at k t i))
      (look-longer n r k t (suc i) (omega (arith, h)) (λ m l. gone m (omega (arith, l))))

-- A walk that passes the only bucket that binds the key.
pub look-only :
    (n k v : ℕ) (t : List Bucket) (i p : ℕ)
    → ((m : ℕ) → m ≢ p → bound_at k t m ≡ none)
    → bound_at k t p ≡ some v
    → i ≤ p
    → p < i + n
    → look n k t i ≡ some v
unfolding look
look-only zero k v t i p gone here low high = absurd (omega (arith, low, high))
look-only (suc n) k v t i p gone here low high = elim (Bool-cases (i == p)) [
  | inl e ↦ let now : bound_at k t i ≡ some v = ap (bound_at k t) (==→eq i p e) ∙ here in rw now
  | inr e ↦
      let ne = ==→ne i p e in
      rw (gone i ne) (look-only n k v t (suc i) p gone here (ground arith) (omega (arith, high)))
]
