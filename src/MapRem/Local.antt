-- ===== src/MapRem/Local.antt =====
-- What a call of `MapRem` knows of the bucket between two of its steps.
use clht.Prelude.{ℕ, ◌≡◌, refl, ◌∙◌, Option, none, some, length, get_or}
use clht.Lf.Bucket.{Bucket, Put, retry, searching, reserve, write_val, write_key, publish, returned}
use clht.Lf.Bucket.Reserved.{reserved}
use clht.MapRem.{
  map_insrt, map_remov, state, Remove, look, check_map, check_key, check_val, block, check_again,
  take_val, clear, restore, removed, Call, idle, getting, putting, removing,
}

-- The arrays have one element for each slot.
pub record IsWhole (b : Bucket) : Type 0 where
  pub map : length b.snapshot.map ≡ 3
  pub key : length b.key ≡ 3
  pub val : length b.val ≡ 3

-- the slot that a remove has blocked
abbrev pub blocked : Remove → Option ℕ
blocked (check_again i) = some i
blocked (take_val i) = some i
blocked (clear i v) = some i
blocked (restore i) = some i
blocked _ = none

-- the slot that a call has reserved or blocked
abbrev pub owns : Call → Option ℕ
owns idle = none
owns (getting k p) = none
owns (putting k v p) = reserved p
owns (removing k p) = blocked p

-- slot i holds the binding, and has the byte m
abbrev pub Holds : ℕ → ℕ → Bucket → ℕ → ℕ → Type 0
Holds k v b i m = (state b i ≡ m) × (get_or b.key i 0 ≡ k) × (get_or b.val i 0 ≡ v)

abbrev pub Kept : ℕ → ℕ → Bucket → Option ℕ → Type 0
Kept k v b none = Unit
Kept k v b (some i) = Holds k v b i map_insrt

unfoldable pub PutKnows : ℕ → ℕ → Bucket → Put → Type 0
PutKnows k v b (retry e) = Kept k v b e
PutKnows k v b (searching e s p) = Kept k v b e
PutKnows k v b (write_val i s1) = state b i ≡ map_insrt
PutKnows k v b (write_key i s1) = (state b i ≡ map_insrt) × (get_or b.val i 0 ≡ v)
PutKnows k v b (publish i s1) = Holds k v b i map_insrt
PutKnows k v b _ = Unit {0}

unfoldable pub RemoveKnows : ℕ → Bucket → Remove → Type 0
RemoveKnows k b (check_again i) = state b i ≡ map_remov
RemoveKnows k b (take_val i) = (state b i ≡ map_remov) × (get_or b.key i 0 ≡ k)
RemoveKnows k b (clear i v) = Holds k v b i map_remov
RemoveKnows k b (restore i) = state b i ≡ map_remov
RemoveKnows k b _ = Unit {0}

unfoldable pub Knows : Bucket → Call → Type 0
Knows b idle = Unit {0}
Knows b (getting k p) = Unit {0}
Knows b (putting k v p) = PutKnows k v b p
Knows b (removing k p) = RemoveKnows k b p

-- slot j is the same in the two buckets
pub record Stays (j : ℕ) (b c : Bucket) : Type 0 where
  pub state : state c j ≡ state b j
  pub key : get_or c.key j 0 ≡ get_or b.key j 0
  pub val : get_or c.val j 0 ≡ get_or b.val j 0

pub Stays-refl : (j : ℕ) (b : Bucket) → Stays j b b
Stays-refl j b = record { state = refl; key = refl; val = refl }

Holds-Stays : (k v : ℕ) (b c : Bucket) (i m : ℕ) → Stays i b c → Holds k v b i m → Holds k v c i m
Holds-Stays k v b c i m f x = (f.state ∙ x.0, f.key ∙ x.1, f.val ∙ x.2)

Kept-Stays :
    (k v : ℕ) (b c : Bucket) (e : Option ℕ)
    → ((i : ℕ) → e ≡ some i → Stays i b c)
    → Kept k v b e
    → Kept k v c e
Kept-Stays k v b c none f x = tt
Kept-Stays k v b c (some i) f x = Holds-Stays k v b c i map_insrt (f i refl) x

PutKnows-Stays :
    (k v : ℕ) (b c : Bucket) (p : Put)
    → ((i : ℕ) → reserved p ≡ some i → Stays i b c)
    → PutKnows k v b p
    → PutKnows k v c p
unfolding PutKnows
PutKnows-Stays k v b c (retry e) f x = Kept-Stays k v b c e f x
PutKnows-Stays k v b c (searching e s p) f x = Kept-Stays k v b c e f x
PutKnows-Stays k v b c (reserve s) f x = tt
PutKnows-Stays k v b c (write_val i s1) f x = (f i refl).state ∙ x
PutKnows-Stays k v b c (write_key i s1) f x = ((f i refl).state ∙ x.0, (f i refl).val ∙ x.1)
PutKnows-Stays k v b c (publish i s1) f x = Holds-Stays k v b c i map_insrt (f i refl) x
PutKnows-Stays k v b c (returned r) f x = tt

RemoveKnows-Stays :
    (k : ℕ) (b c : Bucket) (p : Remove)
    → ((i : ℕ) → blocked p ≡ some i → Stays i b c)
    → RemoveKnows k b p
    → RemoveKnows k c p
unfolding RemoveKnows
RemoveKnows-Stays k b c (look i) f x = tt
RemoveKnows-Stays k b c (check_map i v) f x = tt
RemoveKnows-Stays k b c (check_key i v) f x = tt
RemoveKnows-Stays k b c (check_val i v) f x = tt
RemoveKnows-Stays k b c (block i) f x = tt
RemoveKnows-Stays k b c (check_again i) f x = (f i refl).state ∙ x
RemoveKnows-Stays k b c (take_val i) f x = ((f i refl).state ∙ x.0, (f i refl).key ∙ x.1)
RemoveKnows-Stays k b c (clear i v) f x = Holds-Stays k v b c i map_remov (f i refl) x
RemoveKnows-Stays k b c (restore i) f x = (f i refl).state ∙ x
RemoveKnows-Stays k b c (removed v) f x = tt

-- What a call knows stays true where the slot that it owns is left alone.
pub Knows-Stays :
    (b c : Bucket) (t : Call) → ((i : ℕ) → owns t ≡ some i → Stays i b c) → Knows b t → Knows c t
unfolding Knows
Knows-Stays b c idle f x = tt
Knows-Stays b c (getting k p) f x = tt
Knows-Stays b c (putting k v p) f x = PutKnows-Stays k v b c p f x
Knows-Stays b c (removing k p) f x = RemoveKnows-Stays k b c p f x
