-- ===== src/LockIns/Local.antt =====
-- What a call of `LockIns` knows of the bin between two of its steps.
use clht.Prelude.{
  ℕ, suc, ◌%◌, ◌<◌, ◌≡◌, ◌≢◌, Bool, true, false, Option, none, some, length, arith, refl, ◌∙◌,
}
use clht.LockIns.{
  key_blck, Bin, key_at, val_at, Put, seek_key, seek_next, acquire, scan_key, scan_zero, scan_next,
  expand, crashed, write_val, write_key, release, returned, Remove, look, look_next, block,
  take_val, clear, removed, Call, idle, getting, putting, removing,
}

-- a key of the map: not the mark of an empty slot, nor that of a blocked one
abbrev pub IsKey : ℕ → Type 0
IsKey k = (k ≢ 0) × (k ≢ key_blck)

-- No key is in two slots, the buckets are whole, and there is one at least.
pub record IsValid (b : Bin) : Type 0 where
  pub once : (i j : ℕ) → IsKey (key_at b i) → key_at b i ≡ key_at b j → i ≡ j
  pub whole : length b.key % 3 ≡ 0
  pub some_bucket : 0 < length b.key
  pub paired : length b.val ≡ length b.key

-- whether a put holds the lock
abbrev pub put_holds : Put → Bool
put_holds (seek_key i) = false
put_holds (seek_next i) = false
put_holds acquire = false
put_holds (returned r) = false
put_holds _ = true

abbrev pub holds_lock : Call → Bool
holds_lock (putting k v m p) = put_holds p
holds_lock _ = false

-- the slot that a remove has blocked
abbrev pub owns : Call → Option ℕ
owns (removing k (take_val i)) = some i
owns (removing k (clear i v)) = some i
owns _ = none

-- the first i slots do not have the key
abbrev pub Absent : Bin → ℕ → ℕ → Type 0
Absent b k i = (j : ℕ) → j < i → key_at b j ≢ k

abbrev pub Missing : Bin → ℕ → Type 0
Missing b k = (j : ℕ) → key_at b j ≢ k

abbrev pub IsFree : Bin → ℕ → Type 0
IsFree b p = (p < length b.key) × (key_at b p ≡ 0)

abbrev pub Remembered : Bin → Option ℕ → Type 0
Remembered b none = Unit
Remembered b (some p) = IsFree b p

unfoldable pub PutKnows : ℕ → ℕ → Bin → Put → Type 0
PutKnows k v b (scan_key i e) = (i < length b.key) × Absent b k i × Remembered b e
PutKnows k v b (scan_zero i) = (i < length b.key) × Absent b k (suc i)
PutKnows k v b (scan_next i e) = Absent b k i × Remembered b e
PutKnows k v b expand = Missing b k
PutKnows k v b (write_val p) = IsFree b p × Missing b k
PutKnows k v b (write_key p) = IsFree b p × Missing b k × (val_at b p ≡ v)
PutKnows k v b _ = Unit {0}

unfoldable pub RemoveKnows : ℕ → Bin → Remove → Type 0
RemoveKnows k b (take_val i) = key_at b i ≡ key_blck
RemoveKnows k b (clear i v) = (key_at b i ≡ key_blck) × (val_at b i ≡ v)
RemoveKnows k b _ = Unit {0}

unfoldable pub Knows : Bin → Call → Type 0
Knows b idle = Unit {0}
Knows b (getting k p) = Unit {0}
Knows b (putting k v m p) = IsKey k × PutKnows k v b p
Knows b (removing k p) = IsKey k × RemoveKnows k b p

-- What a call that does not hold the lock may do to a slot: nothing, or take its key away.
pub record Shrinks (b c : Bin) : Type 0 where
  pub length_key : length c.key ≡ length b.key
  pub keeps : (k j : ℕ) → IsKey k → key_at b j ≢ k → key_at c j ≢ k
  pub free : (j : ℕ) → key_at b j ≡ 0 → key_at c j ≡ 0
  pub val : (j : ℕ) → key_at b j ≡ 0 → val_at c j ≡ val_at b j

IsFree-Shrinks : (b c : Bin) (p : ℕ) → Shrinks b c → IsFree b p → IsFree c p
IsFree-Shrinks b c p s f = (omega (arith, s.length_key, f.0), s.free p f.1)

Remembered-Shrinks : (b c : Bin) (e : Option ℕ) → Shrinks b c → Remembered b e → Remembered c e
Remembered-Shrinks b c none s r = tt
Remembered-Shrinks b c (some p) s r = IsFree-Shrinks b c p s r

Absent-Shrinks : (b c : Bin) (k i : ℕ) → IsKey k → Shrinks b c → Absent b k i → Absent c k i
Absent-Shrinks b c k i key s a j l = s.keeps k j key (a j l)

Missing-Shrinks : (b c : Bin) (k : ℕ) → IsKey k → Shrinks b c → Missing b k → Missing c k
Missing-Shrinks b c k key s m j = s.keeps k j key (m j)

PutKnows-Shrinks :
    (k v : ℕ) (b c : Bin) (p : Put)
    → IsKey k
    → (put_holds p ≡ true → Shrinks b c)
    → PutKnows k v b p
    → PutKnows k v c p
unfolding PutKnows
PutKnows-Shrinks k v b c (seek_key i) key h x = tt
PutKnows-Shrinks k v b c (seek_next i) key h x = tt
PutKnows-Shrinks k v b c acquire key h x = tt
PutKnows-Shrinks k v b c (scan_key i e) key h x =
    let s = h refl in
    (
      omega (arith, s.length_key, x.0),
      Absent-Shrinks b c k i key s x.1,
      Remembered-Shrinks b c e s x.2,
    )
PutKnows-Shrinks k v b c (scan_zero i) key h x =
    let s = h refl in (omega (arith, s.length_key, x.0), Absent-Shrinks b c k (suc i) key s x.1)
PutKnows-Shrinks k v b c (scan_next i e) key h x =
    let s = h refl in (Absent-Shrinks b c k i key s x.0, Remembered-Shrinks b c e s x.1)
PutKnows-Shrinks k v b c expand key h x = Missing-Shrinks b c k key (h refl) x
PutKnows-Shrinks k v b c crashed key h x = tt
PutKnows-Shrinks k v b c (write_val p) key h x =
    (IsFree-Shrinks b c p (h refl) x.0, Missing-Shrinks b c k key (h refl) x.1)
PutKnows-Shrinks k v b c (write_key p) key h x =
    let s = h refl in
    (IsFree-Shrinks b c p s x.0, Missing-Shrinks b c k key s x.1, s.val p x.0.1 ∙ x.2)
PutKnows-Shrinks k v b c (release r) key h x = tt
PutKnows-Shrinks k v b c (returned r) key h x = tt

-- a slot that another call leaves alone
pub record Fixed (b c : Bin) (i : ℕ) : Type 0 where
  pub key : key_at c i ≡ key_at b i
  pub val : val_at c i ≡ val_at b i

-- What a call knows stays true while the others step.
pub Knows-stable :
    (b c : Bin) (t : Call)
    → (holds_lock t ≡ true → Shrinks b c)
    → ((i : ℕ) → owns t ≡ some i → Fixed b c i)
    → Knows b t
    → Knows c t
unfolding Knows RemoveKnows
Knows-stable b c idle h f x = tt
Knows-stable b c (getting k p) h f x = tt
Knows-stable b c (putting k v m p) h f x = (x.0, PutKnows-Shrinks k v b c p x.0 h x.1)
Knows-stable b c (removing k (look i)) h f x = (x.0, tt)
Knows-stable b c (removing k (look_next i)) h f x = (x.0, tt)
Knows-stable b c (removing k (block i)) h f x = (x.0, tt)
Knows-stable b c (removing k (take_val i)) h f x = (x.0, (f i refl).key ∙ x.1)
Knows-stable b c (removing k (clear i v)) h f x =
    (x.0, ((f i refl).key ∙ x.1.0, (f i refl).val ∙ x.1.1))
Knows-stable b c (removing k (removed v)) h f x = (x.0, tt)
