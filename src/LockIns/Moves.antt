-- ===== src/LockIns/Moves.antt =====
-- What one step of a call of `LockIns` does to a slot.
use clht.Prelude.{
  ℕ, zero, suc, ◌<◌, ◌≤◌, ◌≡◌, ◌≢◌, ◌==◌, refl, sym, ap, ◌∙◌, true, none, some, List, [], ◌∷◌, ◌++◌,
  get_or, set, length, get_or-set, get_or-set_other, Bool-cases, inl, inr, ==→eq, ==→ne, arith,
}
use clht.LbRes.Bucket.{Block}
use clht.LockIns.{
  key_blck, Bin, key_at, val_at, Put, seek_key, seek_next, acquire, scan_key, scan_zero, scan_next,
  expand, crashed, write_val, write_key, release, returned, put_step, acquire_at, expand_at, Remove,
  look, look_next, block, take_val, clear, removed, remove_step, Call, idle, getting, putting,
  removing, call_step,
}
use clht.LockIns.Local.{IsKey, IsValid, holds_lock, owns, Missing, Knows, PutKnows, RemoveKnows}

-- A slot keeps its key and its value; the lock's holder writes the value of an empty slot; it puts a
-- key there that no slot has; a remove blocks the slot of its key; or it empties the slot that it
-- has blocked.
pub data SlotMoves (t : Call) (b c : Bin) (j : ℕ) : Type 0 where
  stays : key_at c j ≡ key_at b j → val_at c j ≡ val_at b j → SlotMoves t b c j
  fills : holds_lock t ≡ true → key_at b j ≡ 0 → key_at c j ≡ 0 → SlotMoves t b c j
  binds :
      {k v : ℕ} {m : Block}
      → t ≡ putting k v m (write_key j)
      → IsKey k
      → Missing b k
      → key_at b j ≡ 0
      → key_at c j ≡ k
      → val_at c j ≡ v
      → SlotMoves t b c j
  blocks :
      {k : ℕ} {p : Remove}
      → t ≡ removing k p
      → IsKey k
      → key_at b j ≡ k
      → key_at c j ≡ key_blck
      → val_at c j ≡ val_at b j
      → SlotMoves t b c j
  clears :
      owns t ≡ some j
      → key_at b j ≡ key_blck
      → key_at c j ≡ 0
      → val_at c j ≡ val_at b j
      → SlotMoves t b c j

pub get_or-in_range : (xs : List ℕ) (i : ℕ) → get_or xs i 0 ≢ 0 → i < length xs
get_or-in_range [] i h = absurd (h refl)
get_or-in_range (x ∷ xs) zero h = omega arith
get_or-in_range (x ∷ xs) (suc i) h = omega (arith, get_or-in_range xs i h)

pub get_or-out_of_range : (xs : List ℕ) (i : ℕ) → length xs ≤ i → get_or xs i 0 ≡ 0
get_or-out_of_range [] i h = refl
get_or-out_of_range (x ∷ xs) zero h = absurd (omega arith)
get_or-out_of_range (x ∷ xs) (suc i) h = get_or-out_of_range xs i (omega arith)

-- an appended bucket is empty
pub get_or-append_zeros : (xs : List ℕ) (i : ℕ) → get_or (xs ++ 0 ∷ 0 ∷ 0 ∷ []) i 0 ≡ get_or xs i 0
get_or-append_zeros [] zero = refl
get_or-append_zeros [] (suc zero) = refl
get_or-append_zeros [] (suc (suc zero)) = refl
get_or-append_zeros [] (suc (suc (suc i))) = refl
get_or-append_zeros (x ∷ xs) zero = refl
get_or-append_zeros (x ∷ xs) (suc i) = get_or-append_zeros xs i

get_or-append : (xs ys : List ℕ) (i : ℕ) → i < length xs → get_or (xs ++ ys) i 0 ≡ get_or xs i 0
get_or-append [] ys i h = absurd (omega arith)
get_or-append (x ∷ xs) ys zero h = refl
get_or-append (x ∷ xs) ys (suc i) h = get_or-append xs ys i (omega arith)

pub get_or-set_here :
    (xs : List ℕ) (i j v : ℕ) → i < length xs → i ≡ j → get_or (set xs i v) j 0 ≡ v
get_or-set_here xs i j v h e = ground (arith, get_or-set xs i j v 0 h)

expand_at-SlotMoves :
    (k v : ℕ) (m : Block) (b : Bin) (j : ℕ)
    → IsValid b
    → SlotMoves (putting k v m expand) b (expand_at b m).1 j
unfolding expand_at
expand_at-SlotMoves k v none b j valid = stays refl refl
expand_at-SlotMoves k v (some words) b j valid = elim (Bool-cases (key_at b j == 0)) [
  | inl e ↦
      fills refl (==→eq (key_at b j) 0 e) (get_or-append_zeros b.key j ∙ ==→eq (key_at b j) 0 e)
  | inr e ↦
      let inside = get_or-in_range b.key j (==→ne (key_at b j) 0 e) in
      stays (get_or-append_zeros b.key j) (
        get_or-append b.val (words 0 ∷ words 1 ∷ words 2 ∷ []) j
          (omega (arith, inside, valid.paired)))
]

acquire_at-stays : (b : Bin) → ((acquire_at b).1.key ≡ b.key) × ((acquire_at b).1.val ≡ b.val)
unfolding acquire_at
acquire_at-stays b = ground arith

put_step-SlotMoves :
    (k v : ℕ) (m : Block) (b : Bin) (p : Put) (j : ℕ)
    → IsValid b
    → IsKey k
    → PutKnows k v b p
    → SlotMoves (putting k v m p) b (put_step k v m b p).1 j
unfolding put_step PutKnows
put_step-SlotMoves k v m b (seek_key i) j valid key x = stays refl refl
put_step-SlotMoves k v m b (seek_next i) j valid key x = stays refl refl
put_step-SlotMoves k v m b acquire j valid key x =
    stays (ap (λ ks. get_or ks j 0) (acquire_at-stays b).0)
      (ap (λ vs. get_or vs j 0) (acquire_at-stays b).1)
put_step-SlotMoves k v m b (scan_key i e) j valid key x = stays refl refl
put_step-SlotMoves k v m b (scan_zero i) j valid key x = stays refl refl
put_step-SlotMoves k v m b (scan_next i e) j valid key x = stays refl refl
put_step-SlotMoves k v m b expand j valid key x = expand_at-SlotMoves k v m b j valid
put_step-SlotMoves k v m b crashed j valid key x = stays refl refl
put_step-SlotMoves k v m b (write_val p) j valid key x = elim (Bool-cases (p == j)) [
  | inl e ↦
      let empty : key_at b j ≡ 0 = ap (key_at b) (sym (==→eq p j e)) ∙ x.0.1 in
      fills refl empty empty
  | inr e ↦ stays refl (get_or-set_other b.val p j v 0 (==→ne p j e))
]
put_step-SlotMoves k v m b (write_key p) j valid key x = elim (Bool-cases (p == j)) [
  | inl e ↦
      let here = ==→eq p j e in
      binds (ap (λ q. putting k v m (write_key q)) here) key x.1 (ap (key_at b) (sym here) ∙ x.0.1)
        (get_or-set_here b.key p j k x.0.0 here) (ap (val_at b) (sym here) ∙ x.2)
  | inr e ↦ stays (get_or-set_other b.key p j k 0 (==→ne p j e)) refl
]
put_step-SlotMoves k v m b (release r) j valid key x = stays refl refl
put_step-SlotMoves k v m b (returned r) j valid key x = stays refl refl

-- the compare-and-swap of a remove finds its key
blocked_slot :
    (k : ℕ) (b : Bin) (i j : ℕ)
    → IsKey k
    → key_at b i ≡ k
    → SlotMoves (removing k (block i)) b (record b { key = set b.key i key_blck }) j
blocked_slot k b i j key found = elim (Bool-cases (i == j)) [
  | inl e ↦
      let here = ==→eq i j e in
      blocks refl key (ap (key_at b) (sym here) ∙ found)
        (get_or-set_here b.key i j key_blck (get_or-in_range b.key i (λ z. key.0 (sym found ∙ z)))
          here)
        refl
  | inr e ↦ stays (get_or-set_other b.key i j key_blck 0 (==→ne i j e)) refl
]

remove_step-SlotMoves :
    (k : ℕ) (b : Bin) (p : Remove) (j : ℕ)
    → IsKey k
    → RemoveKnows k b p
    → SlotMoves (removing k p) b (remove_step k b p).1 j
unfolding remove_step RemoveKnows
remove_step-SlotMoves k b (look i) j key x = stays refl refl
remove_step-SlotMoves k b (look_next i) j key x = stays refl refl
remove_step-SlotMoves k b (block i) j key x = elim (Bool-cases (key_at b i == k)) [
  | inl e ↦ rw e (blocked_slot k b i j key (==→eq (key_at b i) k e))
  | inr e ↦ rw e (stays refl refl)
]
remove_step-SlotMoves k b (take_val i) j key x = stays refl refl
remove_step-SlotMoves k b (clear i v) j key x = elim (Bool-cases (i == j)) [
  | inl e ↦
      let here = ==→eq i j e in
      clears (ap some here) (ap (key_at b) (sym here) ∙ x.0)
        (get_or-set_here b.key i j 0 (get_or-in_range b.key i (λ z. omega (arith, x.0, z))) here)
        refl
  | inr e ↦ stays (get_or-set_other b.key i j 0 0 (==→ne i j e)) refl
]
remove_step-SlotMoves k b (removed v) j key x = stays refl refl

pub call_step-SlotMoves :
    (b : Bin) (t : Call) (j : ℕ) → IsValid b → Knows b t → SlotMoves t b (call_step b t).1 j
unfolding call_step Knows
call_step-SlotMoves b idle j valid x = stays refl refl
call_step-SlotMoves b (getting k p) j valid x = stays refl refl
call_step-SlotMoves b (putting k v m p) j valid x = put_step-SlotMoves k v m b p j valid x.0 x.1
call_step-SlotMoves b (removing k p) j valid x = remove_step-SlotMoves k b p j x.0 x.1
