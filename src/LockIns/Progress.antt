-- ===== src/LockIns/Progress.antt =====
-- What a call of `LockIns` knows after a step of its own, and what the step does to the lock and to
-- the bin as a whole.
use clht.Prelude.{
  ℕ, suc, ◌%◌, ◌<◌, ◌≤◌, ◌≡◌, ◌≢◌, ◌==◌, ltb, refl, sym, ap, ◌∙◌, Bool, true, false, Option, none,
  some, [], ◌∷◌, length, length-append, Bool-cases, inl, inr, ==→eq, ==→ne, ltb→lt, arith,
  if◌then◌else◌,
}
use clht.LbRes.Bucket.{Block, lock_free, lock_update}
use clht.LockIns.{
  key_blck, Bin, key_at, is_last, Put, seek_key, seek_next, acquire, scan_key, scan_zero, scan_next,
  scan_on, scan_other, scan_end, expand, crashed, write_val, write_key, release, returned, put_step,
  acquire_at, expand_at, Remove, look, look_next, block, take_val, clear, removed, remove_step,
  Call, idle, getting, putting, removing, call_step,
}
use clht.LockIns.Local.{IsKey, IsValid, Absent, Missing, Remembered, Knows, PutKnows, RemoveKnows}
use clht.LockIns.Moves.{get_or-in_range, get_or-out_of_range, get_or-append_zeros, get_or-set_here}

-- a predicate on both results of a test
if-both :
    {A : Type 0} (P : A → Type 0) (c : Bool) {x y : A}
    → (c ≡ true → P x)
    → (c ≡ false → P y)
    → P (if c then x else y)
if-both P true h g = h refl
if-both P false h g = g refl

Absent-suc : (b : Bin) (k i : ℕ) → Absent b k i → key_at b i ≢ k → Absent b k (suc i)
Absent-suc b k i a ne j l = elim (Bool-cases (j == i)) [
  | inl e ↦ λ f. ne (ap (key_at b) (sym (==→eq j i e)) ∙ f)
  | inr e ↦ let apart = ==→ne j i e in a j (ground arith)
]

scan_on-Knows :
    (k v i : ℕ) (e : Option ℕ) (b : Bin)
    → IsValid b
    → i < length b.key
    → Absent b k (suc i)
    → Remembered b e
    → PutKnows k v b (scan_on i e)
unfolding PutKnows
scan_on-Knows k v i e b valid inside a r =
    if-both (PutKnows k v b) (is_last i) (λ l. (a, r))
      (λ l. (omega (arith, inside, valid.whole, ==→ne (suc i % 3) 0 l), a, r))

scan_other-Knows :
    (k v i : ℕ) (e : Option ℕ) (b : Bin)
    → IsValid b
    → i < length b.key
    → Absent b k (suc i)
    → Remembered b e
    → PutKnows k v b (scan_other i e)
unfolding PutKnows
scan_other-Knows k v i none b valid inside a r = (inside, a)
scan_other-Knows k v i (some p) b valid inside a r = scan_on-Knows k v i (some p) b valid inside a r

-- the walk has seen every slot
Absent-Missing : (b : Bin) (k i : ℕ) → IsKey k → Absent b k i → length b.key ≤ i → Missing b k
Absent-Missing b k i key a whole j = elim (Bool-cases (ltb j i)) [
  | inl e ↦ a j (ltb→lt j i e)
  | inr e ↦ λ f. key.0 (sym f ∙ get_or-out_of_range b.key j (ground arith))
]

scan_end-Knows :
    (k v : ℕ) (e : Option ℕ) (b : Bin) → Remembered b e → Missing b k → PutKnows k v b (scan_end e)
unfolding PutKnows
scan_end-Knows k v none b r m = m
scan_end-Knows k v (some p) b r m = (r, m)

expand_at-Knows :
    (k v : ℕ) (m : Block) (b : Bin) → Missing b k → PutKnows k v (expand_at b m).1 (expand_at b m).0
unfolding expand_at PutKnows
expand_at-Knows k v none b x = tt
expand_at-Knows k v (some words) b x = (
  (
    omega (arith, length-append b.key (0 ∷ 0 ∷ 0 ∷ [])),
    get_or-append_zeros b.key (length b.key)
        ∙ get_or-out_of_range b.key (length b.key) (omega arith),
  ),
  λ j f. x j (sym (get_or-append_zeros b.key j) ∙ f),
)

acquire_at-Knows :
    (k v : ℕ) (b : Bin) → IsValid b → b.lock ≤ 1 → PutKnows k v (acquire_at b).1 (acquire_at b).0
unfolding acquire_at PutKnows
acquire_at-Knows k v b valid l = elim (Bool-cases (b.lock == lock_free)) [
  | inl e ↦ rw e (valid.some_bucket, (λ j h. absurd (omega (arith, h))), tt)
  | inr e ↦ elim (Bool-cases (b.lock == lock_update)) [
    | inl f ↦ rw (e, f) tt
    | inr f ↦ absurd (omega (arith, l, ==→ne b.lock 0 e, ==→ne b.lock 1 f))
  ]
]

put_step-Knows :
    (k v : ℕ) (m : Block) (b : Bin) (p : Put)
    → IsValid b
    → b.lock ≤ 1
    → IsKey k
    → PutKnows k v b p
    → PutKnows k v (put_step k v m b p).1 (put_step k v m b p).0
unfolding put_step PutKnows
put_step-Knows k v m b (seek_key i) valid l key x =
    if-both (PutKnows k v b) (key_at b i == k) (λ e. tt)
      (λ e. if-both (PutKnows k v b) (is_last i) (λ f. tt) (λ f. tt))
put_step-Knows k v m b (seek_next i) valid l key x =
    if-both (PutKnows k v b) (ltb i (length b.key)) (λ e. tt) (λ e. tt)
put_step-Knows k v m b acquire valid l key x = acquire_at-Knows k v b valid l
put_step-Knows k v m b (scan_key i e) valid l key x =
    if-both (PutKnows k v b) (key_at b i == k) (λ f. tt)
      (λ f.
        scan_other-Knows k v i e b valid x.0 (Absent-suc b k i x.1 (==→ne (key_at b i) k f)) x.2)
put_step-Knows k v m b (scan_zero i) valid l key x =
    scan_on-Knows k v i (if key_at b i == 0 then some i else none) b valid x.0 x.1
      (if-both (Remembered b) (key_at b i == 0) (λ e. (x.0, ==→eq (key_at b i) 0 e)) (λ e. tt))
put_step-Knows k v m b (scan_next i e) valid l key x =
    if-both (PutKnows k v b) (ltb i (length b.key)) (λ f. (ltb→lt i (length b.key) f, x.0, x.1))
      (λ f. scan_end-Knows k v e b x.1 (Absent-Missing b k i key x.0 (ground arith)))
put_step-Knows k v m b expand valid l key x = expand_at-Knows k v m b x
put_step-Knows k v m b crashed valid l key x = tt
put_step-Knows k v m b (write_val p) valid l key x =
    (x.0, x.1, get_or-set_here b.val p p v (omega (arith, x.0.0, valid.paired)) refl)
put_step-Knows k v m b (write_key p) valid l key x = tt
put_step-Knows k v m b (release r) valid l key x = tt
put_step-Knows k v m b (returned r) valid l key x = tt

remove_step-Knows :
    (k : ℕ) (b : Bin) (p : Remove)
    → IsKey k
    → RemoveKnows k b p
    → RemoveKnows k (remove_step k b p).1 (remove_step k b p).0
unfolding remove_step RemoveKnows
remove_step-Knows k b (look i) key x =
    if-both (RemoveKnows k b) (key_at b i == k) (λ e. tt)
      (λ e. if-both (RemoveKnows k b) (is_last i) (λ f. tt) (λ f. tt))
remove_step-Knows k b (look_next i) key x =
    if-both (RemoveKnows k b) (ltb i (length b.key)) (λ e. tt) (λ e. tt)
remove_step-Knows k b (block i) key x = elim (Bool-cases (key_at b i == k)) [
  | inl e ↦ rw e (
      get_or-set_here b.key i i key_blck
        (get_or-in_range b.key i (λ z. key.0 (sym (==→eq (key_at b i) k e) ∙ z))) refl)
  | inr e ↦ rw e tt
]
remove_step-Knows k b (take_val i) key x = (x, refl)
remove_step-Knows k b (clear i v) key x = tt
remove_step-Knows k b (removed v) key x = tt

pub call_step-Knows :
    (b : Bin) (t : Call)
    → IsValid b
    → b.lock ≤ 1
    → Knows b t
    → Knows (call_step b t).1 (call_step b t).0
unfolding call_step Knows
call_step-Knows b idle valid l x = tt
call_step-Knows b (getting k p) valid l x = tt
call_step-Knows b (putting k v m p) valid l x = (x.0, put_step-Knows k v m b p valid l x.0 x.1)
call_step-Knows b (removing k p) valid l x = (x.0, remove_step-Knows k b p x.0 x.1)
