-- ===== src/LockIns/Locks.antt =====
-- What one step of a call of `LockIns` does to the lock.
use clht.Prelude.{
  ℕ, suc, ◌≤◌, ◌≡◌, ◌==◌, ltb, refl, Bool, true, false, Option, none, some, length, Bool-cases, inl,
  inr, ==→eq, ==→ne, arith, if◌then◌else◌,
}
use clht.LbRes.Bucket.{Block, lock_free, lock_update}
use clht.LockIns.{
  Bin, key_at, is_last, Put, seek_key, seek_next, acquire, scan_key, scan_zero, scan_next, scan_on,
  scan_other, scan_end, expand, crashed, write_val, write_key, release, returned, put_step,
  acquire_at, expand_at, Remove, look, look_next, block, take_val, clear, removed, remove_step,
  Call, idle, getting, putting, removing, call_step,
}
use clht.LockIns.Local.{put_holds, holds_lock}

-- the lock before and after a step, and whether the call holds it
pub data LockMoves (l m : ℕ) (h g : Bool) : Type 0 where
  kept : m ≡ l → g ≡ h → LockMoves l m h g
  taken : l ≡ 0 → m ≡ 1 → h ≡ false → g ≡ true → LockMoves l m h g
  freed : m ≡ 0 → h ≡ true → g ≡ false → LockMoves l m h g

acquire_at-LockMoves :
    (b : Bin)
    → b.lock ≤ 1
    → LockMoves b.lock (acquire_at b).1.lock false (put_holds (acquire_at b).0)
unfolding acquire_at
acquire_at-LockMoves b l = elim (Bool-cases (b.lock == lock_free)) [
  | inl e ↦ rw e (taken (==→eq b.lock 0 e) refl refl refl)
  | inr e ↦ elim (Bool-cases (b.lock == lock_update)) [
    | inl f ↦ rw (e, f) (kept refl refl)
    | inr f ↦ absurd (omega (arith, l, ==→ne b.lock 0 e, ==→ne b.lock 1 f))
  ]
]

expand_at-LockMoves :
    (b : Bin) (m : Block)
    → LockMoves b.lock (expand_at b m).1.lock true (put_holds (expand_at b m).0)
unfolding expand_at
expand_at-LockMoves b none = kept refl refl
expand_at-LockMoves b (some words) = kept refl refl

-- the results of a test agree on who holds the lock
put_holds-if :
    (c h : Bool) (p q : Put)
    → put_holds p ≡ h
    → put_holds q ≡ h
    → put_holds (if c then p else q) ≡ h
put_holds-if true h p q e f = e
put_holds-if false h p q e f = f

put_holds-scan_on : (i : ℕ) (e : Option ℕ) → put_holds (scan_on i e) ≡ true
put_holds-scan_on i e =
    put_holds-if (is_last i) true (scan_next (suc i) e) (scan_key (suc i) e) refl refl

put_holds-scan_other : (i : ℕ) (e : Option ℕ) → put_holds (scan_other i e) ≡ true
put_holds-scan_other i none = refl
put_holds-scan_other i (some p) = put_holds-scan_on i (some p)

put_holds-scan_end : (e : Option ℕ) → put_holds (scan_end e) ≡ true
put_holds-scan_end none = refl
put_holds-scan_end (some p) = refl

put_step-LockMoves :
    (k v : ℕ) (m : Block) (b : Bin) (p : Put)
    → b.lock ≤ 1
    → LockMoves b.lock (put_step k v m b p).1.lock (put_holds p) (put_holds (put_step k v m b p).0)
unfolding put_step
put_step-LockMoves k v m b (seek_key i) l = kept refl (
    put_holds-if (key_at b i == k) false (returned false)
      (if is_last i then seek_next (suc i) else seek_key (suc i)) refl
      (put_holds-if (is_last i) false (seek_next (suc i)) (seek_key (suc i)) refl refl))
put_step-LockMoves k v m b (seek_next i) l =
    kept refl (put_holds-if (ltb i (length b.key)) false (seek_key i) acquire refl refl)
put_step-LockMoves k v m b acquire l = acquire_at-LockMoves b l
put_step-LockMoves k v m b (scan_key i e) l = kept refl (
    put_holds-if (key_at b i == k) true (release false) (scan_other i e) refl
      (put_holds-scan_other i e))
put_step-LockMoves k v m b (scan_zero i) l = kept refl (put_holds-scan_on i _)
put_step-LockMoves k v m b (scan_next i e) l = kept refl (
    put_holds-if (ltb i (length b.key)) true (scan_key i e) (scan_end e) refl
      (put_holds-scan_end e))
put_step-LockMoves k v m b expand l = expand_at-LockMoves b m
put_step-LockMoves k v m b crashed l = kept refl refl
put_step-LockMoves k v m b (write_val p) l = kept refl refl
put_step-LockMoves k v m b (write_key p) l = kept refl refl
put_step-LockMoves k v m b (release r) l = freed refl refl refl
put_step-LockMoves k v m b (returned r) l = kept refl refl

-- A remove does not look at the lock.
remove_step-lock : (k : ℕ) (b : Bin) (p : Remove) → (remove_step k b p).1.lock ≡ b.lock
unfolding remove_step
remove_step-lock k b (look i) = refl
remove_step-lock k b (look_next i) = refl
remove_step-lock k b (block i) = ground arith
remove_step-lock k b (take_val i) = refl
remove_step-lock k b (clear i v) = refl
remove_step-lock k b (removed v) = refl

pub call_step-LockMoves :
    (b : Bin) (t : Call)
    → b.lock ≤ 1
    → LockMoves b.lock (call_step b t).1.lock (holds_lock t) (holds_lock (call_step b t).0)
unfolding call_step
call_step-LockMoves b idle l = kept refl refl
call_step-LockMoves b (getting k p) l = kept refl refl
call_step-LockMoves b (putting k v m p) l = put_step-LockMoves k v m b p l
call_step-LockMoves b (removing k p) l = kept (remove_step-lock k b p) refl
