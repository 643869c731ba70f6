-- ===== src/LockIns/Sizes.antt =====
-- What one step of a call of `LockIns` does to the number of slots.
use clht.Prelude.{
  ℕ, ◌+◌, ◌≡◌, ◌⊎◌, ◌==◌, refl, Bool, true, false, none, some, [], ◌∷◌, set, length, length-append,
  length-set, Bool-cases, inl, inr, arith,
}
use clht.LbRes.Bucket.{Block, lock_free}
use clht.LockIns.{
  key_blck, Bin, key_at, Put, seek_key, seek_next, acquire, scan_key, scan_zero, scan_next, expand,
  crashed, write_val, write_key, release, returned, put_step, acquire_at, expand_at, Remove, look,
  look_next, block, take_val, clear, removed, remove_step, Call, idle, getting, putting, removing,
  call_step,
}
use clht.LockIns.Local.{put_holds, holds_lock}

-- the sizes of a bin that has as many values as keys
pub record Grows (b c : Bin) (held : Bool) : Type 0 where
  pub key : (length c.key ≡ length b.key) ⊎ ((held ≡ true) × (length c.key ≡ length b.key + 3))
  pub val : length c.val + length b.key ≡ length b.val + length c.key

same_size :
    (b c : Bin) (h : Bool) → length c.key ≡ length b.key → length c.val ≡ length b.val → Grows b c h
same_size b c h e f = record { key = inl e; val = omega (arith, e, f) }

acquire_at-Grows : (b : Bin) (h : Bool) → Grows b (acquire_at b).1 h
unfolding acquire_at
acquire_at-Grows b h = same_size b (acquire_at b).1 h (ground arith) (ground arith)

expand_at-Grows : (b : Bin) (m : Block) → Grows b (expand_at b m).1 true
unfolding expand_at
expand_at-Grows b none = same_size b b true refl refl
expand_at-Grows b (some words) = record {
  key = inr (refl, length-append b.key (0 ∷ 0 ∷ 0 ∷ []));
  val = omega (
    arith,
    length-append b.key (0 ∷ 0 ∷ 0 ∷ []),
    length-append b.val (words 0 ∷ words 1 ∷ words 2 ∷ []),
  );
}

put_step-Grows :
    (k v : ℕ) (m : Block) (b : Bin) (p : Put) → Grows b (put_step k v m b p).1 (put_holds p)
unfolding put_step
put_step-Grows k v m b (seek_key i) = same_size b b false refl refl
put_step-Grows k v m b (seek_next i) = same_size b b false refl refl
put_step-Grows k v m b acquire = acquire_at-Grows b false
put_step-Grows k v m b (scan_key i e) = same_size b b true refl refl
put_step-Grows k v m b (scan_zero i) = same_size b b true refl refl
put_step-Grows k v m b (scan_next i e) = same_size b b true refl refl
put_step-Grows k v m b expand = expand_at-Grows b m
put_step-Grows k v m b crashed = same_size b b true refl refl
put_step-Grows k v m b (write_val p) =
    same_size b (record b { val = set b.val p v }) true refl (length-set b.val p v)
put_step-Grows k v m b (write_key p) =
    same_size b (record b { key = set b.key p k }) true (length-set b.key p k) refl
put_step-Grows k v m b (release r) = same_size b (record b { lock = lock_free }) true refl refl
put_step-Grows k v m b (returned r) = same_size b b false refl refl

remove_step-length :
    (k : ℕ) (b : Bin) (p : Remove)
    → (length (remove_step k b p).1.key ≡ length b.key)
      × (length (remove_step k b p).1.val ≡ length b.val)
unfolding remove_step
remove_step-length k b (look i) = (refl, refl)
remove_step-length k b (look_next i) = (refl, refl)
remove_step-length k b (block i) = elim (Bool-cases (key_at b i == k)) [
  | inl e ↦ rw e (length-set b.key i key_blck, refl)
  | inr e ↦ rw e (refl, refl)
]
remove_step-length k b (take_val i) = (refl, refl)
remove_step-length k b (clear i v) = (length-set b.key i 0, refl)
remove_step-length k b (removed v) = (refl, refl)

pub call_step-Grows : (b : Bin) (t : Call) → Grows b (call_step b t).1 (holds_lock t)
unfolding call_step
call_step-Grows b idle = same_size b b false refl refl
call_step-Grows b (getting k p) = same_size b b false refl refl
call_step-Grows b (putting k v m p) = put_step-Grows k v m b p
call_step-Grows b (removing k p) =
    let r = remove_step-length k b p in same_size b (remove_step k b p).1 false r.0 r.1
