-- ===== src/MapRem/Moves.antt =====
-- How a step of a call of `MapRem` changes the byte of a slot, and which slots its call then owns.
use mathlib.Core.Path.{subst}
use clht.Prelude.{
  get_or-set_other, ℕ, ◌==◌, ◌≡◌, ◌≢◌, refl, sym, ◌∙◌, true, Option, none, some, set, get_or,
  Bool-cases, inl, inr, ==→eq, ==→ne, arith, List,
}
use clht.Lf.Snapshot.{map_invld, Snapshot, snap_get_empty_index, same}
use clht.Lf.Bucket.{
  Bucket, Put, retry, searching, reserve, write_val, write_key, publish, returned, Search, result,
}
use clht.MapRem.{
  map_insrt, map_valid, map_remov, state, give_up, go_on, reserve_at, search_result, put_step,
  Remove, look, check_map, check_key, check_val, block, check_again, take_val, clear, restore,
  removed, remove_step, Call, idle, getting, putting, removing, call_step,
}
use clht.MapRem.Local.{PutKnows, RemoveKnows, Knows}
use clht.MapRem.Slots.{byte, same-byte, byte-snap_get_empty_index}
use clht.MapRem.Progress.{byte-set}

-- One step of the byte of a slot: it is kept; it is reserved, published or given up by a put; or it is
-- blocked, cleared or restored by a remove.
pub data Life (m n : ℕ) : Type 0 where
  is_kept : n ≡ m → Life m n
  is_reserved : m ≡ map_invld → n ≡ map_insrt → Life m n
  is_published : m ≡ map_insrt → n ≡ map_valid → Life m n
  is_given_up : m ≡ map_insrt → n ≡ map_invld → Life m n
  is_blocked : m ≡ map_valid → n ≡ map_remov → Life m n
  is_cleared : m ≡ map_remov → n ≡ map_invld → Life m n
  is_restored : m ≡ map_remov → n ≡ map_valid → Life m n

-- a store of v into slot i, which is no store past the end
set-Life :
    (ms : List ℕ) (i j v : ℕ)
    → get_or ms i 4 ≢ 4
    → Life (get_or ms i 4) v
    → Life (get_or ms j 4) (get_or (set ms i v) j 4)
set-Life ms i j v inside move = elim (Bool-cases (i == j)) [
  | inr e ↦ is_kept (get_or-set_other ms i j v 4 (==→ne i j e))
  | inl e ↦
      subst (λ k. Life (get_or ms k 4) (get_or (set ms i v) k 4)) (==→eq i j e)
        (subst (Life (get_or ms i 4)) (sym (byte-set ms i v inside)) move)
]

-- a store into the byte of a slot whose state is known
store-Life :
    (b : Bucket) (i j m v : ℕ)
    → state b i ≡ m
    → m ≢ 4
    → Life m v
    → Life (state b j) (get_or (set b.snapshot.map i v) j 4)
store-Life b i j m v here ne move =
    set-Life b.snapshot.map i j v (λ four. ne (sym here ∙ four))
      (subst (λ w. Life w v) (sym here) move)

-- a compare-and-swap that succeeds stores into the word that is there
cas-Life :
    (b : Bucket) (s : Snapshot) (i j m v : ℕ)
    → same b.snapshot s ≡ true
    → byte s i ≡ m
    → m ≢ 4
    → Life m v
    → Life (state b j) (get_or (set s.map i v) j 4)
cas-Life b s i j m v e here ne move =
    subst (λ w. Life w (get_or (set s.map i v) j 4)) (sym (same-byte b s j e))
      (set-Life s.map i j v (λ four. ne (sym here ∙ four)) (subst (λ w. Life w v) (sym here) move))

reserve_at-Life :
    (b : Bucket) (s : Snapshot) (o : Option ℕ) (j : ℕ)
    → snap_get_empty_index s ≡ o
    → Life (state b j) (state (reserve_at b s o).1 j)
unfolding reserve_at
reserve_at-Life b s none j found = is_kept refl
reserve_at-Life b s (some i) j found = elim (Bool-cases (same b.snapshot s)) [
  | inr e ↦ rw e (is_kept refl)
  | inl e ↦ rw e (
      cas-Life b s i j map_invld map_insrt e (byte-snap_get_empty_index s i found)
        (λ four. absurd (ground arith)) (is_reserved refl refl))
]

put_step-Life :
    (k v : ℕ) (b : Bucket) (p : Put) (j : ℕ)
    → PutKnows k v b p
    → Life (state b j) (state (put_step k v b p).1 j)
unfolding put_step search_result give_up go_on PutKnows
put_step-Life k v b (retry e) j x = is_kept refl
put_step-Life k v b (searching none s (result r)) j x = elim (Bool-cases (r == 0)) [
  | inl e ↦ rw e (is_kept refl)
  | inr e ↦ rw e (is_kept refl)
]
put_step-Life k v b (searching (some i) s (result r)) j x = elim (Bool-cases (r == 0)) [
  | inl e ↦ rw e (is_kept refl)
  | inr e ↦ rw e (
      store-Life b i j map_insrt map_invld x.0 (λ four. absurd (ground arith))
        (is_given_up refl refl))
]
put_step-Life k v b (searching e s (Search.read_val i)) j x = is_kept refl
put_step-Life k v b (searching e s (Search.read_map i r)) j x = is_kept refl
put_step-Life k v b (searching e s (Search.read_key i r)) j x = is_kept refl
put_step-Life k v b (searching e s (Search.read_again i r)) j x = is_kept refl
put_step-Life k v b (reserve s) j x = reserve_at-Life b s _ j refl
put_step-Life k v b (write_val i s1) j x = is_kept refl
put_step-Life k v b (write_key i s1) j x = is_kept refl
put_step-Life k v b (publish i s1) j x = elim (Bool-cases (same b.snapshot s1)) [
  | inr e ↦ rw e (is_kept refl)
  | inl e ↦ rw e (
      cas-Life b s1 i j map_insrt map_valid e (sym (same-byte b s1 i e) ∙ x.0)
        (λ four. absurd (ground arith)) (is_published refl refl))
]
put_step-Life k v b (returned r) j x = is_kept refl

remove_step-Life :
    (k : ℕ) (b : Bucket) (p : Remove) (j : ℕ)
    → RemoveKnows k b p
    → Life (state b j) (state (remove_step k b p).1 j)
unfolding remove_step RemoveKnows
remove_step-Life k b (look i) j x = is_kept refl
remove_step-Life k b (check_map i v) j x = is_kept refl
remove_step-Life k b (check_key i v) j x = is_kept refl
remove_step-Life k b (check_val i v) j x = is_kept refl
remove_step-Life k b (block i) j x = elim (Bool-cases (state b i == map_valid)) [
  | inr e ↦ rw e (is_kept refl)
  | inl e ↦ rw e (
      store-Life b i j map_valid map_remov (==→eq (state b i) map_valid e)
        (λ four. absurd (ground arith)) (is_blocked refl refl))
]
remove_step-Life k b (check_again i) j x = is_kept refl
remove_step-Life k b (take_val i) j x = is_kept refl
remove_step-Life k b (clear i v) j x =
    store-Life b i j map_remov map_invld x.0 (λ four. absurd (ground arith)) (is_cleared refl refl)
remove_step-Life k b (restore i) j x =
    store-Life b i j map_remov map_valid x (λ four. absurd (ground arith)) (is_restored refl refl)
remove_step-Life k b (removed v) j x = is_kept refl

pub call_step-Life :
    (b : Bucket) (c : Call) (j : ℕ) → Knows b c → Life (state b j) (state (call_step b c).1 j)
unfolding call_step Knows
call_step-Life b idle j x = is_kept refl
call_step-Life b (getting k p) j x = is_kept refl
call_step-Life b (putting k v p) j x = put_step-Life k v b p j x
call_step-Life b (removing k p) j x = remove_step-Life k b p j x
