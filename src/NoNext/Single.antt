-- ===== src/NoNext/Single.antt =====
-- Buckets that link to no other one: on them the loops of `NoNext` do what those over a chain do.
use clht.Prelude.{
  ℕ, ◌<◌, ◌≡◌, refl, ◌==◌, List, length, set, length-set, get_or-set, Bool-cases, inl, inr, arith,
}
use clht.Slots.{Slot}
use clht.LbRes.Bucket.{
  Chain, last, link, walk, lock_of, with_lock, store, empty_in_chain, empty_slot,
}
use clht.LbRes.Table.Invariant.{nowhere, chain_at}
use clht.NoNext.{own, with_own}

-- a bucket of three slots, and no link
abbrev pub IsSingle : Chain → Type 0
IsSingle (last b) = length b.slots ≡ 3
IsSingle (link b c) = ⊥

-- every bucket of the table is so
abbrev pub Singles : List Chain → Type 0
Singles table = (i : ℕ) → i < length table → IsSingle (chain_at table i)

pub own-walk : (c : Chain) → IsSingle c → own c ≡ walk c
unfolding walk
own-walk (last b) s = refl
own-walk (link b c) s = absurd s

pub length-walk : (c : Chain) → IsSingle c → length (walk c) ≡ 3
unfolding walk
length-walk (last b) s = s
length-walk (link b c) s = absurd s

pub walk-with_own : (c : Chain) (xs : List Slot) → IsSingle c → walk (with_own c xs) ≡ xs
unfolding walk
walk-with_own (last b) xs s = refl
walk-with_own (link b c) xs s = absurd s

pub lock_of-with_own : (c : Chain) (xs : List Slot) → lock_of (with_own c xs) ≡ lock_of c
unfolding lock_of
lock_of-with_own (last b) xs = refl
lock_of-with_own (link b c) xs = refl

pub with_own-store :
    (c : Chain) (j : ℕ) (s : Slot) → IsSingle c → with_own c (set (own c) j s) ≡ store c j s
unfolding store
with_own-store (last b) j s h = refl
with_own-store (link b c) j s h = absurd h

pub store-IsSingle : (c : Chain) (j : ℕ) (s : Slot) → IsSingle c → IsSingle (store c j s)
unfolding store
store-IsSingle (last b) j s h = omega (arith, length-set b.slots j s, h)
store-IsSingle (link b c) j s h = absurd h

pub with_own-IsSingle :
    (c : Chain) (xs : List Slot) → IsSingle c → length xs ≡ 3 → IsSingle (with_own c xs)
with_own-IsSingle (last b) xs s e = e
with_own-IsSingle (link b c) xs s e = absurd s

pub with_lock-IsSingle : (l : ℕ) (c : Chain) → IsSingle c → IsSingle (with_lock l c)
unfolding with_lock
with_lock-IsSingle l (last b) s = s
with_lock-IsSingle l (link b c) s = absurd s

pub own-empty_in_chain : (c : Chain) → IsSingle c → empty_slot 0 (own c) ≡ empty_in_chain 0 c
unfolding empty_in_chain
own-empty_in_chain (last b) s = refl
own-empty_in_chain (link b c) s = absurd s

-- A bucket of a table is replaced by one that is single too.
pub set-Singles :
    (table : List Chain) (i : ℕ) (c : Chain)
    → i < length table
    → Singles table
    → IsSingle c
    → Singles (set table i c)
set-Singles table i c inside s h j l = elim (Bool-cases (i == j)) [
  | inl e ↦ rw (get_or-set table i j c nowhere inside, e) h
  | inr e ↦
      rw (get_or-set table i j c nowhere inside, e) (s j (omega (arith, length-set table i c, l)))
]
