-- ===== src/LbRes/Table/Invariant.antt =====
-- When the buckets of a table are well formed, and the map from keys to values that they stand for.
use clht.Prelude.{
  ℕ, zero, suc, ◌-◌, ◌<◌, ◌≤◌, ◌≡◌, ◌≢◌, refl, bit_and, Option, List, [], ◌∷◌, length, get_or, done,
  arith,
}
use clht.Words.{bit_and-le}
use clht.Slots.{find, count}
use clht.LbRes.Bucket.{Chain, last, walk, lock_of, lock_free}
use clht.LbRes.Table.{Hashtable, at, hash_of}

abbrev pub nowhere : Chain
nowhere = last (record { lock = lock_free; slots = [] })

-- the bucket at an index, with what `next` links to it
abbrev pub chain_at : List Chain → ℕ → Chain
chain_at table i = get_or table i nowhere

-- A key has at most one slot, in the bucket that the mask gives it, and every lock is free.
pub record IsPlaced (mask : ℕ) (table : List Chain) : Type 0 where
  pub once : (q i : ℕ) → q ≢ 0 → count q (walk (chain_at table i)) ≤ 1
  pub home : (q i : ℕ) → q ≢ 0 → bit_and q mask ≢ i → count q (walk (chain_at table i)) ≡ 0
  pub unlocked : (i : ℕ) → lock_of (chain_at table i) ≡ lock_free

-- the map that the buckets stand for
unfoldable pub reads : ℕ → List Chain → ℕ → Option ℕ
reads mask table q = find q (walk (chain_at table (bit_and q mask)))

-- the invariant of a table between calls
pub record IsValid (ht : Hashtable) : Type 0 where
  pub some_bucket : 0 < ht.num_buckets
  pub sized : length ht.table ≡ ht.num_buckets
  pub masked : ht.hash ≡ ht.num_buckets - 1
  pub placed : IsPlaced ht.hash ht.table

-- the map that a table stands for
unfoldable pub view : Hashtable → ℕ → Option ℕ
view ht q = reads ht.hash ht.table q

pub at-chain_at :
    (table : List Chain) (i : ℕ) → i < length table → at table i ≡ done (chain_at table i)
unfolding at
at-chain_at [] i h = absurd (omega arith)
at-chain_at (c ∷ cs) zero h = refl
at-chain_at (c ∷ cs) (suc i) h = at-chain_at cs i (omega arith)

-- Every key has a bucket: the index never leaves the table, whatever its size.
pub hash_of-lt : (ht : Hashtable) (q : ℕ) → IsValid ht → hash_of ht q < ht.num_buckets
unfolding hash_of
hash_of-lt ht q v = omega (arith, bit_and-le q ht.hash, v.masked, v.some_bucket)

pub at-hash_of :
    (ht : Hashtable) (q : ℕ)
    → IsValid ht
    → at ht.table (hash_of ht q) ≡ done (chain_at ht.table (hash_of ht q))
at-hash_of ht q v = at-chain_at ht.table (hash_of ht q) (omega (arith, hash_of-lt ht q v, v.sized))
