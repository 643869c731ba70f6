-- ===== src/Packed/Invariant.antt =====
-- When a packed table is well formed, the map that it stands for, and a write to one bucket.
use clht.Prelude.{
  ℕ, zero, suc, ◌-◌, ◌<◌, ◌≤◌, ◌≡◌, ◌≢◌, refl, ◌∙◌, ◌==◌, if◌then◌else◌, Option, List, [], ◌∷◌,
  Bool-cases, inl, inr, length, length-set, get_or, get_or-set, done, arith,
}
use clht.Words.{bit_and-le}
use clht.Slots.{find, count}
use clht.LbRes.Table.Writes.{update}
use clht.Packed.Bucket.{Chain, last, cleared, lock_of, with_lock}
use clht.Packed.Bucket.Entries.{entries, IsPacked}
use clht.Packed.{Hashtable, at, hash_of, write_back}

-- the bucket at an index, with what `next` links to it
abbrev pub chain_at : List Chain → ℕ → Chain
chain_at table i = get_or table i (last cleared)

-- Each chain is packed and its lock is free, and a key has at most one entry, in its own bucket.
pub record IsValid (ht : Hashtable) : Type 0 where
  pub some_bucket : 0 < ht.num_buckets
  pub sized : length ht.table ≡ ht.num_buckets
  pub packed : (i : ℕ) → IsPacked (chain_at ht.table i)
  pub unlocked : (i : ℕ) → lock_of (chain_at ht.table i) ≡ 0
  pub once : (q i : ℕ) → q ≢ 0 → count q (entries (chain_at ht.table i)) ≤ 1
  pub home : (q i : ℕ) → q ≢ 0 → hash_of ht q ≢ i → count q (entries (chain_at ht.table i)) ≡ 0

-- the map that a table stands for
unfoldable pub view : Hashtable → ℕ → Option ℕ
view ht q = find q (entries (chain_at ht.table (hash_of ht q)))

at-chain_at : (table : List Chain) (i : ℕ) → i < length table → at table i ≡ done (chain_at table i)
unfolding at
at-chain_at [] i h = absurd (omega arith)
at-chain_at (c ∷ cs) zero h = refl
at-chain_at (c ∷ cs) (suc i) h = at-chain_at cs i (omega arith)

pub hash_of-lt : (ht : Hashtable) (q : ℕ) → IsValid ht → hash_of ht q < ht.num_buckets
unfolding hash_of
hash_of-lt ht q v = omega (arith, bit_and-le q (ht.num_buckets - 1), v.some_bucket)

pub at-hash_of :
    (ht : Hashtable) (q : ℕ)
    → IsValid ht
    → at ht.table (hash_of ht q) ≡ done (chain_at ht.table (hash_of ht q))
at-hash_of ht q v = at-chain_at ht.table (hash_of ht q) (omega (arith, hash_of-lt ht q v, v.sized))

-- `c` is packed and unlocked, and reads as `old` does but at `k`.
pub record Rebinds (k : ℕ) (o : Option ℕ) (old c : Chain) : Type 0 where
  pub packed : IsPacked c
  pub lock : lock_of c ≡ 0
  pub binds : (q : ℕ) → q ≢ 0 → find q (entries c) ≡ update (λ r. find r (entries old)) k o q
  pub few : (q : ℕ) → q ≢ 0 → count q (entries c) ≤ (if k == q then 1 else count q (entries old))

module _ (ht : Hashtable) (k : ℕ) (o : Option ℕ) (c : Chain) (v : IsValid ht) (nonzero : k ≢ 0)
    (w : Rebinds k o (chain_at ht.table (hash_of ht k)) c) where
  abbrev bin : ℕ
  bin = hash_of ht k

  inside : bin < length ht.table
  inside = omega (arith, hash_of-lt ht k v, v.sized)

  hash_of-write_back : (q : ℕ) → hash_of (write_back ht bin c) q ≡ hash_of ht q
  unfolding hash_of
  hash_of-write_back q = refl

  pub write_back-IsValid : IsValid (write_back ht bin c)
  write_back-IsValid = record {
    some_bucket = v.some_bucket;
    sized = length-set ht.table bin c ∙ v.sized;
    packed = λ i. rw (get_or-set ht.table bin i c _ inside) (packed_at i);
    unlocked =
        λ i. rw (get_or-set ht.table bin i c _ inside) (ground (arith, w.lock, v.unlocked i));
    once = λ q i nz.
        rw (get_or-set ht.table bin i c _ inside)
          (ground (arith, w.few q nz, v.once q i nz, v.once q bin nz));
    home = λ q i nz away.
        let there : hash_of ht q ≢ i = λ e. away (hash_of-write_back q ∙ e) in
        rw (get_or-set ht.table bin i c _ inside) (ground (arith, w.few q nz, v.home q i nz there));
  }
    where
      packed_at : (i : ℕ) → IsPacked (if bin == i then c else chain_at ht.table i)
      packed_at i = elim (Bool-cases (bin == i)) [
        | inl e ↦ rw e w.packed
        | inr e ↦ rw e (v.packed i)
      ]

  pub view-write_back : (q : ℕ) → q ≢ 0 → view (write_back ht bin c) q ≡ update (view ht) k o q
  unfolding view
  view-write_back q nz =
      rw (hash_of-write_back q, get_or-set ht.table bin (hash_of ht q) c _ inside)
        (ground (arith, w.binds q nz))

pub entries-with_lock : (l : ℕ) (c : Chain) → entries (with_lock l c) ≡ entries c
unfolding entries with_lock
entries-with_lock l (last b) = refl
entries-with_lock l (Chain.link b c) = refl

pub IsPacked-with_lock : (l : ℕ) (c : Chain) → IsPacked c → IsPacked (with_lock l c)
unfolding with_lock
IsPacked-with_lock l (last b) p = p
IsPacked-with_lock l (Chain.link b c) p = p

pub lock_of-with_lock : (l : ℕ) (c : Chain) → lock_of (with_lock l c) ≡ l
unfolding lock_of with_lock
lock_of-with_lock l (last b) = refl
lock_of-with_lock l (Chain.link b c) = refl
