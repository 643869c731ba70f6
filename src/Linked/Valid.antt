-- ===== src/Linked/Valid.antt =====
-- When a table of `Linked` is well formed, and the map from keys to values that it stands for.
use clht.Prelude.{
  ℕ, suc, ◌+◌, ◌<◌, ◌≤◌, ◌≡◌, ◌≢◌, Option, none, length, done, ◌>>=◌, ap, ◌∙◌, arith,
}
use clht.Words.{bit_and-le}
use clht.LbRes.Bucket.{lock_free}
use clht.LbRes.Bucket.Walk.{value_or_zero}
use clht.Linked.{max_expansions_hard, Hashtable, hash_of, get, get_from, bucket_exists, exists_from}
use clht.Linked.Window.{
  bucket_at, at-bucket_at, bound_at, look, is_some, get_from-look, exists_from-look,
}
use clht.Linked.Locking.{lock_at}

abbrev pub hops_at : Hashtable → ℕ → ℕ
hops_at ht i = (bucket_at ht.table i).hops

-- The array has its extra buckets, no lock is taken, no bucket overflows into more than the hard limit of
-- others, and each key is in a bucket that its own one leads to.
pub record IsValid (ht : Hashtable) : Type 0 where
  pub sized : length ht.table ≡ ht.num_buckets + max_expansions_hard
  pub masked : suc ht.hash ≡ ht.num_buckets
  pub free : (m : ℕ) → lock_at ht.table m ≡ lock_free
  pub bounded : (m : ℕ) → hops_at ht m ≤ max_expansions_hard
  pub windowed :
      (k m : ℕ)
      → k ≢ 0
      → bound_at k ht.table m ≢ none
      → (hash_of ht k ≤ m) × (m ≤ hash_of ht k + hops_at ht (hash_of ht k))

unfoldable pub view : Hashtable → ℕ → Option ℕ
view ht k = look (suc (hops_at ht (hash_of ht k))) k ht.table (hash_of ht k)

pub hash_of-lt : (ht : Hashtable) (k : ℕ) → IsValid ht → hash_of ht k < ht.num_buckets
unfolding hash_of
hash_of-lt ht k valid = omega (arith, bit_and-le k ht.hash, valid.masked)

-- no walk leaves the array
window-le :
    (ht : Hashtable) (k : ℕ)
    → IsValid ht
    → hash_of ht k + suc (hops_at ht (hash_of ht k)) ≤ length ht.table
window-le ht k valid =
    omega (arith, hash_of-lt ht k valid, valid.sized, valid.bounded (hash_of ht k))

-- A get from a valid table stays inside the array, and returns what the table binds the key to, or 0.
pub get-linked_view :
    (ht : Hashtable) (k : ℕ) → IsValid ht → get ht k ≡ done (value_or_zero (view ht k))
unfolding get view
get-linked_view ht k valid =
    let inside = window-le ht k valid in
    ap (λ o. o >>= (λ b. get_from (suc b.hops) k ht.table (hash_of ht k)))
      (at-bucket_at ht.table (hash_of ht k) (omega (arith, inside)))
    ∙ (get_from-look (suc (hops_at ht (hash_of ht k))) k ht.table (hash_of ht k) inside)

pub bucket_exists-view :
    (ht : Hashtable) (k : ℕ) → IsValid ht → bucket_exists ht k ≡ done (is_some (view ht k))
unfolding bucket_exists view
bucket_exists-view ht k valid =
    let inside = window-le ht k valid in
    ap (λ o. o >>= (λ b. exists_from (suc b.hops) k ht.table (hash_of ht k)))
      (at-bucket_at ht.table (hash_of ht k) (omega (arith, inside)))
    ∙ (exists_from-look (suc (hops_at ht (hash_of ht k))) k ht.table (hash_of ht k) inside)
