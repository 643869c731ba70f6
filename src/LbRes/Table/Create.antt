-- ===== src/LbRes/Table/Create.antt =====
-- `clht_hashtable_create`.
use clht.Prelude.{
  ℕ, zero, suc, ◌^◌, ◌<◌, ◌≡◌, ◌≢◌, refl, true, none, some, length-replicate, replicate, arith,
}
use clht.Slots.{find, count}
use clht.LbRes.Bucket.{walk, lock_of, lock_free}
use clht.LbRes.Table.{
  Hashtable, Memory, hashtable_create, new_table, cleared, size_bins, size_chain, size_slots,
}
use clht.LbRes.Table.Invariant.{chain_at, reads, IsValid, view}

count-cleared : (n i q : ℕ) → q ≢ 0 → count q (walk (chain_at (replicate n cleared) i)) ≡ 0
unfolding walk count
count-cleared zero i q nz = refl
count-cleared (suc n) zero q nz = ground arith
count-cleared (suc n) (suc i) q nz = count-cleared n i q nz

find-cleared : (n i q : ℕ) → q ≢ 0 → find q (walk (chain_at (replicate n cleared) i)) ≡ none
unfolding walk find
find-cleared zero i q nz = refl
find-cleared (suc n) zero q nz = ground arith
find-cleared (suc n) (suc i) q nz = find-cleared n i q nz

lock_of-cleared : (n i : ℕ) → lock_of (chain_at (replicate n cleared) i) ≡ lock_free
unfolding lock_of
lock_of-cleared zero i = refl
lock_of-cleared (suc n) zero = refl
lock_of-cleared (suc n) (suc i) = lock_of-cleared n i

pub size_bins-cleared : (n : ℕ) → size_bins (replicate n cleared) ≡ 0
unfolding size_bins size_chain size_slots
size_bins-cleared zero = refl
size_bins-cleared (suc n) = omega (arith, size_bins-cleared n)

-- a valid table of `n` buckets that binds no key
pub record IsNew (n : ℕ) (ht : Hashtable) : Type 0 where
  pub size : ht.num_buckets ≡ n
  pub valid : IsValid ht
  pub views : (q : ℕ) → q ≢ 0 → view ht q ≡ none
  pub expands : ht.num_expands ≡ 0
  pub table : ht.table ≡ replicate n cleared
  pub threshold : n < 2 ^ 32 → ht.num_expands_threshold ≡ n

pub new_table-IsNew : (n : ℕ) → 0 < n → IsNew n (new_table n)
unfolding hashtable_create view reads
new_table-IsNew n h = record {
  size = refl;
  valid = record {
    some_bucket = h;
    sized = length-replicate n cleared;
    masked = refl;
    placed = record {
      once = λ q i nz. rw (count-cleared n i q nz) (omega arith);
      home = λ q i nz away. count-cleared n i q nz;
      unlocked = lock_of-cleared n;
    };
  };
  views = λ q nz. find-cleared n _ q nz;
  expands = refl;
  table = refl;
  threshold = λ small. ground arith;
}

-- Where some bucket is asked for and both allocations succeed, a table is created: it has that many
-- buckets, is valid and binds no key.
pub hashtable_create-IsNew :
    (mem : Memory) (n : ℕ)
    → 0 < n
    → mem.has_struct n ≡ true
    → mem.has_table n ≡ true
    → (ht : Hashtable) × (hashtable_create mem n ≡ some ht) × IsNew n ht
unfolding hashtable_create
hashtable_create-IsNew mem n h s t = (new_table n, ground arith, new_table-IsNew n h)
