-- ===== src/LbRes/Table/Faults.antt =====
-- Where `clht_put` fails, and which bucket a key belongs to.
use clht.Prelude.{
  ℕ, sym, bit_and, ◌%◌, ◌^◌, ◌<◌, ◌≡◌, ◌≢◌, false, none, done, fault, Option-cases, inl, inr, arith,
}
use clht.Words.{bit_and_mask}
use clht.Slots.{count}
use clht.Slots.Laws.{count-eq-zero, count_pos}
use clht.LbRes.Bucket.{Chain, walk, bucket_exists, bucket_create, empty_in_chain}
use clht.LbRes.Bucket.Walk.{bucket_exists-count}
use clht.LbRes.Bucket.Edit.{walk-with_lock}
use clht.LbRes.Bucket.Search.{empty_in_chain-some}
use clht.LbRes.Table.{Hashtable, Memory, at, hash_of, put_found, put_table, bucket_create_stats}
use clht.LbRes.Table.Invariant.{chain_at, IsValid, view, hash_of-lt, at-hash_of}
use clht.LbRes.Table.Rebinding.{lock_acq, lock_acq_chk_resize-free}
use clht.LbRes.Table.Insert.{unbound_find, scan_chain-vacant}

full-empty_in_chain : (c : Chain) → count 0 (walk c) ≡ 0 → empty_in_chain 0 c ≡ none
full-empty_in_chain c full = elim (Option-cases (empty_in_chain 0 c)) [
  | inl e ↦ e
  | inr (p, e) ↦
      let v = empty_in_chain-some c p e in
      absurd (omega (arith, count_pos (walk c) v.place 0 v.old v.empty))
]

-- The allocation of an overflow bucket is not checked: where it fails, on a valid table, a put of a
-- new key that is not 0 into a full chain stores through NULL.
pub put_table-fault :
    (mem : Memory) (ht : Hashtable) (k v : ℕ)
    → IsValid ht
    → k ≢ 0
    → view ht k ≡ none
    → count 0 (walk (chain_at ht.table (hash_of ht k))) ≡ 0
    → mem.bucket ht.num_expands ≡ none
    → put_table mem ht k v ≡ fault
unfolding put_table put_found bucket_create_stats bucket_create
put_table-fault mem ht k v valid nonzero gone full refused =
    let c = chain_at ht.table (hash_of ht k) in
    let absent : count k (walk c) ≡ 0 = count-eq-zero k (walk c) (unbound_find ht k gone) in
    let missed : bucket_exists k c ≡ false = ground (arith, bucket_exists-count k c) in
    let stuffed : count 0 (walk (lock_acq c)) ≡ 0 = rw walk-with_lock full in
    rw (
      at-hash_of ht k valid,
      missed,
      lock_acq_chk_resize-free c (valid.placed.unlocked (hash_of ht k)),
      scan_chain-vacant mem ht k v valid nonzero absent,
      full-empty_in_chain (lock_acq c) stuffed,
      refused,
    )

-- In a valid table of 2 ^ j buckets, a key is looked up in the bucket that its low j bits name, and
-- that bucket is inside the table.
pub hash_of-low_bits :
    (ht : Hashtable) (q j : ℕ)
    → IsValid ht
    → ht.num_buckets ≡ 2 ^ j
    → (at ht.table (q % 2 ^ j) ≡ done (chain_at ht.table (hash_of ht q)))
      × (q % 2 ^ j < ht.num_buckets)
unfolding hash_of
hash_of-low_bits ht q j valid e =
    let low : bit_and q ht.hash ≡ q % 2 ^ j = rw (valid.masked, e) (bit_and_mask q j) in
    (rw (sym low) (at-hash_of ht q valid), rw (sym low) (hash_of-lt ht q valid))
