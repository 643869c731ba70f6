-- ===== src/LbRes/Table/Insert.antt =====
-- `clht_put` on one table, up to the resize that it may ask for.
use clht.Prelude.{
  ℕ, ◌+◌, ◌%◌, ◌^◌, ◌<◌, ◌≡◌, ◌≢◌, refl, ◌∙◌, ◌==◌, if◌then◌else◌, true, false, Option, none, some,
  [], ◌∷◌, length, set, length-set, Returns, Bool-cases, Option-cases, inl, inr, arith, bit_and,
  ==→eq,
}
use clht.Slots.{find, count}
use clht.Slots.Laws.{find-eq-none, count-eq-zero}
use clht.LbRes.Bucket.{
  Bucket, Chain, walk, lock_free, bucket_create, bucket_exists, is_none, vacant, scan_chain,
  empty_in_chain, append_bucket, fill_first,
}
use clht.LbRes.Bucket.Walk.{bucket_exists-count}
use clht.LbRes.Bucket.Edit.{walk-with_lock}
use clht.LbRes.Bucket.Search.{scan_chain-empty, empty_in_chain-some}
use clht.LbRes.Table.{
  Hashtable, Memory, Put, hash_of, put_found, put_table, lock_rls, bucket_create_stats, size_bins,
}
use clht.LbRes.Table.Counting.{bound}
use clht.LbRes.Table.Invariant.{chain_at, reads, IsValid, view, hash_of-lt, at-hash_of}
use clht.LbRes.Table.Writes.{update, Rebinds, set-IsPlaced, set-used, set-reads}
use clht.LbRes.Table.Rebinding.{
  lock_acq, lock_acq_chk_resize-free, store-Rebinds, append_bucket-Rebinds,
}

-- what is bound at a key after an insertion: a binding that was there stays
abbrev pub kept_or : Option ℕ → ℕ → Option ℕ
kept_or none v = some v
kept_or (some w) v = some w

-- A correct end of `put k v` on `ht`.
pub record Puts (ht : Hashtable) (k v : ℕ) (r : Put) : Type 0 where
  pub returned : r.result ≡ is_none (view ht k)
  pub size : r.ht.num_buckets ≡ ht.num_buckets
  pub valid : IsValid r.ht
  pub used : size_bins r.ht.table ≡ size_bins ht.table + (if r.result then 1 else 0)
  pub views : (q : ℕ) → q ≢ 0 → view r.ht q ≡ update (view ht) k (kept_or (view ht k) v) q

-- A table of the same size in which the bucket of `k` is rebound.
pub record Rebound (ht : Hashtable) (k : ℕ) (o : Option ℕ) (r : Hashtable) : Type 0 where
  pub size : r.num_buckets ≡ ht.num_buckets
  pub version : r.version ≡ ht.version
  pub used : size_bins r.table + bound (view ht k) ≡ size_bins ht.table + bound o
  pub valid : IsValid r
  pub views : (q : ℕ) → q ≢ 0 → view r q ≡ update (view ht) k o q

pub write_back-Rebound :
    (ht : Hashtable) (n k : ℕ) (o : Option ℕ) (c : Chain)
    → IsValid ht
    → k ≢ 0
    → Rebinds k o (chain_at ht.table (hash_of ht k)) c
    → Rebound ht k o (record ht { table = set ht.table (hash_of ht k) c; num_expands = n })
unfolding view hash_of
write_back-Rebound ht n k o c v nz w =
    let inside : bit_and k ht.hash < length ht.table = omega (arith, hash_of-lt ht k v, v.sized) in
    record {
      size = refl;
      version = refl;
      used = set-used v.placed nz refl inside w;
      valid = record {
        some_bucket = v.some_bucket;
        sized = length-set ht.table (bit_and k ht.hash) c ∙ v.sized;
        masked = v.masked;
        placed = set-IsPlaced v.placed nz refl inside w;
      };
      views = set-reads v.placed nz refl inside w;
    }

-- The end of the walk: the lock is held over a chain without the key.
module _ (mem : Memory) (ht : Hashtable) (k v : ℕ) (valid : IsValid ht) (nonzero : k ≢ 0)
    (absent : count k (walk (chain_at ht.table (hash_of ht k))) ≡ 0) where
  abbrev bin : ℕ
  bin = hash_of ht k

  abbrev old : Chain
  old = chain_at ht.table bin

  pub unbound : view ht k ≡ none
  unfolding view reads hash_of
  unbound = find-eq-none k (walk old) absent

  inserted : (r : Put) → r.result ≡ true → Rebound ht k (some v) r.ht → Puts ht k v r
  inserted r won b = record {
    returned = rw (won, unbound);
    size = b.size;
    valid = b.valid;
    used = rw won (omega (arith, rw unbound at b.used));
    views = λ q nz. b.views q nz ∙ rw unbound;
  }

  abbrev fresh : (ℕ → ℕ) → Bucket
  fresh words = record { lock = lock_free; slots = (0, words 0) ∷ (0, words 1) ∷ (0, words 2) ∷ [] }

  abbrev grown : (ℕ → ℕ) → Put
  grown words =
      let n = (ht.num_expands + 1) % 2 ^ 32 in
      let c = lock_rls (append_bucket (lock_acq old) (fill_first (fresh words) (k, v))) in
      record {
        result = true;
        resize = n == ht.num_expands_threshold;
        ht = record ht { table = set ht.table bin c; num_expands = n };
      }

  expanded :
      mem.bucket ht.num_expands ≢ none
      → Returns (put_found mem ht bin (lock_acq old) (k, v) (vacant none)) (Puts ht k v)
  unfolding put_found bucket_create_stats bucket_create
  expanded granted = elim (Option-cases (mem.bucket ht.num_expands)) [
    | inl e ↦ absurd (granted e)
    | inr (words, e) ↦ (
      grown words,
      rw e,
      inserted (grown words) refl (
          write_back-Rebound ht ((ht.num_expands + 1) % 2 ^ 32) k (some v) _ valid nonzero
            (append_bucket-Rebinds k v old nonzero absent words _ refl)),
    )
  ]

  filled :
      (p : ℕ)
      → empty_in_chain 0 (lock_acq old) ≡ some p
      → Returns (put_found mem ht bin (lock_acq old) (k, v) (vacant (some p))) (Puts ht k v)
  unfolding put_found
  filled p e = (
    _,
    refl,
    inserted _ refl (
        write_back-Rebound ht ht.num_expands k (some v) _ valid nonzero (
          store-Rebinds k v old nonzero absent p
            (rw walk-with_lock at (empty_in_chain-some (lock_acq old) p e)))),
  )

  pub put_found-Puts :
      mem.bucket ht.num_expands ≢ none
      → Returns
          (put_found mem ht bin (lock_acq old) (k, v) (vacant (empty_in_chain 0 (lock_acq old))))
          (Puts ht k v)
  put_found-Puts granted = elim (Option-cases (empty_in_chain 0 (lock_acq old))) [
    | inl e ↦ rw e (expanded granted)
    | inr (p, e) ↦ rw e (filled p e)
  ]

  pub scan_chain-vacant :
      scan_chain k 0 none (lock_acq old) ≡ vacant (empty_in_chain 0 (lock_acq old))
  scan_chain-vacant = rw (scan_chain-empty, walk-with_lock, absent)

-- A key that is there: nothing is written.
put_table-present :
    (mem : Memory) (ht : Hashtable) (k v w : ℕ)
    → IsValid ht
    → view ht k ≡ some w
    → Puts ht k v (record { result = false; resize = false; ht = ht })
put_table-present mem ht k v w valid bound = record {
  returned = rw bound;
  size = refl;
  valid = valid;
  used = omega arith;
  views = λ q nz. elim (Bool-cases (k == q)) [
    | inl e ↦ rw (e, bound) (rw (← ==→eq k q e) bound)
    | inr e ↦ rw e
  ];
}

pub unbound_find :
    (ht : Hashtable) (k : ℕ)
    → view ht k ≡ none
    → find k (walk (chain_at ht.table (hash_of ht k))) ≡ none
unfolding view reads hash_of
unbound_find ht k h = h

-- A put returns, on every branch; it keeps a binding that is there and adds one that is not.
pub put_table-Puts :
    (mem : Memory) (ht : Hashtable) (k v : ℕ)
    → IsValid ht
    → k ≢ 0
    → mem.bucket ht.num_expands ≢ none
    → Returns (put_table mem ht k v) (Puts ht k v)
unfolding put_table
put_table-Puts mem ht k v valid nonzero granted =
    let c = chain_at ht.table (hash_of ht k) in
    rw (at-hash_of ht k valid) (elim (Bool-cases (bucket_exists k c)) [
      | inl e ↦ rw e (
        _,
        refl,
        elim (Option-cases (view ht k)) [
          | inl gone ↦
              let absent : count k (walk c) ≡ 0 =
                count-eq-zero k (walk c) (unbound_find ht k gone) in
              ground (arith, bucket_exists-count k c)
          | inr (w, bound) ↦ put_table-present mem ht k v w valid bound
        ],
      )
      | inr e ↦
          let absent : count k (walk c) ≡ 0 = ground (arith, bucket_exists-count k c) in
          rw
            (
              e,
              lock_acq_chk_resize-free c (valid.placed.unlocked (hash_of ht k)),
              scan_chain-vacant mem ht k v valid nonzero absent,
            )
            (put_found-Puts mem ht k v valid nonzero absent granted)
    ])
