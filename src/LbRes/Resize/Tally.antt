-- ===== src/LbRes/Resize/Tally.antt =====
-- The counters of a whole table while it is filled.
use clht.Prelude.{
  ℕ, zero, suc, ◌+◌, ◌*◌, ◌^◌, ◌<◌, ◌≤◌, ◌≡◌, ◌≢◌, refl, sym, ◌∙◌, ap, ◌==◌, Option, none, some,
  List, [], ◌∷◌, length, set, replicate, done, done_injective, >>=-eq-done, Option-cases,
  Bool-cases, inl, inr, arith, ==→ne,
}
use mathlib.Core.Path.{subst}
use clht.Words.{bit_and-le}
use clht.Slots.{Slot}
use clht.LbRes.Bucket.{
  Bucket, Chain, walk, lock_free, bucket_create, empty_in_chain, store, append_bucket, fill_first,
  hops,
}
use clht.LbRes.Table.{
  Hashtable, Memory, hash_of, bucket_create_stats, size_slots, size_chain, size_bins, cleared,
}
use clht.LbRes.Table.Invariant.{chain_at, at-chain_at}
use clht.LbRes.Table.Create.{IsNew, size_bins-cleared}
use clht.LbRes.Resize.{seq_found, put_seq, copy_slots}
use clht.LbRes.Resize.Expands.{IsTight, Adds, store-Adds, append_bucket-Adds}

abbrev pub AllTight : List Chain → Type 0
AllTight [] = Unit
AllTight (c ∷ cs) = IsTight c × AllTight cs

pub total_hops : List Chain → ℕ
total_hops [] = 0
total_hops (c ∷ cs) = hops c + total_hops cs

AllTight-chain_at :
    (cs : List Chain) (i : ℕ) → AllTight cs → i < length cs → IsTight (chain_at cs i)
AllTight-chain_at [] i t h = absurd (omega arith)
AllTight-chain_at (c ∷ cs) zero t h = t.0
AllTight-chain_at (c ∷ cs) (suc i) t h = AllTight-chain_at cs i t.1 (omega arith)

pub AllTight-used : (cs : List Chain) → AllTight cs → 3 * total_hops cs ≤ size_bins cs
unfolding total_hops size_bins
AllTight-used [] t = omega arith
AllTight-used (c ∷ cs) t = omega (arith, t.0.used, AllTight-used cs t.1)

-- The table's counter is right, and `m` slots are in use.
pub record Tally (ht : Hashtable) (m : ℕ) : Type 0 where
  pub inside : ht.hash < length ht.table
  pub tight : AllTight ht.table
  pub counted : ht.num_expands ≡ total_hops ht.table
  pub total : size_bins ht.table ≡ m

-- One chain of a table grows by one slot in use.
record Grows (more : ℕ) (cs ds : List Chain) : Type 0 where
  wide : length ds ≡ length cs
  tight : AllTight ds
  hops_more : total_hops ds ≡ total_hops cs + more
  size_more : size_bins ds ≡ suc (size_bins cs)

set-Grows :
    (more : ℕ) (cs : List Chain) (i : ℕ) (c : Chain)
    → AllTight cs
    → i < length cs
    → Adds more (chain_at cs i) c
    → Grows more cs (set cs i c)
unfolding total_hops size_bins
set-Grows more [] i c t h a = absurd (omega arith)
set-Grows more (d ∷ cs) zero c t h a = record {
  wide = refl;
  tight = (a.tight, t.1);
  hops_more = omega (arith, a.hops_more);
  size_more = omega (arith, a.size_more);
}
set-Grows more (d ∷ cs) (suc i) c t h a =
    let g = set-Grows more cs i c t.1 (omega arith) a in
    record {
      wide = ap suc g.wide;
      tight = (t.0, g.tight);
      hops_more = omega (arith, g.hops_more);
      size_more = omega (arith, g.size_more);
    }

-- The table after `clht_put_seq`.
record Stepped (ht : Hashtable) (m : ℕ) (r : Hashtable) : Type 0 where
  tally : Tally r (suc m)
  size : r.num_buckets ≡ ht.num_buckets
  threshold : r.num_expands_threshold ≡ ht.num_expands_threshold

module _ (mem : Memory) (ht : Hashtable) (k v m : ℕ) (nonzero : k ≢ 0) (t : Tally ht m) where
  abbrev bin : ℕ
  bin = hash_of ht k

  bin-lt : bin < length ht.table
  unfolding hash_of
  bin-lt = omega (arith, bit_and-le k ht.hash, t.inside)

  abbrev old : Chain
  old = chain_at ht.table bin

  write_back-Stepped :
      (more : ℕ) (c : Chain)
      → Adds more old c
      → Stepped ht m (record ht { table = set ht.table bin c; num_expands = ht.num_expands + more })
  write_back-Stepped more c a =
      let g = set-Grows more ht.table bin c t.tight bin-lt a in
      record {
        tally = record {
          inside = omega (arith, t.inside, g.wide);
          tight = g.tight;
          counted = omega (arith, g.hops_more, t.counted);
          total = omega (arith, g.size_more, t.total);
        };
        size = refl;
        threshold = refl;
      }

  abbrev fresh : (ℕ → ℕ) → Bucket
  fresh words = record { lock = lock_free; slots = (0, words 0) ∷ (0, words 1) ∷ (0, words 2) ∷ [] }

  seq_found-Stepped :
      m < 2 ^ 32
      → (e : Option ℕ) → empty_in_chain 0 old ≡ e
      → (r : Hashtable) → seq_found mem ht bin old (k, v) e ≡ done r
      → Stepped ht m r
  unfolding seq_found bucket_create_stats bucket_create fill_first
  seq_found-Stepped small (some p) e r run =
      subst (Stepped ht m)
        (ap (λ n. record ht { table = set ht.table bin (store old p (k, v)); num_expands = n })
            (omega arith)
          ∙ done_injective run)
        (write_back-Stepped 0 (store old p (k, v))
          (store-Adds old k v nonzero (AllTight-chain_at ht.table bin t.tight bin-lt) p e))
  seq_found-Stepped small none e r run = elim (Option-cases (mem.bucket ht.num_expands)) [
    | inl gone ↦ cc (rw gone at run)
    | inr (words, got) ↦
        let c = append_bucket old (fill_first (fresh words) (k, v)) in
        subst (Stepped ht m)
          (ap (λ n. record ht { table = set ht.table bin c; num_expands = n })
              (omega (arith, AllTight-used ht.table t.tight, t.counted, t.total))
            ∙ done_injective (rw got at run))
          (write_back-Stepped 1 c (
            append_bucket-Adds old k v nonzero (AllTight-chain_at ht.table bin t.tight bin-lt) words
              _ refl e))
  ]

  put_seq-Stepped : m < 2 ^ 32 → (r : Hashtable) → put_seq mem ht k v bin ≡ done r → Stepped ht m r
  unfolding put_seq
  put_seq-Stepped small r run =
      seq_found-Stepped small (empty_in_chain 0 old) refl r
        (rw (at-chain_at ht.table bin bin-lt) at run)

-- A table that was filled from one with `m` slots in use.
pub record Filled (new : Hashtable) (m : ℕ) (r : Hashtable) : Type 0 where
  pub tally : Tally r m
  pub size : r.num_buckets ≡ new.num_buckets
  pub threshold : r.num_expands_threshold ≡ new.num_expands_threshold

-- The copy of some slots puts as many of them in use as have a key.
pub copy_slots-Filled :
    (mem : Memory) (xs : List Slot) (new : Hashtable) (m : ℕ)
    → Tally new m
    → m + size_slots xs < 2 ^ 32
    → (r : Hashtable) → copy_slots mem xs new ≡ done r
    → Filled new (m + size_slots xs) r
unfolding copy_slots size_slots
copy_slots-Filled mem [] new m t small r run =
    subst (Filled new (m + 0)) (done_injective run)
      (record { tally = subst (Tally new) (omega arith) t; size = refl; threshold = refl })
copy_slots-Filled mem ((k, v) ∷ xs) new m t small r run = elim (Bool-cases (k == 0)) [
  | inl e ↦
      let same : m + size_slots xs ≡ m + size_slots ((k, v) ∷ xs) = ground arith in
      subst (λ n. Filled new n r) same
        (copy_slots-Filled mem xs new m t (omega arith) r (rw e at run))
  | inr e ↦
      let (new', put, rest) = >>=-eq-done _ _ (rw e at run) in
      let same : suc m + size_slots xs ≡ m + size_slots ((k, v) ∷ xs) = ground arith in
      let s = put_seq-Stepped mem new k v m (==→ne k 0 e) t (omega arith) new' put in
      let f = copy_slots-Filled mem xs new' (suc m) s.tally (omega arith) r rest in
      record {
        tally = subst (Tally r) same f.tally;
        size = f.size ∙ s.size;
        threshold = f.threshold ∙ s.threshold;
      }
]

AllTight-cleared : (n : ℕ) → AllTight (replicate n cleared)
unfolding walk hops size_chain size_slots
AllTight-cleared zero = tt
AllTight-cleared (suc n) = (record { wide = refl; used = omega arith }, AllTight-cleared n)

total_hops-cleared : (n : ℕ) → total_hops (replicate n cleared) ≡ 0
unfolding total_hops hops
total_hops-cleared zero = refl
total_hops-cleared (suc n) = omega (arith, total_hops-cleared n)

pub IsNew-Tally : {n : ℕ} {ht : Hashtable} → IsNew n ht → Tally ht 0
IsNew-Tally {n} {ht} new = record {
  inside = omega (arith, new.valid.some_bucket, new.valid.sized, new.valid.masked);
  tight = subst AllTight (sym new.table) (AllTight-cleared n);
  counted = rw new.table (omega (arith, new.expands, total_hops-cleared n));
  total = rw new.table (size_bins-cleared n);
}
