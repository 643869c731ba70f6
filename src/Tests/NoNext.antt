-- ===== src/Tests/NoNext.antt =====
-- `clht_lb_res_no_next`: a put into a full bucket, a copy that drops a key, and the theorems at one
-- bucket.
use clht.Prelude.{
  ℕ, zero, suc, ◌<◌, ◌≤◌, ◌≡◌, ◌≢◌, refl, Bool, true, none, [], ◌∷◌, Outcome, done, ◌>>=◌, Returns,
  arith, ◌^◌, ◌+◌, bit_and, Bool-cases, inl, inr, leb,
}
use clht.Words.{bit_and-le}
use clht.Slots.{find, count}
use clht.LbRes.Bucket.{last, walk, lock_of, exists_slots, empty_slot, remove_slots}
use clht.LbRes.Table.{
  Hashtable, Memory, hashtable_create, hash_of, size_bins, size_chain, size_slots,
}
use clht.LbRes.Table.Invariant.{IsValid, IsPlaced, chain_at, view, reads}
use clht.LbRes.Resize.{Clht}
use clht.NoNext.{scan_last, put, get, remove, rebuild, put_seq, size}
use clht.NoNext.Single.{Singles}
use clht.NoNext.Status.{Ready, Grants}
use clht.NoNext.Rebuild.{Grown, rebuild-Grown}
use clht.NoNext.Put.{Bits, Adds, put-Adds}
use clht.LbRes.Table as Table
use clht.NoNext.Delete.{remove-as_remove}
use clht.NoNext.Lost.{Ends, put_seq-Ends}

abbrev memory : Memory
memory = record { bucket = λ n. none; has_struct = λ n. true; has_table = λ n. true }

-- one bucket, full
abbrev full : Hashtable
full = record {
  num_buckets = 1;
  table = last (record { lock = 0; slots = (1, 10) ∷ (2, 20) ∷ (3, 30) ∷ [] }) ∷ [];
  hash = 0;
  version = 0;
  num_expands = 0;
  num_expands_threshold = 1;
}

full-IsPlaced : IsPlaced 0 full.table
unfolding walk count lock_of
full-IsPlaced = record { once = once; home = home; unlocked = unlocked }
  where
    once : (q i : ℕ) → q ≢ 0 → count q (walk (chain_at full.table i)) ≤ 1
    once q zero nz = ground arith
    once q (suc i) nz = omega arith

    home : (q i : ℕ) → q ≢ 0 → bit_and q 0 ≢ i → count q (walk (chain_at full.table i)) ≡ 0
    home q zero nz away = absurd (away (omega (arith, bit_and-le q 0)))
    home q (suc i) nz away = refl

    unlocked : (i : ℕ) → lock_of (chain_at full.table i) ≡ 0
    unlocked zero = refl
    unlocked (suc i) = refl

full-IsValid : IsValid full
full-IsValid = record {
  some_bucket = omega arith;
  sized = refl;
  masked = refl;
  placed = full-IsPlaced;
}

full-Singles : Singles full.table
full-Singles zero l = refl
full-Singles (suc i) l = absurd (omega (arith, l))

abbrev handle : Clht
handle = record { ht = full; resize_lock = 0; status_lock = 0; retired = [] }

handle-Ready : Ready 0 handle
handle-Ready = record {
  valid = full-IsValid;
  singles = full-Singles;
  size = refl;
  resize_lock = refl;
  status_lock = refl;
}

three-Bits : Bits 3 full
unfolding view reads walk find
three-Bits q nz bound = elim (Bool-cases (leb q 3)) [
  | inl e ↦ ground arith
  | inr e ↦ absurd (bound (unbound q (ground arith)))
]
  where
    low : (q : ℕ) → bit_and q 0 ≡ 0
    low q = omega (arith, bit_and-le q 0)

    unbound : (q : ℕ) → 3 < q → find q (walk (chain_at full.table (bit_and q 0))) ≡ none
    unbound q h = rw low (ground arith)

grants : Grants memory
grants = record { struct = λ n. refl; table = λ n. refl }

-- a put into the full bucket grows the table by 8, so that 9 and 1 share a bucket of eight
session : Outcome (Bool × ℕ × ℕ × ℕ × ℕ)
unfolding put get remove size
session = do
  (r, h) ← put 4 memory handle 9 90
  nine ← get h.ht 9
  one ← get h.ht 1
  (gone, ht) ← remove h.ht 1
  n ← size ht
  done (r, nine, one, gone, n)

put-Adds_example : Returns (put 4 memory handle 9 90) (Adds handle 9 90)
put-Adds_example =
    put-Adds memory grants 3 9 90 (omega arith) (omega arith) 4 0 handle handle-Ready three-Bits
      (omega arith) (omega arith)

few_bound : size_bins full.table < 2 ^ 32
unfolding size_bins size_chain size_slots
few_bound = omega arith

rebuild-Grown_example : Returns (rebuild memory full (2 ^ (0 + 1))) (Grown full (2 ^ (0 + 1)))
rebuild-Grown_example =
    rebuild-Grown full full-IsValid full-Singles memory 0 1 refl (omega arith) (omega arith)
      few_bound refl refl

remove-as_remove_example : remove full 2 ≡ Table.remove full 2
remove-as_remove_example = remove-as_remove full 2 full-IsValid full-Singles

put_seq-Ends_example :
    Returns (put_seq full 5 50 (hash_of full 5)) (λ r. (r.0 ≡ true) × Ends full 5 50 r.1)
unfolding view reads hash_of walk find
put_seq-Ends_example = put_seq-Ends full 5 50 full-IsValid full-Singles (omega arith) refl

-- the key is dropped, and a key goes to a bucket that has room
copies_run :
    (put_seq full 5 50 0 ≡ done (true, full))
    × (put_seq
          (record full {
            table = last (record { lock = 0; slots = (1, 10) ∷ (0, 0) ∷ (3, 30) ∷ [] }) ∷ [];
          })
          5
          50
          0
        ≡ done (
          true,
          record full {
            table = last (record { lock = 0; slots = (1, 10) ∷ (5, 50) ∷ (3, 30) ∷ [] }) ∷ [];
          },
        ))
unfolding put_seq empty_slot
copies_run = (refl, refl)

session_runs : session ≡ done (true, 90, 10, 10, 3)
unfolding session put get remove size exists_slots scan_last hashtable_create size_slots empty_slot
    remove_slots
session_runs = refl
