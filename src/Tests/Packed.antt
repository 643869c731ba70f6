-- ===== src/Tests/Packed.antt =====
-- `clht_lb_packed`: a session that moves an entry, and the theorems at a table of one bucket.
use clht.Prelude.{
  ℕ, zero, suc, ◌≤◌, ◌≡◌, ◌≢◌, refl, some, List, [], ◌∷◌, Outcome, done, ◌>>=◌, Returns, arith,
}
use clht.Words.{bit_and-le}
use clht.Slots.{count}
use clht.LbRes.Bucket.{Block}
use clht.LbRes.Bucket.Walk.{value_or_zero}
use clht.Packed.Bucket.{
  last, cleared, get_chain, bucket_exists, put_chain, remove_chain, size_chain, lock_of, with_lock,
}
use clht.Packed.Bucket.Entries.{entries, IsPacked}
use clht.Packed.{Hashtable, hash_of, get, put, remove, size}
use clht.Packed.Invariant.{IsValid, view, chain_at}
use clht.Packed.Refinement.{Puts, Removed, get-packed_view, put-PacksIn, remove-PacksOut}

abbrev block : Block
block = some (λ j. 9)

abbrev one : Hashtable
one = record { num_buckets = 1; table = last cleared ∷ [] }

-- five keys in one bucket: the remove of the first moves the fifth into its slot
session : Outcome (ℕ × ℕ × ℕ × ℕ × List (ℕ × ℕ))
unfolding put remove get size
session = do
  (_, a) ← put block one 1 10
  (_, b) ← put block a 2 20
  (_, c) ← put block b 3 30
  (_, d) ← put block c 4 40
  (_, e) ← put block d 5 50
  (gone, f) ← remove e 1
  five ← get f 5
  none_left ← get f 1
  n ← size f
  done (gone, five, none_left, n, entries (chain_at f.table 0))

session_runs : session ≡ done (10, 50, 0, 4, (5, 50) ∷ (2, 20) ∷ (3, 30) ∷ (4, 40) ∷ [])
unfolding session bucket_exists put_chain remove_chain get_chain size_chain entries lock_of
    with_lock
session_runs = refl

-- 4 and 2 in one bucket
abbrev pair : Hashtable
pair = record {
  num_buckets = 1;
  table = last (record { lock = 0; last = 2; slots = (4, 40) ∷ (2, 20) ∷ (0, 0) ∷ [] }) ∷ [];
}

pair-IsValid : IsValid pair
unfolding entries count hash_of lock_of
pair-IsValid = record {
  some_bucket = omega arith;
  sized = refl;
  packed = packed;
  unlocked = unlocked;
  once = once;
  home = home;
}
  where
    packed : (i : ℕ) → IsPacked (chain_at pair.table i)
    packed zero = (refl, omega arith)
    packed (suc i) = (refl, omega arith)

    unlocked : (i : ℕ) → lock_of (chain_at pair.table i) ≡ 0
    unlocked zero = refl
    unlocked (suc i) = refl

    once : (q i : ℕ) → q ≢ 0 → count q (entries (chain_at pair.table i)) ≤ 1
    once q zero nz = ground arith
    once q (suc i) nz = omega arith

    home : (q i : ℕ) → q ≢ 0 → hash_of pair q ≢ i → count q (entries (chain_at pair.table i)) ≡ 0
    home q zero nz away = absurd (away (omega (arith, bit_and-le q 0)))
    home q (suc i) nz away = refl

get-packed_view_example : get pair 2 ≡ done (value_or_zero (view pair 2))
get-packed_view_example = get-packed_view pair 2 pair-IsValid (omega arith)

put-PacksIn_example : Returns (put block pair 7 70) (Puts pair 7 70)
put-PacksIn_example = put-PacksIn pair 7 pair-IsValid (omega arith) (λ j. 9) 70

remove-PacksOut_example : Returns (remove pair 4) (Removed pair 4)
remove-PacksOut_example = remove-PacksOut pair 4 pair-IsValid (omega arith)
