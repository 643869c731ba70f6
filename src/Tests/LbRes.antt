-- ===== src/Tests/LbRes.antt =====
-- `clht_lb_res`: a session that resizes, and the theorems at small tables.
use mathlib.Core.Path.{subst}
use clht.Prelude.{
  ℕ, zero, suc, ◌+◌, ◌*◌, ◌-◌, ◌%◌, ◌^◌, ◌<◌, ◌≤◌, ◌≡◌, ◌==◌, if◌then◌else◌, bit_and, ◌≢◌, refl,
  sym, ◌∙◌, true, false, none, some, List, [], ◌∷◌, Outcome, done, fault, ◌>>=◌, done_injective,
  Returns, arith,
}
use clht.Words.{bit_and-le}
use clht.Slots.{find, count}
use clht.LbRes.Bucket.{
  Chain, last, walk, lock_of, is_none, bucket_exists, lock_acq_chk_resize, scan_chain, store,
  bucket_create, append_bucket, fill_first, empty_in_chain, remove_chain, get_chain,
}
use clht.LbRes.Bucket.Walk.{value_or_zero}
use clht.LbRes.Table.{
  Hashtable, Memory, new_table, hashtable_create, at, hash_of, get, put_table, remove, size,
  size_bins, size_chain, size_slots,
}
use clht.LbRes.Table.Invariant.{chain_at, IsValid, view, reads}
use clht.LbRes.Table.Insert.{kept_or, put_table-Puts}
use clht.LbRes.Table.Delete.{Removed, get-view, remove-Removed}
use clht.LbRes.Table.Faults.{put_table-fault, hash_of-low_bits}
use clht.LbRes.Table.Create.{new_table-IsNew}
use clht.LbRes.Resize.{Clht, clht_create, put, status, rebuild, increase}
use clht.LbRes.Resize.Sizes.{increase_bounds}
use clht.LbRes.Resize.Rebuild.{Rebuilt, rebuild-Rebuilt}
use clht.LbRes.Resize.Status.{Supply, Keeps, Ready, status-Keeps}
use clht.LbRes.Resize.Insert.{Inserts, put-Inserts}
use clht.LbRes.Resize.Start.{IsReady, clht_create-IsReady}
use clht.LbRes.Resize.Seven.{status-fault}
use clht.LbRes.Session.{get-put, get-remove, size-put}

-- memory that never runs out and is full of 9s
abbrev plenty : Memory
plenty = record { bucket = λ n. some (λ j. 9); has_struct = λ n. true; has_table = λ n. true }

plenty-Supply : Supply plenty
plenty-Supply = record { buckets = λ n e. cc e; structs = λ n. refl; tables = λ n. refl }

-- memory that refuses every bucket
abbrev poor : Memory
poor = record { bucket = λ n. none; has_struct = λ n. true; has_table = λ n. true }

run : Unit {0}
unfolding put status rebuild hashtable_create get remove size put_table size_bins bucket_exists
    lock_acq_chk_resize scan_chain store bucket_create size_chain append_bucket fill_first
    empty_in_chain remove_chain get_chain
run = tt

abbrev start : ℕ → Clht
unfolding hashtable_create
start n = record { ht = new_table n; resize_lock = 0; status_lock = 0; retired = [] }

start-Ready : (n : ℕ) → 0 < n → Ready (start n)
unfolding hashtable_create
start-Ready n h = record { valid = (new_table-IsNew n h).valid; free = refl }

-- five keys of one bucket in a table of one: the fourth asks for a resize
abbrev session : Outcome (ℕ × ℕ × ℕ × ℕ × ℕ)
session = do
  (_, a) ← put 4 plenty (start 1) 1 10
  (_, b) ← put 4 plenty a 2 20
  (_, c) ← put 4 plenty b 3 30
  (_, d) ← put 4 plenty c 4 40
  (_, e) ← put 4 plenty d 5 50
  (two, t) ← remove e.ht 2
  five ← get t 5
  gone ← get t 2
  n ← size t
  done (two, five, gone, n, t.num_buckets)

session_runs : session ≡ done (20, 50, 0, 4, 4)
unfolding run
session_runs = refl

-- the table of two buckets in which 5 is bound to 50
abbrev filled : Hashtable
filled = record {
  num_buckets = 2;
  table =
      last (record { lock = 0; slots = (0, 0) ∷ (0, 0) ∷ (0, 0) ∷ [] })
      ∷ last (record { lock = 0; slots = (5, 50) ∷ (0, 0) ∷ (0, 0) ∷ [] })
      ∷ [];
  hash = 1;
  version = 0;
  num_expands = 0;
  num_expands_threshold = 2;
}

filled_runs :
    put_table plenty (new_table 2) 5 50
    ≡ done (record { result = true; resize = false; ht = filled })
unfolding run
filled_runs = refl

filled-IsValid : IsValid filled
filled-IsValid =
    let (r, ran, p) =
      put_table-Puts plenty (new_table 2) 5 50 (new_table-IsNew 2 (omega arith)).valid (omega arith)
        (plenty-Supply.buckets (new_table 2).num_expands) in
    subst (λ t. IsValid t.ht) (done_injective (sym ran ∙ filled_runs)) p.valid

abbrev handle : Clht
handle = record { ht = filled; resize_lock = 0; status_lock = 0; retired = [] }

handle-Ready : Ready handle
handle-Ready = record { valid = filled-IsValid; free = refl }

put-Inserts_example : Returns (put 3 plenty handle 7 70) (Inserts handle 7 70)
unfolding size_bins size_chain size_slots size
put-Inserts_example =
    put-Inserts plenty plenty-Supply 2 handle 7 70 handle-Ready (omega arith) (omega arith)
      (omega arith) (omega arith) (omega arith)

remove-Removed_example : Returns (remove filled 5) (Removed filled 5)
remove-Removed_example = remove-Removed filled 5 filled-IsValid (omega arith)

get-view_example : get filled 5 ≡ done (value_or_zero (view filled 5))
get-view_example = get-view filled 5 filled-IsValid

status-Keeps_example : Returns (status 3 plenty handle true false) (λ r. Keeps handle.ht r.1)
unfolding size_bins size_chain size_slots size
status-Keeps_example =
    status-Keeps plenty plenty-Supply 2 handle true false handle-Ready (omega arith) (omega arith)
      (omega arith) (omega arith)

rebuild-Rebuilt_example : Returns (rebuild plenty filled 4) (Rebuilt filled 4)
unfolding size_bins size_chain size_slots size
rebuild-Rebuilt_example =
    rebuild-Rebuilt filled filled-IsValid plenty plenty-Supply.buckets 4 (omega arith) (omega arith)
      (omega arith) (omega arith) refl refl

get-put_example :
    put 3 plenty handle 7 70 >>= (λ r. get r.1.ht 7)
    ≡ done (value_or_zero (if 7 == 7 then kept_or (view filled 7) 70 else view filled 7))
unfolding size_bins size_chain size_slots size
get-put_example =
    get-put plenty plenty-Supply 2 handle 7 70 7 handle-Ready (omega arith) (omega arith)
      (omega arith) (omega arith) (omega arith) (omega arith)

get-remove_example :
    remove filled 5 >>= (λ r. get r.1 5)
    ≡ done (if 5 == 5 then 0 else value_or_zero (view filled 5))
get-remove_example = get-remove filled 5 5 filled-IsValid (omega arith) (omega arith)

size-put_example :
    put 3 plenty handle 7 70 >>= (λ r. size r.1.ht)
    ≡ done (1 + (if is_none (view filled 7) then 1 else 0))
unfolding size_bins size_chain size_slots size
size-put_example =
    size-put plenty plenty-Supply 2 handle 7 70 1 handle-Ready (omega arith) (omega arith)
      (omega arith) (omega arith) (omega arith) refl

hash_of-low_bits_example :
    (at filled.table (5 % 2 ^ 1) ≡ done (chain_at filled.table (hash_of filled 5)))
    × (5 % 2 ^ 1 < 2)
hash_of-low_bits_example = hash_of-low_bits filled 5 1 filled-IsValid refl

increase_bounds_example : (2 * 2 ≤ increase 2 9 * 2) × (increase 2 9 * 2 < 2 ^ 32)
increase_bounds_example = increase_bounds 2 9 (omega arith) (omega arith) (omega arith)

-- the factor for one bucket and 1300000000 bindings is -2 ^ 31 as an `int`, and so is the new size
increase_overflows : increase 1 1300000000 * 1 % 2 ^ 64 ≡ 2 ^ 64 - 2 ^ 31
unfolding increase
increase_overflows = refl

clht_create-IsReady_example : (h : Clht) × (clht_create plenty true 2 ≡ some h) × IsReady 2 h
clht_create-IsReady_example = clht_create-IsReady plenty 2 (omega arith) refl refl

-- one full bucket
abbrev full : Hashtable
full = record {
  num_buckets = 1;
  table = last (record { lock = 0; slots = (1, 10) ∷ (2, 20) ∷ (3, 30) ∷ [] }) ∷ [];
  hash = 0;
  version = 0;
  num_expands = 0;
  num_expands_threshold = 1;
}

full_once : (q : ℕ) → count q (walk (chain_at full.table 0)) ≤ 1
unfolding walk count
full_once q = ground arith

full-IsValid : IsValid full
unfolding walk count lock_of
full-IsValid = record {
  some_bucket = omega arith;
  sized = refl;
  masked = refl;
  placed = record { once = full_nowhere_twice; home = full_home; unlocked = full_unlocked };
}
  where
    full_nowhere_twice : (q i : ℕ) → q ≢ 0 → count q (walk (chain_at full.table i)) ≤ 1
    full_nowhere_twice q zero nz = full_once q
    full_nowhere_twice q (suc i) nz = omega arith

    full_home : (q i : ℕ) → q ≢ 0 → bit_and q 0 ≢ i → count q (walk (chain_at full.table i)) ≡ 0
    full_home q zero nz away = absurd (away (omega (arith, bit_and-le q 0)))
    full_home q (suc i) nz away = refl

    full_unlocked : (i : ℕ) → lock_of (chain_at full.table i) ≡ 0
    full_unlocked zero = refl
    full_unlocked (suc i) = refl

put_table-fault_example : put_table poor full 4 40 ≡ fault
unfolding view reads hash_of
put_table-fault_example =
    put_table-fault poor full 4 40 full-IsValid (omega arith) (unfold walk find in refl)
      (unfold walk count in refl) refl

abbrev unused : List (ℕ × ℕ)
unused = (0, 0) ∷ (0, 0) ∷ (0, 0) ∷ []

abbrev bare : Chain
bare = last (record { lock = 0; slots = unused })

-- seven buckets, of which one has a binding
abbrev seven : Hashtable
seven = record {
  num_buckets = 7;
  table =
      bare
      ∷ bare
      ∷ bare
      ∷ bare
      ∷ last (record { lock = 0; slots = (5, 50) ∷ (0, 0) ∷ (0, 0) ∷ [] })
      ∷ bare
      ∷ bare
      ∷ [];
  hash = 6;
  version = 0;
  num_expands = 0;
  num_expands_threshold = 7;
}

seven_runs :
    put_table plenty (new_table 7) 5 50
    ≡ done (record { result = true; resize = false; ht = seven })
unfolding run
seven_runs = refl

seven-IsValid : IsValid seven
seven-IsValid =
    let (r, ran, p) =
      put_table-Puts plenty (new_table 7) 5 50 (new_table-IsNew 7 (omega arith)).valid (omega arith)
        (plenty-Supply.buckets (new_table 7).num_expands) in
    subst (λ t. IsValid t.ht) (done_injective (sym ran ∙ seven_runs)) p.valid

abbrev sevens : Clht
sevens = record { ht = seven; resize_lock = 0; status_lock = 0; retired = [] }

status-fault_example : status 1 plenty sevens false false ≡ fault
unfolding size_bins size_chain size_slots
status-fault_example =
    status-fault plenty 0 sevens false (record { valid = seven-IsValid; free = refl }) refl refl
      refl
