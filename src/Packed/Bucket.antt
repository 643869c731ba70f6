-- ===== src/Packed/Bucket.antt =====
-- `bucket_t` of include/clht_lb_packed.h, and the loops of src/clht_lb_packed.c over a chain.
pub mod Entries
pub mod Put
pub mod Pop
pub mod Remove
pub mod Search
use clht.Prelude.{
  ℕ, zero, suc, ◌+◌, ◌-◌, ◌==◌, ltb, if◌then◌else◌, Bool, true, false, Option, none, some, List, [],
  ◌∷◌, replicate, set, get_or, Outcome, done, fault, ◌>>=◌,
}
use clht.Slots.{Slot}
use clht.LbRes.Bucket.{Block}

abbrev pub entries_per_bucket : ℕ
entries_per_bucket = 3

pub record Bucket : Type 0 where
  pub lock : ℕ
  pub last : ℕ  -- uint32_t
  pub slots : List Slot

-- the buckets that `next` links, up to the one whose `next` is NULL
pub data Chain : Type 0 where
  last : Bucket → Chain
  link : Bucket → Chain → Chain

-- a bucket as `memset` and the loop of `clht_hashtable_create` leave it
abbrev pub cleared : Bucket
cleared = record { lock = 0; last = 0; slots = replicate entries_per_bucket (0, 0) }

abbrev pub slot : List Slot → ℕ → Slot
slot xs j = get_or xs j (0, 0)

-- `clht_bucket_create`: the words of `val` are as the block had them
unfoldable pub bucket_create : Block → Option Bucket
bucket_create none = none
bucket_create (some words) =
    some (record { lock = 0; last = 0; slots = (0, words 0) ∷ (0, words 1) ∷ (0, words 2) ∷ [] })

unfoldable pub lock_of : Chain → ℕ
lock_of (last b) = b.lock
lock_of (link b c) = b.lock

unfoldable pub with_lock : ℕ → Chain → Chain
with_lock l (last b) = last (record b { lock = l })
with_lock l (link b c) = link (record b { lock = l }) c

-- the inner loop of `clht_get`, from slot j - 1 down
unfoldable pub get_down : ℕ → ℕ → List Slot → Option ℕ
get_down key zero xs = none
get_down key (suc j) xs =
    let s = slot xs j in
    let val = s.1 in if s.0 == key then some (if s.1 == val then val else 0) else get_down key j xs

-- the loop of `clht_get` over the buckets; it breaks at one that is not full
unfoldable pub get_chain : ℕ → Chain → ℕ
unfolding get_down
get_chain key (last b) = elim (get_down key b.last b.slots) [ some val ↦ val | none ↦ 0 ]
get_chain key (link b c) = elim (get_down key b.last b.slots) [
  | some val ↦ val
  | none ↦ if ltb b.last entries_per_bucket then 0 else get_chain key c
]

exists_down : ℕ → ℕ → List Slot → Bool
exists_down key zero xs = false
exists_down key (suc j) xs = if (slot xs j).0 == key then true else exists_down key j xs

unfoldable pub bucket_exists : ℕ → Chain → Bool
unfolding exists_down
bucket_exists key (last b) = exists_down key b.last b.slots
bucket_exists key (link b c) =
    if exists_down key b.last b.slots
    then true
    else if ltb b.last entries_per_bucket
    then false
    else bucket_exists key c

-- the inner loops of `clht_put` and `clht_remove`: the first of n slots, from j on, with the key
unfoldable pub position : ℕ → ℕ → ℕ → List Slot → Option ℕ
position key j zero xs = none
position key j (suc n) [] = none
position key j (suc n) (s ∷ xs) = if s.0 == key then some j else position key (suc j) n xs

-- `val[last] = val; key[last] = key; last++`
abbrev pushed : Bucket → Slot → Bucket
pushed b s = record b { slots = set b.slots b.last s; last = suc b.last }

-- `bucket->next = clht_bucket_create()`, and the stores through it
expand : Bucket → Slot → Option Bucket → Outcome (Bool × Chain)
expand b s none = fault
expand b s (some new) =
    done (true, link b (last (record new { slots = set new.slots 0 s; last = suc new.last })))

-- the loop of `clht_put`, the lock being held
unfoldable pub put_chain : Block → Slot → Chain → Outcome (Bool × Chain)
unfolding position expand bucket_create
put_chain block s (last b) = elim (position s.0 0 b.last b.slots) [
  | some j ↦ done (false, last b)
  | none ↦
      if ltb b.last entries_per_bucket
      then done (true, last (pushed b s))
      else expand b s (bucket_create block)
]
put_chain block s (link b c) = elim (position s.0 0 b.last b.slots) [
  | some j ↦ done (false, link b c)
  | none ↦
      if ltb b.last entries_per_bucket
      then done (true, link (pushed b s) c)
      else (do (result, c') ← put_chain block s c; done (result, link b c'))
]

-- `blast->next->last`, of the bucket that `blast->next` points to
abbrev head_last : Chain → ℕ
head_last (last b) = b.last
head_last (link b c) = b.last

popped : Bucket → Outcome (Slot × Bucket)
popped b =
    if b.last == 0 then fault else done (slot b.slots (b.last - 1), record b { last = b.last - 1 })

-- The last entry of a chain, which ends at the last bucket before an empty one, and `blast->last--`.
-- A `blast->last` of 0 is the failure of the assertion.
unfoldable pub pop_last : Chain → Outcome (Slot × Chain)
unfolding popped
pop_last (last b) = do (s, b') ← popped b; done (s, last b')
pop_last (link b c) =
    if head_last c == 0
    then (do (s, b') ← popped b; done (s, link b' c))
    else (do (s, c') ← pop_last c; done (s, link b c'))

-- a store into slot j of the first bucket
unfoldable pub set_head : Chain → ℕ → Slot → Chain
set_head (last b) j s = last (record b { slots = set b.slots j s })
set_head (link b c) j s = link (record b { slots = set b.slots j s }) c

-- `key[j] = 0`, then the last entry is moved to slot j; `val` is that of slot j
unfoldable pub fill_hole : ℕ → ℕ → Chain → Outcome (ℕ × Chain)
unfolding pop_last set_head
fill_hole j val c = do (s, c') ← pop_last (set_head c j (0, val)); done (val, set_head c' j s)

-- the loop of `clht_remove`, the lock being held; `false` is 0
unfoldable pub remove_chain : ℕ → Chain → Outcome (ℕ × Chain)
unfolding position fill_hole
remove_chain key (last b) = elim (position key 0 b.last b.slots) [
  | some j ↦ fill_hole j (slot b.slots j).1 (last b)
  | none ↦ done (0, last b)
]
remove_chain key (link b c) = elim (position key 0 b.last b.slots) [
  | some j ↦ fill_hole j (slot b.slots j).1 (link b c)
  | none ↦
      if ltb b.last entries_per_bucket
      then done (0, link b c)
      else (do (val, c') ← remove_chain key c; done (val, link b c'))
]

-- the count of one chain in `clht_size`
unfoldable pub size_chain : Chain → ℕ
size_chain (last b) = b.last
size_chain (link b c) = if ltb b.last entries_per_bucket then b.last else b.last + size_chain c
