-- ===== src/LbRes/Bucket.antt =====
-- `bucket_t` of include/clht_lb_res.h, a chain of buckets, and the loops of src/clht_lb_res.c that
-- walk a chain. A pointer to a slot of a chain is the number of that slot in the order of the walk.
-- `hops` is left out: this variant never reads it.
pub mod Walk
pub mod Edit
pub mod Search
pub mod Remove
use clht.Prelude.{
  ℕ, zero, suc, ◌+◌, ◌-◌, ◌==◌, ltb, if◌then◌else◌, Bool, true, false, not, ◌&&◌, Option, none,
  some, List, [], ◌∷◌, ◌++◌, length, set, Outcome, done, blocked,
}
use clht.Slots.{Slot}

abbrev pub entries_per_bucket : ℕ
entries_per_bucket = 3

abbrev pub lock_free : ℕ
lock_free = 0

abbrev pub lock_update : ℕ
lock_update = 1

abbrev pub lock_resize : ℕ
lock_resize = 2

pub record Bucket : Type 0 where
  pub lock : ℕ
  pub slots : List Slot

-- the buckets that `next` links, up to the one whose `next` is NULL
pub data Chain : Type 0 where
  last : Bucket → Chain
  link : Bucket → Chain → Chain

-- what `memalign` returns: NULL, or a block whose word for `val[j]` holds some number
abbrev pub Block : Type 0
Block = Option (ℕ → ℕ)

-- the loop that clears `key[j .. j + n)` and leaves `val` as the block had it
unused : ℕ → ℕ → (ℕ → ℕ) → List Slot
unused zero j words = []
unused (suc n) j words = (0, words j) ∷ unused n (suc j) words

-- `clht_bucket_create`
unfoldable pub bucket_create : Block → Option Bucket
unfolding unused
bucket_create none = none
bucket_create (some words) =
    some (record { lock = lock_free; slots = unused entries_per_bucket 0 words })

-- the slots of a chain in the order of the walk
unfoldable pub walk : Chain → List Slot
walk (last b) = b.slots
walk (link b c) = b.slots ++ walk c

-- the lock of a chain is that of its first bucket
unfoldable pub lock_of : Chain → ℕ
lock_of (last b) = b.lock
lock_of (link b c) = b.lock

unfoldable pub with_lock : ℕ → Chain → Chain
with_lock l (last b) = last (record b { lock = l })
with_lock l (link b c) = link (record b { lock = l }) c

-- `lock_acq_chk_resize` for a call that runs alone: on LOCK_UPDATE it spins, and on LOCK_RESIZE it
-- waits for `table_new`, which only the thread that resizes sets
unfoldable pub lock_acq_chk_resize : Chain → Outcome Chain
unfolding lock_of with_lock
lock_acq_chk_resize c = if lock_of c == lock_free then done (with_lock lock_update c) else blocked

-- the inner loop of `clht_get`, at `return`: the value is read before the key and again after it
unfoldable pub get_slots : ℕ → List Slot → Option ℕ
get_slots key [] = none
get_slots key (s ∷ xs) =
    let val = s.1 in if s.0 == key then some (if s.1 == val then val else 0) else get_slots key xs

-- the loop of `clht_get` over the buckets
unfoldable pub get_chain : ℕ → Chain → ℕ
unfolding get_slots
get_chain key (last b) = elim (get_slots key b.slots) [ some val ↦ val | none ↦ 0 ]
get_chain key (link b c) = elim (get_slots key b.slots) [ some val ↦ val | none ↦ get_chain key c ]

unfoldable pub exists_slots : ℕ → List Slot → Bool
exists_slots key [] = false
exists_slots key (s ∷ xs) = if s.0 == key then true else exists_slots key xs

unfoldable pub bucket_exists : ℕ → Chain → Bool
unfolding exists_slots
bucket_exists key (last b) = if exists_slots key b.slots then true else false
bucket_exists key (link b c) = if exists_slots key b.slots then true else bucket_exists key c

-- how the walk of `clht_put` ends: at a slot with the key, or at the last bucket with `empty`
pub data Scan : Type 0 where
  present : Scan
  vacant : (empty : Option ℕ) → Scan

abbrev pub is_none : Option ℕ → Bool
is_none none = true
is_none (some _) = false

-- the inner loop of `clht_put`, from slot i on
unfoldable pub scan : ℕ → ℕ → Option ℕ → List Slot → Scan
scan key i empty [] = vacant empty
scan key i empty (s ∷ xs) =
    if s.0 == key
    then present
    else scan key (suc i) (if is_none empty && (s.0 == 0) then some i else empty) xs

unfoldable pub scan_chain : ℕ → ℕ → Option ℕ → Chain → Scan
unfolding scan
scan_chain key i empty (last b) = scan key i empty b.slots
scan_chain key i empty (link b c) = elim (scan key i empty b.slots) [
  | present ↦ present
  | vacant empty' ↦ scan_chain key (i + length b.slots) empty' c
]

-- a store through a pointer to a slot: `*empty_v = val; *empty = key`
unfoldable pub store : Chain → ℕ → Slot → Chain
store (last b) i s = last (record b { slots = set b.slots i s })
store (link b c) i s =
    let rest = store c (i - length b.slots) s in
    if ltb i (length b.slots) then link (record b { slots = set b.slots i s }) c else link b rest

-- `bucket->next = b` at the last bucket
unfoldable pub append_bucket : Chain → Bucket → Chain
append_bucket (last b) new = link b (last new)
append_bucket (link b c) new = link b (append_bucket c new)

-- `b->val[0] = val; b->key[0] = key`
unfoldable pub fill_first : Bucket → Slot → Bucket
fill_first b s = record b { slots = set b.slots 0 s }

-- the loop of `clht_remove`: the slot that it empties and the value that it returns
unfoldable pub remove_slots : ℕ → List Slot → Option (ℕ × List Slot)
remove_slots key [] = none
remove_slots key (s ∷ xs) =
    let rest = remove_slots key xs in
    if s.0 == key
    then some (s.1, (0, s.1) ∷ xs)
    else elim rest [ none ↦ none | some r ↦ some (r.0, s ∷ r.1) ]

unfoldable pub remove_chain : ℕ → Chain → Option (ℕ × Chain)
unfolding remove_slots
remove_chain key (last b) = elim (remove_slots key b.slots) [
  | none ↦ none
  | some r ↦ some (r.0, last (record b { slots = r.1 }))
]
remove_chain key (link b c) = elim (remove_slots key b.slots) [
  | some r ↦ some (r.0, link (record b { slots = r.1 }) c)
  | none ↦ elim (remove_chain key c) [ none ↦ none | some r ↦ some (r.0, link b r.1) ]
]

-- the loop of `clht_put_seq`: the first empty slot, if any
unfoldable pub empty_slot : ℕ → List Slot → Option ℕ
empty_slot i [] = none
empty_slot i (s ∷ xs) = if s.0 == 0 then some i else empty_slot (suc i) xs

unfoldable pub empty_in_chain : ℕ → Chain → Option ℕ
unfolding empty_slot
empty_in_chain i (last b) = empty_slot i b.slots
empty_in_chain i (link b c) = elim (empty_slot i b.slots) [
  | some j ↦ some j
  | none ↦ empty_in_chain (i + length b.slots) c
]

-- how many buckets `next` leads through
unfoldable pub hops : Chain → ℕ
hops (last b) = 0
hops (link b c) = suc (hops c)
