-- ===== src/LbRes/Table/Rebinding.antt =====
-- The bucket that each branch of `clht_put` and `clht_remove` leaves.
use clht.Prelude.{
  ℕ, ◌+◌, ◌≤◌, ◌≡◌, ◌≢◌, ap, ◌==◌, if◌then◌else◌, Option, none, some, List, [], ◌∷◌, set, get_elem?,
  arith, done, eq→==,
}
use clht.Slots.{Slot, find, count}
use clht.Slots.Laws.{
  find-append, count-append, find-eq-none, count-set, find-set, find-set_empty, find_only,
}
use clht.LbRes.Bucket.{
  Bucket, Chain, walk, lock_of, lock_free, lock_update, with_lock, lock_acq_chk_resize, store,
  append_bucket, fill_first, bucket_create,
}
use clht.LbRes.Bucket.Edit.{walk-with_lock, lock_of-with_lock, walk-store, walk-append_bucket}
use clht.LbRes.Bucket.Search.{Vacant}
use clht.LbRes.Bucket.Remove.{Emptied}
use clht.LbRes.Table.{lock_rls, size_slots}
use clht.LbRes.Table.Counting.{size_slots-append, size_chain-walk, size_slots-set, bound}
use clht.LbRes.Table.Writes.{Rebinds, update}

abbrev pub lock_acq : Chain → Chain
lock_acq c = with_lock lock_update c

-- A free lock is taken.
pub lock_acq_chk_resize-free :
    (c : Chain) → lock_of c ≡ lock_free → lock_acq_chk_resize c ≡ done (lock_acq c)
unfolding lock_acq_chk_resize
lock_acq_chk_resize-free c h = rw (eq→== (lock_of c) lock_free h)

-- A chain whose slots are known, released.
abbrev released : Chain → List Slot
released c = walk (lock_rls c)

pub Rebinds-lock_rls :
    (k : ℕ) (o : Option ℕ) (old new : Chain)
    → ((q : ℕ) → q ≢ 0 → find q (walk new) ≡ update (λ r. find r (walk old)) k o q)
    → ((q : ℕ) → q ≢ 0 → count q (walk new) ≤ (if k == q then 1 else count q (walk old)))
    → size_slots (walk new) + bound (find k (walk old)) ≡ size_slots (walk old) + bound o
    → Rebinds k o old (lock_rls new)
Rebinds-lock_rls k o old new binds few used = record {
  lock = lock_of-with_lock lock_free new;
  binds = λ q nz. rw walk-with_lock (binds q nz);
  few = λ q nz. rw walk-with_lock (few q nz);
  used = rw (size_chain-walk, size_chain-walk, walk-with_lock) used;
}

module _ (k v : ℕ) (c : Chain) (nonzero : k ≢ 0) (absent : count k (walk c) ≡ 0) where
  unbound : find k (walk c) ≡ none
  unbound = find-eq-none k (walk c) absent

  pub store-Rebinds :
      (p : ℕ) → Vacant 0 (walk c) p → Rebinds k (some v) c (lock_rls (store (lock_acq c) p (k, v)))
  store-Rebinds p free =
      let written : walk (store (lock_acq c) p (k, v)) ≡ set (walk c) free.place (k, v) =
        rw (walk-store, walk-with_lock, free.at_place)
          (ap (λ i. set (walk c) i (k, v)) (omega arith)) in
      Rebinds-lock_rls k (some v) c (store (lock_acq c) p (k, v))
        (λ q nz. rw written (find-set q (walk c) free.place free.old k v nz free.empty absent))
        (λ q nz.
          rw written (ground (arith, count-set q (walk c) free.place 0 free.old k v free.empty)))
        (rw (written, unbound)
          (ground (arith, size_slots-set (walk c) free.place 0 free.old k v free.empty)))

  pub append_bucket-Rebinds :
      (words : ℕ → ℕ) (new : Bucket)
      → bucket_create (some words) ≡ some new
      → Rebinds k (some v) c (lock_rls (append_bucket (lock_acq c) (fill_first new (k, v))))
  unfolding bucket_create fill_first find count size_slots
  append_bucket-Rebinds words new made =
      let slots : (fill_first new (k, v)).slots ≡ (k, v) ∷ (0, words 1) ∷ (0, words 2) ∷ [] =
        ground arith in
      Rebinds-lock_rls k (some v) c (append_bucket (lock_acq c) (fill_first new (k, v)))
        (λ q nz.
          rw (walk-append_bucket, walk-with_lock, slots, find-append)
            (ground (arith, find-eq-none k (walk c))))
        (λ q nz. rw (walk-append_bucket, walk-with_lock, slots, count-append) (ground arith))
        (rw (walk-append_bucket, walk-with_lock, slots, size_slots-append, unbound) (ground arith))

-- The lock is taken and released over an unchanged chain.
pub release-Rebinds :
    (k : ℕ) (c : Chain)
    → ((q : ℕ) → q ≢ 0 → count q (walk c) ≤ 1)
    → Rebinds k (find k (walk c)) c (lock_rls (lock_acq c))
release-Rebinds k c few =
    Rebinds-lock_rls k (find k (walk c)) c (lock_acq c) (λ q nz. rw walk-with_lock (ground arith))
      (λ q nz. rw walk-with_lock (ground (arith, few q nz))) (rw walk-with_lock)

pub remove-Rebinds :
    (k v : ℕ) (c new : Chain)
    → k ≢ 0
    → ((q : ℕ) → q ≢ 0 → count q (walk c) ≤ 1)
    → Emptied k (walk (lock_acq c)) v (walk new)
    → Rebinds k none c (lock_rls new)
remove-Rebinds k v c new nonzero few gone =
    let had : get_elem? (walk c) gone.place ≡ some (k, v) = rw walk-with_lock at gone.had in
    let written : walk new ≡ set (walk c) gone.place (0, v) = rw (gone.written, walk-with_lock) in
    Rebinds-lock_rls k none c new
      (λ q nz. rw written (find-set_empty q (walk c) gone.place v k v nz had (few k nonzero)))
      (λ q nz. rw written (ground (arith, count-set q (walk c) gone.place k v 0 v had, few q nz)))
      (rw (written, find_only (walk c) gone.place k v had (few k nonzero))
        (ground (arith, size_slots-set (walk c) gone.place k v 0 v had)))
