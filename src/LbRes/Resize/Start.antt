-- ===== src/LbRes/Resize/Start.antt =====
-- `clht_create`: the handle that a program starts with.
use clht.Prelude.{ℕ, ◌<◌, ◌≡◌, ◌≢◌, refl, true, none, some, [], done}
use clht.LbRes.Bucket.{lock_free}
use clht.LbRes.Table.{Memory, get}
use clht.LbRes.Table.Invariant.{view}
use clht.LbRes.Table.Delete.{get-view}
use clht.LbRes.Table.Create.{hashtable_create-IsNew}
use clht.LbRes.Resize.{Clht, clht_create}
use clht.LbRes.Resize.Status.{Ready}

-- A handle of `n` buckets on which a call may start, in which no key is found.
pub record IsReady (n : ℕ) (h : Clht) : Type 0 where
  pub ready : Ready h
  pub idle : h.status_lock ≡ lock_free
  pub size : h.ht.num_buckets ≡ n
  pub views : (q : ℕ) → q ≢ 0 → view h.ht q ≡ none
  pub misses : (q : ℕ) → q ≢ 0 → get h.ht q ≡ done 0

-- Where some bucket is asked for and memory is granted, `clht_create` returns a handle of that many
-- buckets: it is ready, its status lock is free, no key is bound, and a get of a key that is not 0
-- misses.
pub clht_create-IsReady :
    (mem : Memory) (n : ℕ)
    → 0 < n
    → mem.has_struct n ≡ true
    → mem.has_table n ≡ true
    → (h : Clht) × (clht_create mem true n ≡ some h) × IsReady n h
unfolding clht_create
clht_create-IsReady mem n pos s t =
    let (ht, made, p) = hashtable_create-IsNew mem n pos s t in
    (
      record { ht = ht; resize_lock = lock_free; status_lock = lock_free; retired = [] },
      rw made,
      record {
        ready = record { valid = p.valid; free = refl };
        idle = refl;
        size = p.size;
        views = p.views;
        misses = λ q nz. rw (get-view ht q p.valid, p.views q nz);
      },
    )
