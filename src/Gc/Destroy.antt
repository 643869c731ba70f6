-- ===== src/Gc/Destroy.antt =====
-- The life of a chain of versions: it grows with each resize, and is freed whole.
use mathlib.Core.Path.{subst}
use mathlib.Core.List.{append-nil, append_assoc}
use clht.Prelude.{
  ℕ, suc, ◌+◌, ◌^◌, ◌≤◌, ◌<◌, ◌≡◌, refl, sym, ap, ltb, true, false, List, [], ◌∷◌, ◌++◌, Returns,
  ◌>>=◌, arith,
}
use clht.LbRes.Bucket.{lock_free}
use clht.LbRes.Table.{Hashtable, Memory, size_bins}
use clht.LbRes.Table.Invariant.{IsValid}
use clht.LbRes.Resize.{rebuild}
use clht.LbRes.Resize.Copy.{Plenty}
use clht.LbRes.Resize.Rebuild.{Rebuilt, rebuild-Rebuilt}
use clht.Gc.{
  struct, handle, allocator, Handle, new_handle, published, gc_free, release, collect_all, destroy,
}
use clht.Gc.Blocks.{table_blocks, Sized, blocks_of-table_blocks, times, times-append, times_struct}
use clht.Gc.Versions.{All}
use clht.Gc.Collect.{older, all_blocks, Ascends, EndsAt, IsChained, collect_cond-Collects}

-- A handle on a valid new table, whose version is 0, is in order.
new_handle-IsChained : (ht : Hashtable) → Sized ht → IsChained (new_handle ht)
new_handle-IsChained ht sized = record {
  ascends = (omega arith, tt);
  ends = refl;
  sized = (sized, tt);
}

Ascends-append :
    (n : ℕ) (ts : List Hashtable) (old new : Hashtable)
    → Ascends n ts
    → EndsAt old ts
    → old.version < new.version
    → Ascends n (ts ++ new ∷ [])
Ascends-append n [] old new a e h = absurd e
Ascends-append n (t ∷ []) old new a e h = (a.0, (rw e h, tt))
Ascends-append n (t ∷ u ∷ ts) old new a e h =
    (a.0, Ascends-append (suc t.version) (u ∷ ts) old new a.1 e h)

EndsAt-append : (ts : List Hashtable) (new : Hashtable) → EndsAt new (ts ++ new ∷ [])
EndsAt-append [] new = refl
EndsAt-append (t ∷ []) new = refl
EndsAt-append (t ∷ u ∷ ts) new = EndsAt-append (u ∷ ts) new

Sized-append :
    (ts : List Hashtable) (t : Hashtable) → All Sized ts → Sized t → All Sized (ts ++ t ∷ [])
Sized-append [] t h s = (s, tt)
Sized-append (u ∷ ts) t h s = (h.0, Sized-append ts t h.1 s)

-- What a resize publishes.
Rebuilt-IsChained :
    (h : Handle) (n : ℕ) (r : Hashtable × Hashtable)
    → IsChained h
    → Rebuilt h.ht n r
    → h.ht.version + 1 < 2 ^ 64
    → IsChained (published h r.1)
Rebuilt-IsChained h n r c p small =
    let next : r.1.version ≡ h.ht.version + 1 = omega (arith, p.version) in
    record {
      ascends = Ascends-append h.version_min h.chain h.ht r.1 c.ascends c.ends (omega arith);
      ends = EndsAt-append h.chain r.1;
      sized = Sized-append h.chain r.1 c.sized p.valid.sized;
    }

-- A resize keeps the versions of a handle in order: the rebuild of its current table, a valid one of
-- fewer than 2 ^ 31 buckets, into one of any positive size below 2 ^ 32 returns, where memory is
-- supplied, there are fewer than 2 ^ 32 bindings and the version is below 2 ^ 64 - 1, and once its
-- result is published, the versions of the chain still increase, each table has its array, and the
-- chain ends at the current table.
pub published-IsChained :
    (mem : Memory) (h : Handle) (n : ℕ)
    → Plenty mem
    → IsChained h
    → IsValid h.ht
    → 0 < n
    → h.ht.num_buckets < 2 ^ 31
    → n < 2 ^ 32
    → size_bins h.ht.table < 2 ^ 32
    → mem.has_struct n ≡ true
    → mem.has_table n ≡ true
    → h.ht.version + 1 < 2 ^ 64
    → Returns (rebuild mem h.ht n) (λ r. IsChained (published h r.1))
published-IsChained mem h n plenty c valid pos indexed few bound s t small =
    let (r, run, built) = rebuild-Rebuilt h.ht valid mem plenty n pos indexed few bound s t in
    (r, run, Rebuilt-IsChained h n r c built small)

Ascends-le :
    (n : ℕ) (ts : List Hashtable) (ht : Hashtable) → Ascends n ts → EndsAt ht ts → n ≤ ht.version
Ascends-le n [] ht a e = absurd e
Ascends-le n (t ∷ []) ht a e = rw (← e) a.0
Ascends-le n (t ∷ u ∷ ts) ht a e = omega (arith, a.0, Ascends-le (suc t.version) (u ∷ ts) ht a.1 e)

Sized-end : (ts : List Hashtable) (ht : Hashtable) → EndsAt ht ts → All Sized ts → Sized ht
Sized-end [] ht e s = absurd e
Sized-end (t ∷ []) ht e s = rw (← e) s.0
Sized-end (t ∷ u ∷ ts) ht e s = Sized-end (u ∷ ts) ht e s.1

all_blocks-older :
    (n : ℕ) (ts : List Hashtable) (ht : Hashtable)
    → Ascends n ts
    → EndsAt ht ts
    → all_blocks (older ht.version ts) ++ table_blocks ht ≡ all_blocks ts
all_blocks-older n [] ht a e = absurd e
all_blocks-older n (t ∷ []) ht a e =
    let same : ltb t.version ht.version ≡ false = rw e (ground arith) in
    rw (same, e) (sym (append-nil (table_blocks ht)))
all_blocks-older n (t ∷ u ∷ ts) ht a e =
    let below = Ascends-le (suc t.version) (u ∷ ts) ht a.1 e in
    let before : ltb t.version ht.version ≡ true = ground arith in
    let rest = all_blocks-older (suc t.version) (u ∷ ts) ht a.1 e in rw (before, append_assoc, rest)

-- `clht_gc_destroy` returns, on a handle whose versions are in order and whose `gc_lock` is free: it
-- frees every block of every table of the chain, of each table once and oldest first, then the handle
-- and the allocator, and nothing else; it releases nothing.
pub destroy_lem :
    (h : Handle)
    → IsChained h
    → h.gc_lock ≡ lock_free
    → Returns (destroy h) (λ r.
      (r.freed ≡ (h.freed ++ all_blocks h.chain) ++ handle ∷ allocator ∷ [])
      × (r.released ≡ h.released))
unfolding destroy collect_all gc_free
destroy_lem h c free =
    let (r, run, p) = collect_cond-Collects h false c free in
    let sized : Sized r.1.ht = rw p.current (Sized-end h.chain h.ht c.ends c.sized) in
    let blocks : r.1.freed ++ table_blocks r.1.ht ≡ h.freed ++ all_blocks h.chain =
      rw (p.freed, p.current, append_assoc)
        (ap (λ bs. h.freed ++ bs) (all_blocks-older h.version_min h.chain h.ht c.ascends c.ends)) in
    rw (run, blocks_of-table_blocks r.1.ht sized)
      (_, refl, (ap (λ bs. bs ++ handle ∷ allocator ∷ []) blocks, p.released))

-- Where CLHT_DO_GC is 0, a resize gives the old table to `clht_gc_release` and leaves it in the chain:
-- on a handle in order, whose `gc_lock` is free, a `clht_gc_destroy` after the release of the oldest
-- table gives the struct of that table, which was released, to `free` as well.
pub release-destroy :
    (h : Handle) (t : Hashtable) (ts : List Hashtable)
    → IsChained h
    → h.gc_lock ≡ lock_free
    → h.chain ≡ t ∷ ts
    → Returns
        (release h t >>= destroy)
        (λ r. (0 < times (struct t.version) r.freed) × (0 < times (struct t.version) r.released))
unfolding release
release-destroy h t ts c free oldest =
    let sized : Sized t = (subst (All Sized) oldest c.sized).0 in
    let g = record h { released = h.released ++ table_blocks t } in
    let (r, run, p) =
      destroy_lem g (record { ascends = c.ascends; ends = c.ends; sized = c.sized }) free in
    rw (blocks_of-table_blocks t sized, run)
      (
        r,
        refl,
        (
          rw (p.0, times-append, times-append, oldest, times-append)
              (omega (arith, times_struct t)),
          rw (p.1, times-append) (omega (arith, times_struct t)),
        ),
      )
