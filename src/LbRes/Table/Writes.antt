-- ===== src/LbRes/Table/Writes.antt =====
-- One bucket of a table is replaced by one that binds, or unbinds, a key that belongs there.
use clht.Prelude.{
  ℕ, ◌+◌, ◌<◌, ◌≤◌, ◌≡◌, ◌≢◌, ◌==◌, if◌then◌else◌, bit_and, Option, List, length, set, get_or-set,
  arith,
}
use clht.Slots.{find, count}
use clht.LbRes.Bucket.{Chain, walk, lock_of, lock_free}
use clht.LbRes.Table.Invariant.{nowhere, chain_at, IsPlaced, reads}
use clht.LbRes.Table.Counting.{size_bins-set, bound}
use clht.LbRes.Table.{size_chain, size_bins}

-- the map `f` with `k` bound to `o`
abbrev pub update : (ℕ → Option ℕ) → ℕ → Option ℕ → ℕ → Option ℕ
update f k o q = if k == q then o else f q

-- `new` reads as `old` does but at `k`, and its lock is free
pub record Rebinds (k : ℕ) (o : Option ℕ) (old new : Chain) : Type 0 where
  pub lock : lock_of new ≡ lock_free
  pub binds : (q : ℕ) → q ≢ 0 → find q (walk new) ≡ update (λ r. find r (walk old)) k o q
  pub few : (q : ℕ) → q ≢ 0 → count q (walk new) ≤ (if k == q then 1 else count q (walk old))
  pub used : size_chain new + bound (find k (walk old)) ≡ size_chain old + bound o

module _ {mask : ℕ} {table : List Chain} {k bin : ℕ} {o : Option ℕ} {new : Chain}
    (placed : IsPlaced mask table) (nonzero : k ≢ 0) (here : bit_and k mask ≡ bin)
    (inside : bin < length table) (w : Rebinds k o (chain_at table bin) new) where
  pub set-IsPlaced : IsPlaced mask (set table bin new)
  set-IsPlaced = record {
    once = λ q i nz.
        rw (get_or-set table bin i new _ inside)
          (ground (arith, w.few q nz, placed.once q i nz, placed.once q bin nz));
    home = λ q i nz away.
        rw (get_or-set table bin i new _ inside)
          (ground (arith, w.few q nz, placed.home q i nz away, here));
    unlocked =
        λ i. rw (get_or-set table bin i new _ inside) (ground (arith, w.lock, placed.unlocked i));
  }

  pub set-used :
      size_bins (set table bin new) + bound (reads mask table k) ≡ size_bins table + bound o
  unfolding reads
  set-used = rw here (omega (arith, size_bins-set table bin new nowhere inside, w.used))

  pub set-reads :
      (q : ℕ) → q ≢ 0 → reads mask (set table bin new) q ≡ update (reads mask table) k o q
  unfolding reads
  set-reads q nz =
      rw (get_or-set table bin (bit_and q mask) new _ inside) (ground (arith, w.binds q nz, here))
