-- ===== src/LbRes/Resize/Seven.antt =====
-- A table of seven buckets with one binding: `ht_status` halves it to no bucket at all.
use clht.Prelude.{ℕ, suc, ◌≡◌, refl, Bool, true, false, fault}
use clht.LbRes.Bucket.{lock_free}
use clht.LbRes.Table.{Memory, hashtable_create, size_bins}
use clht.LbRes.Table.Size.{size-size_bins}
use clht.LbRes.Resize.{Clht, rebuild, expands_max, decide, shrink, act, status}
use clht.LbRes.Resize.Status.{Ready}

decide-shrink : (e : ℕ) (inc : Bool) → decide 7 1 e inc ≡ shrink
unfolding decide
decide-shrink e inc = refl

shrink-fault :
    (mem : Memory) (f : ℕ) (h : Clht)
    → h.resize_lock ≡ lock_free
    → h.ht.num_buckets ≡ 7
    → act mem (λ g. status f mem g true false) h shrink ≡ fault
unfolding act rebuild hashtable_create
shrink-fault mem f h free seven = rw (free, seven)

-- On a valid table of seven buckets with one binding, with both locks free, `ht_status` dereferences
-- NULL, in every memory: it resizes the table to 7 / 8 buckets, and no table of that size is made.
pub status-fault :
    (mem : Memory) (f : ℕ) (h : Clht) (inc : Bool)
    → Ready h
    → h.status_lock ≡ lock_free
    → h.ht.num_buckets ≡ 7
    → size_bins h.ht.table ≡ 1
    → status (suc f) mem h inc false ≡ fault
unfolding status
status-fault mem f h inc ready unlocked seven one =
    let choice : decide h.ht.num_buckets (size_bins h.ht.table) (expands_max h.ht.table) inc
        ≡ shrink =
      rw (seven, one) (decide-shrink (expands_max h.ht.table) inc) in
    rw (
      unlocked,
      size-size_bins h.ht ready.valid,
      choice,
      shrink-fault mem f (record h { status_lock = 0xff }) ready.free seven,
    )
