-- ===== src/LbRes/Table/Size.antt =====
-- `clht_size`.
use clht.Prelude.{◌≡◌, refl, List, [], ◌∷◌, length, done}
use clht.LbRes.Bucket.{Chain}
use clht.LbRes.Table.{Hashtable, size_bins, size_from, size}
use clht.LbRes.Table.Invariant.{IsValid}

size_from-size_bins : (cs : List Chain) → size_from (length cs) cs ≡ done (size_bins cs)
unfolding size_from size_bins
size_from-size_bins [] = refl
size_from-size_bins (c ∷ cs) = rw (size_from-size_bins cs)

-- The loop stays inside the table and adds up its chains.
pub size-size_bins : (ht : Hashtable) → IsValid ht → size ht ≡ done (size_bins ht.table)
unfolding size
size-size_bins ht valid = rw (← valid.sized) (size_from-size_bins ht.table)
