-- ===== src/Tests/Gc.antt =====
-- The versions of a table: a handle with three of them, of which a thread uses the second.
use clht.Prelude.{
  ℕ, ◌+◌, ◌<◌, ◌≡◌, ◌⊎◌, ltb, if◌then◌else◌, refl, ◌≤◌, true, some, List, [], ◌∷◌, ◌++◌, Outcome,
  done, ◌>>=◌, Returns, arith,
}
use clht.LbRes.Bucket.{last, link, hops, Bucket}
use clht.LbRes.Table.{Hashtable, Memory, new_table, hashtable_create}
use clht.LbRes.Table.Create.{new_table-IsNew, size_bins-cleared}
use clht.LbRes.Table.Invariant.{chain_at}
use clht.LbRes.Resize.{rebuild}
use clht.Gc.{
  Block, overflow, buckets, struct, handle, allocator, Handle, new_handle, published, gc_free,
  release, collect_cond, destroy, min_version_used,
}
use clht.Gc.Blocks.{times, gc_free-once}
use clht.Gc.Collect.{IsChained, Collects, limit, all_blocks, collect_cond-Collects}
use clht.Gc.Versions.{min_version_used_lem, All, Any}
use clht.Gc.Destroy.{published-IsChained, destroy_lem, release-destroy}

abbrev bucket : Bucket
bucket = record { lock = 0; slots = (0, 0) ∷ (0, 0) ∷ (0, 0) ∷ [] }

-- a table of one bucket with an overflow bucket
abbrev version : ℕ → Hashtable
version n = record {
  num_buckets = 1;
  table = link bucket (last bucket) ∷ [];
  hash = 0;
  version = n;
  num_expands = 1;
  num_expands_threshold = 1;
}

abbrev three : Handle
three = record {
  ht = version 2;
  chain = version 0 ∷ version 1 ∷ version 2 ∷ [];
  version_list = record { version = 1; id = 7 } ∷ [];
  version_min = 0;
  gc_lock = 0;
  freed = [];
  released = [];
}

three-IsChained : IsChained three
three-IsChained = record {
  ascends = (omega arith, (omega arith, (omega arith, tt)));
  ends = refl;
  sized = (refl, (refl, (refl, tt)));
}

abbrev collection : Outcome (ℕ × List Block)
collection = do (n, h) ← collect_cond three true; done (n, h.freed)

collected_once : collection ≡ done (1, overflow 0 0 0 ∷ buckets 0 ∷ struct 0 ∷ [])
unfolding collect_cond
collected_once = refl

min_version_used_lem_example :
    (min_version_used three ≤ 2)
    × All (λ t. min_version_used three ≤ t.version) three.version_list
    × ((min_version_used three ≡ 2)
        ⊎ Any (λ t. t.version ≡ min_version_used three) three.version_list)
min_version_used_lem_example = min_version_used_lem three

collect_cond-Collects_example :
    Returns (collect_cond three true) (Collects three (limit three true))
collect_cond-Collects_example = collect_cond-Collects three true three-IsChained refl

gc_free-once_example : Returns (gc_free three (version 0)) (λ r.
    (times (overflow 0 0 0) r.freed
      ≡ times (overflow 0 0 0) three.freed
        + (if ltb 0 (hops (chain_at (version 0).table 0)) then 1 else 0))
    × (times (buckets 0) r.freed ≡ times (buckets 0) three.freed + 1)
    × (times (struct 0) r.freed ≡ times (struct 0) three.freed + 1))
gc_free-once_example = gc_free-once three (version 0) 0 0 refl

destroy_lem_example : Returns (destroy three) (λ r.
    (r.freed ≡ (three.freed ++ all_blocks three.chain) ++ handle ∷ allocator ∷ [])
    × (r.released ≡ three.released))
destroy_lem_example = destroy_lem three three-IsChained refl

release-destroy_example :
    Returns
      (release three (version 0) >>= destroy)
      (λ r. (0 < times (struct 0) r.freed) × (0 < times (struct 0) r.released))
release-destroy_example =
    release-destroy three (version 0) (version 1 ∷ version 2 ∷ []) three-IsChained refl refl

abbrev memory : Memory
memory = record { bucket = λ n. some (λ j. 9); has_struct = λ n. true; has_table = λ n. true }

one_version : IsChained (new_handle (new_table 2))
unfolding hashtable_create
one_version = record { ascends = (omega arith, tt); ends = refl; sized = (refl, tt) }

published-IsChained_example :
    Returns
      (rebuild memory (new_table 2) 4)
      (λ r. IsChained (published (new_handle (new_table 2)) r.1))
unfolding hashtable_create
published-IsChained_example =
    published-IsChained memory (new_handle (new_table 2)) 4 (λ n e. cc e) one_version
      (new_table-IsNew 2 (omega arith)).valid (omega arith) (omega arith) (omega arith)
      (omega (arith, size_bins-cleared 2)) refl refl (omega arith)
