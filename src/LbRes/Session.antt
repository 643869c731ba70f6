-- ===== src/LbRes/Session.antt =====
-- What a caller sees: a call followed by another one.
use clht.Prelude.{
  ℕ, suc, ◌+◌, ◌^◌, ◌<◌, ◌≡◌, ◌≢◌, sym, ◌∙◌, ◌==◌, if◌then◌else◌, done, done_injective, ◌>>=◌,
  Bool-cases, inl, inr, arith,
}
use clht.LbRes.Bucket.{is_none}
use clht.LbRes.Bucket.Walk.{value_or_zero}
use clht.LbRes.Table.{Hashtable, Memory, get, remove, size, size_bins}
use clht.LbRes.Table.Invariant.{IsValid, view}
use clht.LbRes.Table.Insert.{kept_or}
use clht.LbRes.Table.Delete.{get-view, remove-Removed}
use clht.LbRes.Table.Size.{size-size_bins}
use clht.LbRes.Resize.{Clht, put}
use clht.LbRes.Resize.Status.{Supply, Ready}
use clht.LbRes.Resize.Insert.{put-Inserts}

-- A get after a put returns, for keys that are not 0, with the memory supplied, on a ready handle
-- whose table has not 7 buckets, but fewer than 2 ^ 31 of them, and fewer than 2 ^ 30 - 1 bindings,
-- and fewer than 2 ^ f - 1 for f + 1 nested calls of `ht_status`: at the key of the put, the value
-- that was bound there, else the new one; at other keys what was there before, also where the put
-- resized the table.
pub get-put :
    (mem : Memory)
    → Supply mem
    → (f : ℕ) (h : Clht) (k v q : ℕ) → Ready h
    → k ≢ 0
    → q ≢ 0
    → h.ht.num_buckets ≢ 7
    → h.ht.num_buckets < 2 ^ 31
    → suc (size_bins h.ht.table) < 2 ^ 30
    → suc (size_bins h.ht.table) < 2 ^ f
    → put (suc f) mem h k v >>= (λ r. get r.1.ht q)
      ≡ done (value_or_zero (if k == q then kept_or (view h.ht k) v else view h.ht q))
get-put mem supply f h k v q ready nonzero nz odd few small fuel =
    let (r, run, p) = put-Inserts mem supply f h k v ready nonzero odd few small fuel in
    rw (run, get-view r.1.ht q p.ready.valid, p.views q nz)

-- A get after a remove on a valid table, for keys that are not 0: 0 at the key that was removed,
-- and other keys read as before.
pub get-remove :
    (ht : Hashtable) (k q : ℕ)
    → IsValid ht
    → k ≢ 0
    → q ≢ 0
    → remove ht k >>= (λ r. get r.1 q) ≡ done (if k == q then 0 else value_or_zero (view ht q))
get-remove ht k q valid nonzero nz =
    let (r, run, p) = remove-Removed ht k valid nonzero in
    rw (run, get-view r.1 q p.valid, p.views q nz)
      (elim (Bool-cases (k == q)) [ inl e ↦ rw e | inr e ↦ rw e ])

-- The size after a put of a key that is not 0 is one more where the key was unbound, and the same
-- where it was bound, with the memory supplied, on a ready handle whose table has not 7 buckets,
-- but fewer than 2 ^ 31 of them, and fewer than 2 ^ 30 - 1 bindings, and fewer than 2 ^ f - 1 for f
-- + 1 nested calls of `ht_status`.
pub size-put :
    (mem : Memory)
    → Supply mem
    → (f : ℕ) (h : Clht) (k v n : ℕ) → Ready h
    → k ≢ 0
    → h.ht.num_buckets ≢ 7
    → h.ht.num_buckets < 2 ^ 31
    → suc n < 2 ^ 30
    → suc n < 2 ^ f
    → size h.ht ≡ done n
    → put (suc f) mem h k v >>= (λ r. size r.1.ht)
      ≡ done (n + (if is_none (view h.ht k) then 1 else 0))
size-put mem supply f h k v n ready nonzero odd few small fuel counted =
    let same : size_bins h.ht.table ≡ n =
      done_injective (sym (size-size_bins h.ht ready.valid) ∙ counted) in
    let (r, run, p) =
      put-Inserts mem supply f h k v ready nonzero odd few (omega arith) (rw same fuel) in
    rw (run, size-size_bins r.1.ht p.ready.valid, p.used, p.returned, same)
