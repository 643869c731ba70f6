-- ===== src/LbRes/Table/Delete.antt =====
-- `clht_get` and `clht_remove` on one table.
use clht.Prelude.{
  ℕ, ◌+◌, ◌≤◌, ◌≡◌, ◌≢◌, refl, ◌==◌, Option, none, some, get_elem?, done, Returns, Bool-cases, inl,
  inr, arith, ==→eq,
}
use clht.Slots.{find, count}
use clht.Slots.Laws.{find-eq-none, find_only}
use clht.LbRes.Bucket.{Chain, walk, bucket_exists, remove_chain}
use clht.LbRes.Bucket.Walk.{bucket_exists-count, get_chain-find, value_or_zero}
use clht.LbRes.Bucket.Edit.{walk-with_lock}
use clht.LbRes.Bucket.Remove.{RemovesChain, remove_chain-Removes}
use clht.LbRes.Table.{Hashtable, hash_of, get, remove, remove_found, size_bins}
use clht.LbRes.Table.Counting.{bound}
use clht.LbRes.Table.Invariant.{chain_at, reads, IsValid, view, at-hash_of}
use clht.LbRes.Table.Writes.{update}
use clht.LbRes.Table.Rebinding.{lock_acq, lock_acq_chk_resize-free, release-Rebinds, remove-Rebinds}
use clht.LbRes.Table.Insert.{write_back-Rebound}

view-find : (ht : Hashtable) (k : ℕ) → view ht k ≡ find k (walk (chain_at ht.table (hash_of ht k)))
unfolding view reads hash_of
view-find ht k = refl

-- A get on a valid table returns the value that the key is bound to, and 0 where it is not bound.
pub get-view : (ht : Hashtable) (k : ℕ) → IsValid ht → get ht k ≡ done (value_or_zero (view ht k))
unfolding get
get-view ht k valid = rw (at-hash_of ht k valid, get_chain-find, view-find)

-- A correct end of `remove k` on `ht`.
pub record Removed (ht : Hashtable) (k : ℕ) (r : ℕ × Hashtable) : Type 0 where
  pub returned : r.0 ≡ value_or_zero (view ht k)
  pub size : r.1.num_buckets ≡ ht.num_buckets
  pub valid : IsValid r.1
  pub used : size_bins r.1.table + bound (view ht k) ≡ size_bins ht.table
  pub views : (q : ℕ) → q ≢ 0 → view r.1 q ≡ update (view ht) k none q

module _ (ht : Hashtable) (k : ℕ) (valid : IsValid ht) (nonzero : k ≢ 0) where
  abbrev old : Chain
  old = chain_at ht.table (hash_of ht k)

  few : (q : ℕ) → q ≢ 0 → count q (walk old) ≤ 1
  few q nz = valid.placed.once q (hash_of ht k) nz

  unbound_stays : view ht k ≡ none → (q : ℕ) → view ht q ≡ update (view ht) k none q
  unbound_stays gone q = elim (Bool-cases (k == q)) [
    | inl e ↦ rw (e, ← ==→eq k q e) gone
    | inr e ↦ rw e
  ]

  remove_found-Removed :
      (t : Option (ℕ × Chain))
      → RemovesChain k (lock_acq old) t
      → Removed ht k (remove_found ht (hash_of ht k) (lock_acq old) t)
  unfolding remove_found
  remove_found-Removed none h =
      let absent : count k (walk old) ≡ 0 = rw walk-with_lock at h in
      let gone : find k (walk old) ≡ none = find-eq-none k (walk old) absent in
      let b =
        write_back-Rebound ht ht.num_expands k none _ valid nonzero
          (rw gone at (release-Rebinds k old few)) in
      record {
        returned = rw (view-find, gone);
        size = refl;
        valid = b.valid;
        used = omega (arith, b.used);
        views = b.views;
      }
  remove_found-Removed (some r) h =
      let had : get_elem? (walk old) h.0.place ≡ some (k, r.0) = rw walk-with_lock at h.0.had in
      let b =
        write_back-Rebound ht ht.num_expands k none _ valid nonzero
          (remove-Rebinds k r.0 old r.1 nonzero few h.0) in
      record {
        returned = rw (view-find, find_only (walk old) h.0.place k r.0 had (few k nonzero));
        size = refl;
        valid = b.valid;
        used = omega (arith, b.used);
        views = b.views;
      }

  -- A remove of a key that is not 0 from a valid table returns, on every branch: it returns what
  -- the key was bound to, or 0, and unbinds it, the size drops by one where it was bound, and the
  -- other keys are left alone in a table that is valid again.
  pub remove-Removed : Returns (remove ht k) (Removed ht k)
  unfolding remove
  remove-Removed = rw (at-hash_of ht k valid) (elim (Bool-cases (bucket_exists k old)) [
    | inr e ↦
        let gone : view ht k ≡ none =
          rw view-find (find-eq-none k (walk old) (ground (arith, bucket_exists-count k old))) in
        rw e (
          (0, ht),
          refl,
          record {
            returned = rw gone;
            size = refl;
            valid = valid;
            used = rw gone (omega arith);
            views = λ q nz. unbound_stays gone q;
          },
        )
    | inl e ↦
        rw (e, lock_acq_chk_resize-free old (valid.placed.unlocked (hash_of ht k)))
          (
            _,
            refl,
            remove_found-Removed (remove_chain k (lock_acq old))
                (remove_chain-Removes k (lock_acq old)),
          )
  ])
