-- ===== src/NoNext/Delete.antt =====
-- `clht_remove` and `clht_get` of src/clht_lb_res_no_next.c.
use clht.Prelude.{ℕ, ◌≡◌, refl, ap, none, some, done, Bool-cases, Option-cases, inl, inr, arith}
use clht.LbRes.Bucket.{
  Chain, last, link, get_chain, get_slots, exists_slots, bucket_exists, remove_slots, remove_chain,
}
use clht.LbRes.Table as Table
use clht.LbRes.Table.{Hashtable, hash_of}
use clht.LbRes.Table.Invariant.{chain_at, IsValid, hash_of-lt, at-hash_of}
use clht.LbRes.Table.Rebinding.{lock_acq, lock_acq_chk_resize-free}
use clht.NoNext.{own, get, remove, remove_found}
use clht.NoNext.Single.{IsSingle, Singles, with_lock-IsSingle}

exists_slots-own : (k : ℕ) (c : Chain) → IsSingle c → exists_slots k (own c) ≡ bucket_exists k c
unfolding bucket_exists
exists_slots-own k (last b) s = ground arith
exists_slots-own k (link b c) s = absurd s

get_slots-own :
    (k : ℕ) (c : Chain)
    → IsSingle c
    → (elim (get_slots k (own c)) as (λ x. ℕ) [ some val ↦ val | none ↦ 0 ]) ≡ get_chain k c
unfolding get_chain
get_slots-own k (last b) s = refl
get_slots-own k (link b c) s = absurd s

remove_found-own :
    (ht : Hashtable) (bin k : ℕ) (c : Chain)
    → IsSingle c
    → remove_found ht bin c (remove_slots k (own c))
      ≡ Table.remove_found ht bin c (remove_chain k c)
unfolding remove_found Table.remove_found remove_chain
remove_found-own ht bin k (last b) s = elim (Option-cases (remove_slots k b.slots)) [
  | inl e ↦ ground arith
  | inr (r, e) ↦ ground arith
]
remove_found-own ht bin k (link b c) s = absurd s

module _ (ht : Hashtable) (k : ℕ) (valid : IsValid ht) (singles : Singles ht.table) where
  abbrev old : Chain
  old = chain_at ht.table (hash_of ht k)

  alone : IsSingle old
  alone = singles (hash_of ht k) (omega (arith, hash_of-lt ht k valid, valid.sized))

  -- A get in a valid table without links reads what one in `LbRes` does.
  pub get-as_get : get ht k ≡ Table.get ht k
  unfolding get Table.get
  get-as_get = rw (at-hash_of ht k valid) (ap done (get_slots-own k old alone))

  -- A remove from a valid table without links ends as one in `clht_lb_res` does, on every branch: it
  -- returns the same and leaves the same table.
  pub remove-as_remove : remove ht k ≡ Table.remove ht k
  unfolding remove Table.remove
  remove-as_remove =
      let found = exists_slots-own k old alone in
      elim (Bool-cases (bucket_exists k old)) [
        | inr e ↦ rw (at-hash_of ht k valid, found, e)
        | inl e ↦
            rw
              (
                at-hash_of ht k valid,
                found,
                e,
                lock_acq_chk_resize-free old (valid.placed.unlocked (hash_of ht k)),
              )
              (ap done (
                remove_found-own ht (hash_of ht k) k (lock_acq old)
                  (with_lock-IsSingle 1 old alone)))
      ]
