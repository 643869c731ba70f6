-- ===== src/LbRes/Resize/Copy.antt =====
-- `clht_put_seq` and the loops of `bucket_cpy`: what the new table binds after them.
use mathlib.Core.Path.{fun_ext}
use clht.Prelude.{
  ℕ, ◌+◌, ◌%◌, ◌^◌, ◌<◌, ◌≤◌, ◌≡◌, ◌≢◌, refl, ◌∙◌, ap, ◌==◌, none, some, List, [], ◌∷◌, ◌++◌, set,
  ◌>>=◌, >>=-assoc, Returns, Bool-cases, Option-cases, inl, inr, arith, ==→ne,
}
use clht.Slots.{Slot, find, count}
use clht.Slots.Laws.{
  find-eq-none, count-eq-zero, or_else, count-set, find-set, find-append, count-append,
}
use clht.LbRes.Bucket.{
  Bucket, Chain, last, link, walk, lock_of, lock_free, bucket_create, empty_in_chain, store,
  append_bucket, fill_first,
}
use clht.LbRes.Bucket.Edit.{walk-store, walk-append_bucket, lock_of-store, lock_of-append_bucket}
use clht.LbRes.Bucket.Search.{empty_in_chain-some}
use clht.LbRes.Table.{Hashtable, Memory, hash_of, bucket_create_stats, size_slots}
use clht.LbRes.Table.Counting.{size_slots-append, size_chain-walk, size_slots-set}
use clht.LbRes.Table.Invariant.{chain_at, reads, IsValid, view, at-hash_of}
use clht.LbRes.Table.Writes.{Rebinds}
use clht.LbRes.Table.Insert.{Rebound, write_back-Rebound}
use clht.LbRes.Resize.{seq_found, put_seq, copy_slots, copy_chain}

-- Memory that never runs out.
abbrev pub Plenty : Memory → Type 0
Plenty mem = (n : ℕ) → mem.bucket n ≢ none

-- `r` is a table of the size of `new` that binds what `new` binds and what `xs` bind.
pub record Copied (new : Hashtable) (xs : List Slot) (r : Hashtable) : Type 0 where
  pub size : r.num_buckets ≡ new.num_buckets
  pub version : r.version ≡ new.version
  pub valid : IsValid r
  pub views : (q : ℕ) → q ≢ 0 → view r q ≡ or_else (view new q) (find q xs)

-- The slots have distinct keys, which the new table does not bind.
pub record Apart (new : Hashtable) (xs : List Slot) : Type 0 where
  pub once : (q : ℕ) → q ≢ 0 → count q xs ≤ 1
  pub unbound : (q : ℕ) → q ≢ 0 → 0 < count q xs → view new q ≡ none

module _ (mem : Memory) where
  pub copy_slots-append :
      (xs ys : List Slot) (new : Hashtable)
      → copy_slots mem (xs ++ ys) new ≡ copy_slots mem xs new >>= copy_slots mem ys
  unfolding copy_slots
  copy_slots-append [] ys new = refl
  copy_slots-append (s ∷ xs) ys new = simp (>>=-assoc, copy_slots-append xs ys)

  -- The nested loops of `bucket_cpy` are one loop over the walk.
  pub copy_chain-walk :
      (c : Chain) (new : Hashtable) → copy_chain mem c new ≡ copy_slots mem (walk c) new
  unfolding copy_chain walk
  copy_chain-walk (last b) new = refl
  copy_chain-walk (link b c) new =
      rw (copy_slots-append b.slots (walk c) new, ← fun_ext (copy_chain-walk c))

module _ (mem : Memory) (plenty : Plenty mem) where
  module _ (ht : Hashtable) (k v : ℕ) (valid : IsValid ht) (nonzero : k ≢ 0)
      (unbound : view ht k ≡ none) where
    abbrev old : Chain
    old = chain_at ht.table (hash_of ht k)

    absent : count k (walk old) ≡ 0
    unfolding view reads hash_of
    absent = count-eq-zero k (walk old) unbound

    free : lock_of old ≡ lock_free
    free = valid.placed.unlocked (hash_of ht k)

    seq_found-some :
        (p : ℕ) → empty_in_chain 0 old ≡ some p → Rebinds k (some v) old (store old p (k, v))
    seq_found-some p e =
        let at_p = empty_in_chain-some old p e in
        let written : walk (store old p (k, v)) ≡ set (walk old) at_p.place (k, v) =
          rw (walk-store, at_p.at_place) (ap (λ i. set (walk old) i (k, v)) (omega arith)) in
        record {
          lock = lock_of-store old p (k, v) ∙ free;
          binds = λ q nz.
              rw written (find-set q (walk old) at_p.place at_p.old k v nz at_p.empty absent);
          few = λ q nz.
              rw written (
                ground
                  (arith, absent, count-set q (walk old) at_p.place 0 at_p.old k v at_p.empty));
          used =
              rw (size_chain-walk, size_chain-walk, written, find-eq-none k (walk old) absent)
                (ground (arith, size_slots-set (walk old) at_p.place 0 at_p.old k v at_p.empty));
        }

    abbrev fresh : (ℕ → ℕ) → Bucket
    fresh words = record {
      lock = lock_free;
      slots = (0, words 0) ∷ (0, words 1) ∷ (0, words 2) ∷ [];
    }

    seq_found-none :
        (words : ℕ → ℕ)
        → Rebinds k (some v) old (append_bucket old (fill_first (fresh words) (k, v)))
    unfolding find count fill_first size_slots
    seq_found-none words = record {
      lock = lock_of-append_bucket old _ ∙ free;
      binds = λ q nz.
          rw (walk-append_bucket, find-append) (ground (arith, find-eq-none k (walk old), absent));
      few = λ q nz. rw (walk-append_bucket, count-append) (ground (arith, absent));
      used =
          rw
            (
              size_chain-walk,
              size_chain-walk,
              walk-append_bucket,
              size_slots-append,
              find-eq-none k (walk old) absent,
            )
            (ground arith);
    }

    -- A key that the table does not bind is bound to the value.
    pub put_seq-Rebound : Returns (put_seq mem ht k v (hash_of ht k)) (Rebound ht k (some v))
    unfolding put_seq seq_found bucket_create_stats bucket_create
    put_seq-Rebound = rw (at-hash_of ht k valid) (elim (Option-cases (empty_in_chain 0 old)) [
      | inr (p, e) ↦ rw e (
        _,
        refl,
        write_back-Rebound ht ht.num_expands k (some v) _ valid nonzero (seq_found-some p e),
      )
      | inl e ↦ elim (Option-cases (mem.bucket ht.num_expands)) [
        | inl gone ↦ absurd (plenty ht.num_expands gone)
        | inr (words, got) ↦
            rw (e, got)
              (
                record ht {
                  table =
                      set ht.table (hash_of ht k)
                        (append_bucket old (fill_first (fresh words) (k, v)));
                  num_expands = (ht.num_expands + 1) % 2 ^ 32;
                },
                refl,
                write_back-Rebound ht _ k (some v) _ valid nonzero (seq_found-none words),
              )
      ]
    ])

  pub Apart-tail : {new : Hashtable} (s : Slot) (xs : List Slot) → Apart new (s ∷ xs) → Apart new xs
  unfolding count
  Apart-tail s xs apart = record {
    once = λ q nz. omega (arith, apart.once q nz);
    unbound = λ q nz h. apart.unbound q nz (omega arith);
  }

  pub Apart-Rebound :
      {new r : Hashtable} (k v : ℕ) (xs : List Slot)
      → k ≢ 0
      → Apart new ((k, v) ∷ xs)
      → Rebound new k (some v) r
      → Apart r xs
  unfolding count
  Apart-Rebound k v xs nonzero apart b = record {
    once = λ q nz. omega (arith, apart.once q nz);
    unbound = λ q nz h.
        ground (arith, b.views q nz, apart.once k nonzero, apart.once q nz, apart.unbound q nz);
  }

  -- The slots of a chain are copied: the result binds what either table bound.
  pub copy_slots-Copied :
      (xs : List Slot) (new : Hashtable)
      → IsValid new
      → Apart new xs
      → Returns (copy_slots mem xs new) (Copied new xs)
  unfolding copy_slots find count
  copy_slots-Copied [] new valid apart = (
    new,
    refl,
    record { size = refl; version = refl; valid = valid; views = λ q nz. ground arith },
  )
  copy_slots-Copied ((k, v) ∷ xs) new valid apart = elim (Bool-cases (k == 0)) [
    | inl e ↦
        let (r, run, t) = copy_slots-Copied xs new valid (Apart-tail (k, v) xs apart) in
        (
          r,
          rw e run,
          record {
            size = t.size;
            version = t.version;
            valid = t.valid;
            views = λ q nz. ground (arith, t.views q nz);
          },
        )
    | inr e ↦
        let nonzero : k ≢ 0 = ==→ne k 0 e in
        let unbound : view new k ≡ none = apart.unbound k nonzero (ground arith) in
        let (new', put, b) = put_seq-Rebound new k v valid nonzero unbound in
        let (r, run, t) =
          copy_slots-Copied xs new' b.valid (Apart-Rebound k v xs nonzero apart b) in
        (
          r,
          rw (e, put) run,
          record {
            size = t.size ∙ b.size;
            version = t.version ∙ b.version;
            valid = t.valid;
            views = λ q nz. ground (arith, t.views q nz, b.views q nz, apart.unbound q nz, unbound);
          },
        )
  ]
