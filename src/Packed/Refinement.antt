-- ===== src/Packed/Refinement.antt =====
-- What the calls of src/clht_lb_packed.c do to the map that a table stands for.
use mathlib.Core.Path.{subst}
use clht.Prelude.{
  ℕ, ◌+◌, ◌≤◌, ◌≡◌, ◌≢◌, refl, sym, ap, ◌∙◌, ◌==◌, if◌then◌else◌, Bool, true, false, Option, none,
  some, [], ◌∷◌, ◌++◌, done, Returns, arith, Bool-cases, inl, inr, ==→eq,
}
use clht.Slots.{hit, find, count}
use clht.Slots.Laws.{find-append, count-append, find-eq-none, count-eq-zero}
use clht.Slots.Weights.{weight, share, find-lookup_of, weight-eq-zero}
use clht.LbRes.Bucket.{is_none}
use clht.LbRes.Bucket.Walk.{value_or_zero}
use clht.LbRes.Table.Writes.{update}
use clht.LbRes.Table.Insert.{kept_or}
use clht.Packed.Bucket.{Chain, with_lock, bucket_exists}
use clht.Packed.Bucket.Entries.{entries, IsPacked, get_chain-find, bucket_exists-count}
use clht.Packed.Bucket.Put.{put_chain-Appends}
use clht.Packed.Bucket.Remove.{Drops}
use clht.Packed.Bucket.Search.{Removal, absent, dropped, remove_chain-Removal}
use clht.Packed.{Hashtable, hash_of, get, lock_acq, put, remove, write_back}
use clht.Packed.Invariant.{
  chain_at, IsValid, view, at-hash_of, Rebinds, write_back-IsValid, view-write_back,
  entries-with_lock, IsPacked-with_lock, lock_of-with_lock,
}

-- A get on a valid packed table returns the value that the key is bound to, and 0 where it is not
-- bound, for a key that is not 0.
pub get-packed_view :
    (ht : Hashtable) (k : ℕ) → IsValid ht → k ≢ 0 → get ht k ≡ done (value_or_zero (view ht k))
unfolding get view
get-packed_view ht k v nz = rw (
  at-hash_of ht k v,
  get_chain-find k (chain_at ht.table (hash_of ht k)) (v.packed (hash_of ht k))
      (v.once k (hash_of ht k) nz),
)

-- A correct end of `clht_put` of `k` and `v` on `ht`.
pub record Puts (ht : Hashtable) (k v : ℕ) (r : Bool × Hashtable) : Type 0 where
  pub returned : r.0 ≡ is_none (view ht k)
  pub valid : IsValid r.1
  pub size : r.1.num_buckets ≡ ht.num_buckets
  pub views : (q : ℕ) → q ≢ 0 → view r.1 q ≡ update (view ht) k (kept_or (view ht k) v) q

-- A correct end of `clht_remove` of `k` on `ht`.
pub record Removed (ht : Hashtable) (k : ℕ) (r : ℕ × Hashtable) : Type 0 where
  pub returned : r.0 ≡ value_or_zero (view ht k)
  pub valid : IsValid r.1
  pub size : r.1.num_buckets ≡ ht.num_buckets
  pub views : (q : ℕ) → q ≢ 0 → view r.1 q ≡ update (view ht) k none q

module _ (ht : Hashtable) (k : ℕ) (valid : IsValid ht) (nonzero : k ≢ 0) where
  abbrev old : Chain
  old = chain_at ht.table (hash_of ht k)

  abbrev locked : Chain
  locked = with_lock 0xff old

  few : (q : ℕ) → q ≢ 0 → count q (entries old) ≤ 1
  few q nz = valid.once q (hash_of ht k) nz

  lock_acq-locked : lock_acq old ≡ done locked
  unfolding lock_acq
  lock_acq-locked = rw (valid.unlocked (hash_of ht k))

  unbound : count k (entries old) ≡ 0 → view ht k ≡ none
  unfolding view
  unbound h = find-eq-none k (entries old) h

  view_old : view ht k ≡ find k (entries old)
  unfolding view
  view_old = refl

  update_same : (o : Option ℕ) → view ht k ≡ o → (q : ℕ) → view ht q ≡ update (view ht) k o q
  update_same o e q = elim (Bool-cases (k == q)) [ inl f ↦ rw (f, ← ==→eq k q f) e | inr f ↦ rw f ]

  exists_test : bucket_exists k old ≡ (if count k (entries old) == 0 then false else true)
  exists_test = bucket_exists-count k old (valid.packed (hash_of ht k))

  appended-Rebinds :
      (v : ℕ) (c : Chain)
      → count k (entries old) ≡ 0
      → entries c ≡ entries old ++ (k, v) ∷ []
      → IsPacked c
      → Rebinds k (some v) old (with_lock 0 c)
  unfolding find count
  appended-Rebinds v c gone grown packed = record {
    packed = IsPacked-with_lock 0 c packed;
    lock = lock_of-with_lock 0 c;
    binds = λ q nz.
        rw (entries-with_lock, grown, find-append)
          (ground (arith, find-eq-none k (entries old) gone));
    few = λ q nz. rw (entries-with_lock, grown, count-append) (ground arith);
  }

  -- A put of a key that is not 0 into a valid packed table returns, with memory for a bucket: it
  -- answers whether the key was unbound, binds it then, keeps a binding that is there, leaves the
  -- other keys alone, and the table is valid and packed again.
  pub put-PacksIn : (words : ℕ → ℕ) (v : ℕ) → Returns (put (some words) ht k v) (Puts ht k v)
  unfolding put
  put-PacksIn words v = rw (at-hash_of ht k valid) (elim (Bool-cases (bucket_exists k old)) [
    | inl e ↦ rw e (_, refl, there e (view ht k) refl)
    | inr e ↦
        let gone : count k (entries old) ≡ 0 = ground (arith, exists_test) in
        let (r, run, a) =
          put_chain-Appends words (k, v) locked
            (IsPacked-with_lock 0xff old (valid.packed (hash_of ht k)))
            (rw entries-with_lock gone) in
        let grown : entries r.1 ≡ entries old ++ (k, v) ∷ [] =
          a.entered ∙ ap (λ xs. xs ++ (k, v) ∷ []) (entries-with_lock 0xff old) in
        let w = appended-Rebinds v r.1 gone grown a.packed in
        rw (e, lock_acq-locked, run)
          (
            _,
            refl,
            record {
              returned = rw (a.result, unbound gone);
              valid = write_back-IsValid ht k (some v) (with_lock 0 r.1) valid nonzero w;
              size = refl;
              views = λ q nz.
                  view-write_back ht k (some v) (with_lock 0 r.1) valid nonzero w q nz
                  ∙ rw (unbound gone);
            },
          )
  ])
    where
      there : bucket_exists k old ≡ true → (o : Option ℕ) → view ht k ≡ o → Puts ht k v (false, ht)
      there e none f =
          let none_left = count-eq-zero k (entries old) (sym view_old ∙ f) in
          absurd (ground (arith, exists_test, none_left))
      there e (some w) f = record {
        returned = rw f;
        valid = valid;
        size = refl;
        views = λ q nz. update_same (kept_or (view ht k) v) (f ∙ ap (λ o. kept_or o v) (sym f)) q;
      }

  dropped-Rebinds :
      (v : ℕ) (r : ℕ × Chain) → Drops k v locked r → Rebinds k none old (with_lock 0 r.1)
  dropped-Rebinds v r d =
      let counts : (q : ℕ) → q ≢ 0 → count q (entries r.1) + hit k q ≡ count q (entries old) =
        λ q nz. d.counts q nz ∙ ap (count q) (entries-with_lock 0xff old) in
      let weights : (q : ℕ)
          → q ≢ 0
          → weight q (entries r.1) + share k q v ≡ weight q (entries old) =
        λ q nz. d.weights q nz ∙ ap (weight q) (entries-with_lock 0xff old) in
      record {
        packed = IsPacked-with_lock 0 r.1 d.packed;
        lock = lock_of-with_lock 0 r.1;
        binds = λ q nz. rw entries-with_lock (
            ground (
              arith,
              find-lookup_of q (entries r.1),
              find-lookup_of q (entries old),
              counts q nz,
              weights q nz,
              few q nz,
            ));
        few = λ q nz. rw entries-with_lock (ground (arith, counts q nz, few q nz));
      }

  dropped_value : (v : ℕ) (r : ℕ × Chain) → Drops k v locked r → view ht k ≡ some v
  dropped_value v r d =
      let counts = d.counts k nonzero ∙ ap (count k) (entries-with_lock 0xff old) in
      let weights = d.weights k nonzero ∙ ap (weight k) (entries-with_lock 0xff old) in
      view_old
      ∙ ground (
        arith,
        find-lookup_of k (entries old) (few k nonzero),
        counts,
        weights,
        weight-eq-zero k (entries r.1),
        few k nonzero,
      )

  released-Rebinds : count k (entries old) ≡ 0 → Rebinds k none old (with_lock 0 locked)
  released-Rebinds gone = record {
    packed =
        IsPacked-with_lock 0 locked (IsPacked-with_lock 0xff old (valid.packed (hash_of ht k)));
    lock = lock_of-with_lock 0 locked;
    binds = λ q nz.
        rw (entries-with_lock, entries-with_lock)
          (ground (arith, ==→eq k q, find-eq-none q (entries old), gone));
    few = λ q nz. rw (entries-with_lock, entries-with_lock) (ground (arith, few q nz));
  }

  after-Removal :
      (r : ℕ × Chain)
      → Removal k locked r
      → Removed ht k (r.0, write_back ht (hash_of ht k) (with_lock 0 r.1))
  after-Removal r (dropped v d) =
      let w = dropped-Rebinds v r d in
      record {
        returned = rw (d.value, dropped_value v r d);
        valid = write_back-IsValid ht k none (with_lock 0 r.1) valid nonzero w;
        size = refl;
        views = view-write_back ht k none (with_lock 0 r.1) valid nonzero w;
      }
  after-Removal r (absent h e) =
      let gone = sym (ap (count k) (entries-with_lock 0xff old)) ∙ h in
      let w = released-Rebinds gone in
      subst (λ t. Removed ht k (t.0, write_back ht (hash_of ht k) (with_lock 0 t.1))) (sym e)
        (record {
          returned = rw (unbound gone);
          valid = write_back-IsValid ht k none (with_lock 0 locked) valid nonzero w;
          size = refl;
          views = view-write_back ht k none (with_lock 0 locked) valid nonzero w;
        })

  -- A remove of a key that is not 0 from a valid packed table returns, and the assertion in it never
  -- fails: it returns what the key was bound to, or 0, and unbinds it, the other keys are left alone,
  -- and the table is valid and packed again.
  pub remove-PacksOut : Returns (remove ht k) (Removed ht k)
  unfolding remove
  remove-PacksOut = rw (at-hash_of ht k valid) (elim (Bool-cases (bucket_exists k old)) [
    | inr e ↦
        let gone : view ht k ≡ none = unbound (ground (arith, exists_test)) in
        rw e (
          _,
          refl,
          record {
            returned = rw gone;
            valid = valid;
            size = refl;
            views = λ q nz. update_same none gone q;
          },
        )
    | inl e ↦
        let (r, run, d) =
          remove_chain-Removal k locked
            (IsPacked-with_lock 0xff old (valid.packed (hash_of ht k))) in
        rw (e, lock_acq-locked, run) (_, refl, after-Removal r d)
  ])
