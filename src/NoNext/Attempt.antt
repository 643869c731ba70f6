-- ===== src/NoNext/Attempt.antt =====
-- `clht_put` of src/clht_lb_res_no_next.c up to the resize that it may ask for.
use clht.Prelude.{
  ℕ, ◌<◌, ◌≡◌, ◌≢◌, refl, sym, ◌∙◌, ◌==◌, Bool, true, false, Option, none, some, length, set,
  Returns, Bool-cases, Option-cases, inl, inr, ==→eq, arith,
}
use clht.Slots.{find, count}
use clht.Slots.Laws.{find-eq-none, count-eq-zero}
use clht.LbRes.Bucket.{Chain, walk, is_none, exists_slots, store}
use clht.LbRes.Bucket.Walk.{exists_slots-count}
use clht.LbRes.Bucket.Edit.{walk-with_lock}
use clht.LbRes.Table.{Hashtable, hash_of}
use clht.LbRes.Table.Invariant.{chain_at, reads, IsValid, view, hash_of-lt, at-hash_of}
use clht.LbRes.Table.Writes.{update, Rebinds}
use clht.LbRes.Table.Insert.{kept_or, write_back-Rebound}
use clht.LbRes.Table.Rebinding.{lock_acq, lock_acq_chk_resize-free, store-Rebinds, release-Rebinds}
use clht.NoNext.{own, scan_last, put_found, put_once}
use clht.NoNext.Single.{
  IsSingle, Singles, own-walk, with_own-store, store-IsSingle, with_lock-IsSingle, set-Singles,
}
use clht.NoNext.LastEmpty.{Ends, empty_at, none_empty, scan_last-Ends}

-- A table of the same size, without links, that is valid.
pub record Same (ht r : Hashtable) : Type 0 where
  pub size : r.num_buckets ≡ ht.num_buckets
  pub valid : IsValid r
  pub singles : Singles r.table

-- A correct end of an attempt that returns: as `clht_put` is to behave.
pub record Puts (ht : Hashtable) (k v : ℕ) (result : Bool) (r : Hashtable) : Type 0 where
  pub same : Same ht r
  pub returned : result ≡ is_none (view ht k)
  pub views : (q : ℕ) → q ≢ 0 → view r q ≡ update (view ht) k (kept_or (view ht k) v) q

-- A correct end of an attempt that finds the bucket full.
pub record Full (ht : Hashtable) (k : ℕ) (r : Hashtable) : Type 0 where
  pub same : Same ht r
  pub views : (q : ℕ) → q ≢ 0 → view r q ≡ view ht q
  pub full : count 0 (walk (chain_at ht.table (hash_of ht k))) ≡ 0

unfoldable pub Attempt : Hashtable → ℕ → ℕ → Option Bool × Hashtable → Type 0
Attempt ht k v (some result, r) = Puts ht k v result r
Attempt ht k v (none, r) = Full ht k r

module _ (ht : Hashtable) (k v : ℕ) (valid : IsValid ht) (singles : Singles ht.table)
    (nonzero : k ≢ 0) where
  abbrev bin : ℕ
  bin = hash_of ht k

  abbrev old : Chain
  old = chain_at ht.table bin

  inside : bin < length ht.table
  inside = omega (arith, hash_of-lt ht k valid, valid.sized)

  alone : IsSingle old
  alone = singles bin inside

  held : IsSingle (lock_acq old)
  held = with_lock-IsSingle 1 old alone

  view-find : view ht k ≡ find k (walk old)
  unfolding view reads hash_of
  view-find = refl

  -- the table with a bucket in the place of the key's
  wrote :
      (o : Option ℕ) (c : Chain)
      → Rebinds k o old c
      → IsSingle c
      → Same ht (record ht { table = set ht.table bin c })
  wrote o c w s =
      let b = write_back-Rebound ht ht.num_expands k o c valid nonzero w in
      record { size = refl; valid = b.valid; singles = set-Singles ht.table bin c inside singles s }

  absent-scan :
      count k (walk old) ≡ 0 → Ends 0 none (walk old) (scan_last k 0 none (own (lock_acq old)))
  absent-scan h =
      let e : own (lock_acq old) ≡ walk old = own-walk (lock_acq old) held ∙ walk-with_lock 1 old in
      rw e (scan_last-Ends k 0 none (walk old) h)

  put_found-Attempt :
      count k (walk old) ≡ 0
      → Attempt ht k v
          (put_found ht bin (lock_acq old) (k, v) (scan_last k 0 none (own (lock_acq old))))
  unfolding put_found Attempt
  put_found-Attempt absent = elim (absent-scan absent) [
    | empty_at p r free ↦
        let gone : view ht k ≡ none = view-find ∙ find-eq-none k (walk old) absent in
        let w = store-Rebinds k v old nonzero absent p free in
        let s =
          with_lock-IsSingle 0 (store (lock_acq old) p (k, v))
            (store-IsSingle (lock_acq old) p (k, v) held) in
        let b = write_back-Rebound ht ht.num_expands k (some v) _ valid nonzero w in
        rw (r, with_own-store (lock_acq old) p (k, v) held)
          (record {
            same = wrote (some v) _ w s;
            returned = rw gone;
            views = λ q nz. b.views q nz ∙ rw gone;
          })
    | none_empty r full ↦
        let w = release-Rebinds k old (λ q nz. valid.placed.once q bin nz) in
        let b = write_back-Rebound ht ht.num_expands k _ _ valid nonzero w in
        rw r (record {
          same = wrote _ _ w (with_lock-IsSingle 0 (lock_acq old) held);
          views = λ q nz. b.views q nz ∙ kept q;
          full = full;
        })
  ]
    where
      kept : (q : ℕ) → update (view ht) k (find k (walk old)) q ≡ view ht q
      kept q = elim (Bool-cases (k == q)) [
        | inl e ↦ rw (e, ← ==→eq k q e) (sym view-find)
        | inr e ↦ rw e
      ]

  pub put_once-Attempt : Returns (put_once ht k v) (Attempt ht k v)
  unfolding put_once Attempt
  put_once-Attempt =
      rw (at-hash_of ht k valid, own-walk old alone)
        (elim (Option-cases (view ht k)) [
          | inl gone ↦
              let absent : count k (walk old) ≡ 0 =
                count-eq-zero k (walk old) (sym view-find ∙ gone) in
              let missed : exists_slots k (walk old) ≡ false =
                exists_slots-count k (walk old) ∙ rw absent in
              rw (missed, lock_acq_chk_resize-free old (valid.placed.unlocked bin))
                (_, refl, put_found-Attempt absent)
          | inr (w, had) ↦
              let here : exists_slots k (walk old) ≡ true = bound_here w had in
              rw here (
                (some false, ht),
                refl,
                record {
                  same = record { size = refl; valid = valid; singles = singles };
                  returned = rw had;
                  views = λ q nz. still w had q;
                },
              )
        ])
    where
      bound_here : (w : ℕ) → view ht k ≡ some w → exists_slots k (walk old) ≡ true
      bound_here w had =
          let f : find k (walk old) ≡ some w = sym view-find ∙ had in
          exists_slots-count k (walk old) ∙ elim (Bool-cases (count k (walk old) == 0)) [
            | inl e ↦ absurd (let g = find-eq-none k (walk old) (==→eq _ 0 e) in cc (f, g))
            | inr e ↦ rw e
          ]

      still :
          (w : ℕ)
          → view ht k ≡ some w
          → (q : ℕ) → view ht q ≡ update (view ht) k (kept_or (view ht k) v) q
      still w had q = elim (Bool-cases (k == q)) [
        | inl e ↦ rw (e, ← ==→eq k q e, had)
        | inr e ↦ rw e
      ]
