-- ===== src/NoNext/Lost.antt =====
-- `clht_put_seq` of src/clht_lb_res_no_next.c: with room for the key, and without.
use mathlib.Core.Path.{subst}
use clht.Prelude.{
  ℕ, ◌<◌, ◌≡◌, ◌≢◌, refl, sym, ◌∙◌, ◌==◌, true, none, some, done, done_injective, Returns,
  Bool-cases, Option-cases, ==→eq, inl, inr, arith,
}
use clht.Slots.{count}
use clht.Slots.Laws.{count_pos}
use clht.LbRes.Bucket.{walk, empty_in_chain}
use clht.LbRes.Bucket.Search.{empty_in_chain-some}
use clht.LbRes.Table.{Hashtable, hash_of}
use clht.LbRes.Table.Counting.{size_slots-count}
use clht.LbRes.Table.Invariant.{chain_at, IsValid, view, hash_of-lt, at-hash_of}
use clht.LbRes.Table.Insert.{Rebound}
use clht.LbRes.Resize.Copy.{put_seq-Rebound}
use clht.NoNext.{put_seq}
use clht.NoNext.Single.{Singles, IsSingle, own-empty_in_chain, length-walk}
use clht.NoNext.Room.{granting, granting-Plenty, put_seq-Placed}

-- how many slots of the bucket of a key are empty
abbrev pub room : Hashtable → ℕ → ℕ
room ht k = count 0 (walk (chain_at ht.table (hash_of ht k)))

-- The two ends of a copy of (k, v) into the table.
pub data Ends (ht : Hashtable) (k v : ℕ) : Hashtable → Type 0 where
  stores :
      (r : Hashtable) → 0 < room ht k → Rebound ht k (some v) r → Singles r.table → Ends ht k v r
  drops : room ht k ≡ 0 → view ht k ≡ none → Ends ht k v ht

module _ (ht : Hashtable) (k v : ℕ) (valid : IsValid ht) (singles : Singles ht.table) where
  alone : IsSingle (chain_at ht.table (hash_of ht k))
  alone = singles (hash_of ht k) (omega (arith, hash_of-lt ht k valid, valid.sized))

  full-same : room ht k ≡ 0 → put_seq ht k v (hash_of ht k) ≡ done (true, ht)
  unfolding put_seq
  full-same full =
      let c = chain_at ht.table (hash_of ht k) in
      elim (Option-cases (empty_in_chain 0 c)) [
        | inl e ↦ rw (at-hash_of ht k valid, own-empty_in_chain c alone, e) refl
        | inr (p, e) ↦
            let free = empty_in_chain-some c p e in
            absurd (omega (arith, full, count_pos (walk c) free.place 0 free.old free.empty))
      ]

  -- The copy of a binding, of a key that is not 0 and unbound so far, into a valid table without links
  -- returns, and answers true in any case: where the bucket of the key has an empty slot, the table
  -- binds the key then, and no other one anew, and is valid and without links again; where it has none,
  -- the table is left as it was, and the key unbound.
  pub put_seq-Ends :
      k ≢ 0
      → view ht k ≡ none
      → Returns (put_seq ht k v (hash_of ht k)) (λ r. (r.0 ≡ true) × Ends ht k v r.1)
  put_seq-Ends nonzero gone = elim (Bool-cases (room ht k == 0)) [
    | inl e ↦
        let full = ==→eq (room ht k) 0 e in ((true, ht), full-same full, (refl, drops full gone))
    | inr e ↦
        let some_room : 0 < room ht k = ground arith in
        let c = chain_at ht.table (hash_of ht k) in
        let (r, run, (told, p)) =
          put_seq-Placed ht k v valid singles
            (omega (arith, some_room, size_slots-count (walk c), length-walk c alone)) in
        let (w, run', b) = put_seq-Rebound granting granting-Plenty ht k v valid nonzero gone in
        let bound : Rebound ht k (some v) r.1 =
          subst (Rebound ht k (some v)) (done_injective (sym run' ∙ p.same granting)) b in
        (r, run, (told, stores r.1 some_room bound p.singles))
  ]
