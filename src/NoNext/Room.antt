-- ===== src/NoNext/Room.antt =====
-- Copying the slots of one bucket: where the buckets of the new table have room, `NoNext` does what
-- `LbRes` does.
use mathlib.Core.Path.{subst}
use clht.Prelude.{
  ℕ, ◌+◌, ◌<◌, ◌≤◌, ◌≡◌, ◌≢◌, refl, sym, ap, ◌∙◌, ◌==◌, bit_and, none, some, List, [], ◌∷◌, length,
  set, true, done_injective, get_or-set, done, Returns, Bool-cases, Option-cases, inl, inr, ==→eq,
  ==→ne, arith,
}
use clht.Slots.{Slot, count}
use clht.LbRes.Bucket.{Chain, walk, store, empty_in_chain}
use clht.LbRes.Bucket.Edit.{walk-store}
use clht.LbRes.Bucket.Search.{empty_in_chain-some, empty_in_chain-none}
use clht.LbRes.Table.{Hashtable, Memory, hash_of, write_back, size_slots}
use clht.LbRes.Table.Counting.{size_slots-count, size_slots-set}
use clht.LbRes.Table.Invariant.{nowhere, chain_at, IsValid, view, hash_of-lt, at-hash_of}
use clht.LbRes.Table.Insert.{Rebound}
use clht.LbRes.Resize as Res
use clht.LbRes.Resize.Copy.{Plenty, Apart, Apart-tail, Apart-Rebound, put_seq-Rebound}
use clht.NoNext.{put_seq, copy_slots}
use clht.NoNext.Single.{
  IsSingle, Singles, length-walk, own-empty_in_chain, with_own-store, store-IsSingle, set-Singles,
}

-- how many slots of the bucket of a key are in use
abbrev pub filled : Hashtable → ℕ → ℕ
filled ht q = size_slots (walk (chain_at ht.table (hash_of ht q)))

-- The bucket of each key in `xs` has room for all of them.
unfoldable pub Fits : Hashtable → List Slot → Type 0
Fits new xs = (q : ℕ) → q ≢ 0 → 0 < count q xs → filled new q + length xs ≤ 3

-- What `put_seq` leaves where the bucket has room.
pub record Placed (ht : Hashtable) (k v : ℕ) (r : Hashtable) : Type 0 where
  pub same : (mem : Memory) → Res.put_seq mem ht k v (hash_of ht k) ≡ done r
  pub singles : Singles r.table
  pub more : (q : ℕ) → filled r q ≤ filled ht q + 1

module _ (ht : Hashtable) (k v : ℕ) (valid : IsValid ht) (singles : Singles ht.table) where
  abbrev bin : ℕ
  bin = hash_of ht k

  abbrev old : Chain
  old = chain_at ht.table bin

  inside : bin < length ht.table
  inside = omega (arith, hash_of-lt ht k valid, valid.sized)

  alone : IsSingle old
  alone = singles bin inside

  pub put_seq-Placed :
      filled ht k < 3 → Returns (put_seq ht k v bin) (λ r. (r.0 ≡ true) × Placed ht k v r.1)
  unfolding put_seq Res.put_seq Res.seq_found hash_of
  put_seq-Placed room = elim (Option-cases (empty_in_chain 0 old)) [
    | inl e ↦ absurd (
        omega (
          arith,
          room,
          empty_in_chain-none old e,
          size_slots-count (walk old),
          length-walk old alone,
        ))
    | inr (p, e) ↦
        let free = empty_in_chain-some old p e in
        let written : walk (store old p (k, v)) ≡ set (walk old) free.place (k, v) =
          rw (walk-store, free.at_place) (ap (λ i. set (walk old) i (k, v)) (omega arith)) in
        (
          (true, write_back ht bin (store old p (k, v))),
          rw (
            at-hash_of ht k valid,
            own-empty_in_chain old alone,
            e,
            with_own-store old p (k, v) alone,
          ),
          (
            refl,
            record {
              same = λ mem. rw (at-hash_of ht k valid, e);
              singles =
                  set-Singles ht.table bin (store old p (k, v)) inside singles
                    (store-IsSingle old p (k, v) alone);
              more = λ q. elim (Bool-cases (bin == hash_of ht q)) [
                | inl f ↦
                    let here = ==→eq bin (hash_of ht q) f in
                    rw
                      (
                        get_or-set ht.table bin (bit_and q ht.hash) (store old p (k, v)) nowhere
                            inside,
                        f,
                        written,
                        ← here,
                      )
                      (omega
                        (arith, size_slots-set (walk old) free.place 0 free.old k v free.empty))
                | inr f ↦
                    rw
                      (
                        get_or-set ht.table bin (bit_and q ht.hash) (store old p (k, v)) nowhere
                            inside,
                        f,
                      )
                      (omega arith)
              ];
            },
          ),
        )
  ]

-- memory that grants every request
abbrev pub granting : Memory
granting = record { bucket = λ n. some (λ j. 0); has_struct = λ n. true; has_table = λ n. true }

pub granting-Plenty : Plenty granting
granting-Plenty n e = cc e

-- The table that a copy leaves, which is the one that `LbRes` leaves.
pub record Copies (xs : List Slot) (new r : Hashtable) : Type 0 where
  pub same : (mem : Memory) → Res.copy_slots mem xs new ≡ done r
  pub singles : Singles r.table

pub copy_slots-Copies :
    (xs : List Slot) (new : Hashtable)
    → IsValid new
    → Singles new.table
    → Apart new xs
    → Fits new xs
    → Returns (copy_slots xs new) (Copies xs new)
unfolding copy_slots Res.copy_slots Fits count
copy_slots-Copies [] new valid singles apart fits =
    (new, refl, record { same = λ mem. refl; singles = singles })
copy_slots-Copies ((k, v) ∷ xs) new valid singles apart fits = elim (Bool-cases (k == 0)) [
  | inl e ↦
      let fits' : Fits new xs = λ q nz h. omega (arith, fits q nz (omega (arith, h))) in
      let (r, run, c) =
        copy_slots-Copies xs new valid singles (Apart-tail granting granting-Plenty (k, v) xs apart)
          fits' in
      (r, rw e run, record { same = λ mem. rw e (c.same mem); singles = c.singles })
  | inr e ↦
      let nonzero : k ≢ 0 = ==→ne k 0 e in
      let some_here : 0 < count k ((k, v) ∷ xs) = ground arith in
      let unbound : view new k ≡ none = apart.unbound k nonzero some_here in
      let ((answer, new'), put, (told, p)) =
        put_seq-Placed new k v valid singles (omega (arith, fits k nonzero some_here)) in
      let (r', put', b') = put_seq-Rebound granting granting-Plenty new k v valid nonzero unbound in
      let b : Rebound new k (some v) new' =
        subst (Rebound new k (some v)) (done_injective (sym put' ∙ p.same granting)) b' in
      let fits' : Fits new' xs = λ q nz h. omega (arith, fits q nz (omega (arith, h)), p.more q) in
      let (r, run, c) =
        copy_slots-Copies xs new' b.valid p.singles
          (Apart-Rebound granting granting-Plenty k v xs nonzero apart b) fits' in
      (
        r,
        rw (e, put) run,
        record { same = λ mem. rw (e, p.same mem) (c.same mem); singles = c.singles },
      )
]
