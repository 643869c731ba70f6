-- ===== src/NoNext/Put.antt =====
-- `clht_put` of src/clht_lb_res_no_next.c: how often it starts again.
use clht.Prelude.{
  ℕ, zero, suc, ◌+◌, ◌^◌, ◌<◌, ◌≤◌, ◌≡◌, ◌≢◌, ◌⊎◌, refl, sym, ◌∙◌, ◌==◌, ltb, bit_and, Bool, false,
  Option, none, some, List, [], ◌∷◌, length, done, ◌>>=◌, Returns, Bool-cases, inl, inr, ==→eq,
  ==→ne, arith,
}
use native.Mathlib.Nat.{mod-eq_of_lt}
use clht.Words.{bit_and_mask, pow-le}
use clht.Slots.{Slot, find, count}
use clht.Slots.Laws.{count-eq-zero}
use clht.LbRes.Bucket.{walk, is_none}
use clht.LbRes.Table.{Hashtable, Memory, hash_of}
use clht.LbRes.Table.Invariant.{chain_at, reads, IsValid, view, hash_of-lt}
use clht.LbRes.Table.Writes.{update}
use clht.LbRes.Table.Insert.{kept_or}
use clht.LbRes.Resize.{Clht}
use clht.NoNext.{status, put}
use clht.NoNext.Single.{Singles, length-walk}
use clht.NoNext.Attempt.{Same, Full, Attempt, put_once-Attempt}
use clht.NoNext.Status.{Ready, Grants, status-Grew}

-- two slots of a full bucket: their keys differ, or one key has both
record Two (xs : List Slot) : Type 0 where
  one : ℕ
  other : ℕ
  one_key : one ≢ 0
  other_key : other ≢ 0
  one_there : 0 < count one xs
  other_there : 0 < count other xs
  apart : (one ≢ other) ⊎ (1 < count one xs)

first-Two : (xs : List Slot) → length xs ≡ 3 → count 0 xs ≡ 0 → Two xs
unfolding count
first-Two [] e h = absurd (omega (arith, e))
first-Two (s ∷ []) e h = absurd (omega (arith, e))
first-Two ((x, v) ∷ (y, w) ∷ xs) e h = record {
  one = x;
  other = y;
  one_key = λ z. ground (arith, h, z);
  other_key = λ z. ground (arith, h, z);
  one_there = ground arith;
  other_there = ground arith;
  apart = elim (Bool-cases (x == y)) [ inl f ↦ inr (ground arith) | inr f ↦ inl (==→ne x y f) ];
}

-- the keys of the table have w bits
abbrev pub Bits : ℕ → Hashtable → Type 0
Bits w ht = (q : ℕ) → q ≢ 0 → view ht q ≢ none → q < 2 ^ w

-- A key of a bucket, in a table with a bucket for each of its bits, is the bucket's number.
key-bin :
    (ht : Hashtable) (a w q i : ℕ)
    → IsValid ht
    → ht.num_buckets ≡ 2 ^ a
    → Bits w ht
    → w ≤ a
    → q ≢ 0
    → 0 < count q (walk (chain_at ht.table i))
    → q ≡ i
unfolding view reads
key-bin ht a w q i valid size bits far nz there = elim (Bool-cases (bit_and q ht.hash == i)) [
  | inr away ↦ absurd (omega (arith, there, valid.placed.home q i nz (==→ne _ i away)))
  | inl home ↦
      let at_home = ==→eq (bit_and q ht.hash) i home in
      let bound : find q (walk (chain_at ht.table (bit_and q ht.hash))) ≢ none = λ n.
        let none_there = count-eq-zero q (walk (chain_at ht.table i)) (rw at_home at n) in
        omega (arith, there, none_there) in
      let below : q < 2 ^ a = omega (arith, bits q nz bound, pow-le w a far) in
      let low : bit_and q ht.hash ≡ q =
        rw (valid.masked, size) (bit_and_mask q a ∙ mod-eq_of_lt below) in
      sym low ∙ at_home
]

-- A full bucket: the table has fewer buckets than the keys have bits for.
full-lt :
    (ht : Hashtable) (a w k : ℕ)
    → IsValid ht
    → Singles ht.table
    → ht.num_buckets ≡ 2 ^ a
    → Bits w ht
    → count 0 (walk (chain_at ht.table (hash_of ht k))) ≡ 0
    → a < w
full-lt ht a w k valid singles size bits full = elim (Bool-cases (ltb a w)) [
  | inl e ↦ ground arith
  | inr e ↦
      let i = hash_of ht k in
      let far : w ≤ a = ground arith in
      let alone = singles i (omega (arith, hash_of-lt ht k valid, valid.sized)) in
      let two = first-Two (walk (chain_at ht.table i)) (length-walk _ alone) full in
      let x = key-bin ht a w two.one i valid size bits far two.one_key two.one_there in
      let y = key-bin ht a w two.other i valid size bits far two.other_key two.other_there in
      elim two.apart [
        | inl ne ↦ absurd (ne (x ∙ sym y))
        | inr many ↦ absurd (omega (arith, many, valid.placed.once two.one i two.one_key))
      ]
]

-- A correct end of `clht_put`.
pub record Adds (h : Clht) (k v : ℕ) (r : Bool × Clht) : Type 0 where
  pub bits : ℕ
  pub ready : Ready bits r.1
  pub returned : r.0 ≡ is_none (view h.ht k)
  pub views : (q : ℕ) → q ≢ 0 → view r.1.ht q ≡ update (view h.ht) k (kept_or (view h.ht k) v) q

module _ (mem : Memory) (grants : Grants mem) (w k v : ℕ) (nonzero : k ≢ 0) (few : w ≤ 28) where
  -- the handle after an attempt
  after :
      {a : ℕ} (h : Clht) (r : Hashtable) → Ready a h → Same h.ht r → Ready a (record h { ht = r })
  after h r ready same = record {
    valid = same.valid;
    singles = same.singles;
    size = same.size ∙ ready.size;
    resize_lock = ready.resize_lock;
    status_lock = ready.status_lock;
  }

  -- that much fuel is enough, for any table that it is enough for
  abbrev Suffices : ℕ → Type 0
  Suffices fuel =
      (a : ℕ) (h : Clht)
      → Ready a h
      → Bits w h.ht
      → 0 < fuel
      → w < a + fuel
      → Returns (put fuel mem h k v) (Adds h k v)

  again :
      (fuel a : ℕ) (h : Clht)
      → Ready a h
      → Bits w h.ht
      → w < a + suc fuel
      → Suffices fuel
      → (ht : Hashtable) → Full h.ht k ht
      → Returns
          (status mem (record h { ht = ht }) false >>= (λ r. put fuel mem r.1 k v))
          (Adds h k v)
  again fuel a h ready bits enough ih ht t =
      let room = full-lt h.ht a w k ready.valid ready.singles ready.size bits t.full in
      let (r, run, g) =
        status-Grew mem (record h { ht = ht }) a grants (after h ht ready t.same)
          (omega (arith, room, few)) in
      let known : (q : ℕ) → q ≢ 0 → view r.1.ht q ≡ view h.ht q =
        λ q nz. g.views q nz ∙ t.views q nz in
      let (r', run', p) =
        ih g.bits r.1 g.ready (λ q nz b. bits q nz (λ n. b (known q nz ∙ n)))
          (omega (arith, enough, room)) (omega (arith, enough, g.more)) in
      rw run (
        r',
        run',
        record {
          bits = p.bits;
          ready = p.ready;
          returned = p.returned ∙ rw (known k nonzero);
          views = λ q nz. p.views q nz ∙ rw (known k nonzero, known q nz);
        },
      )

  attempted :
      (fuel a : ℕ) (h : Clht)
      → Ready a h
      → Bits w h.ht
      → w < a + suc fuel
      → Suffices fuel
      → (o : Option Bool) (ht : Hashtable) → Attempt h.ht k v (o, ht)
      → Returns
          (elim o [
            | some r ↦ done (r, record h { ht = ht })
            | none ↦ status mem (record h { ht = ht }) false >>= (λ r. put fuel mem r.1 k v)
          ])
          (Adds h k v)
  unfolding Attempt
  attempted fuel a h ready bits enough ih (some result) ht t = (
    (result, record h { ht = ht }),
    refl,
    record { bits = a; ready = after h ht ready t.same; returned = t.returned; views = t.views },
  )
  attempted fuel a h ready bits enough ih none ht t = again fuel a h ready bits enough ih ht t

  -- A put of a key that is not 0 into a ready table of 2 ^ a buckets returns, where every request
  -- for memory is granted and the keys that are bound are below 2 ^ w, with w at most 28: it answers whether the
  -- key was unbound, binds it then, keeps a binding that is there, leaves the other keys alone, and
  -- the table is ready again; it starts at most w - a times again, so that a fuel of more than
  -- w - a, and of at least 1, is enough.
  pub put-Adds :
      (fuel a : ℕ) (h : Clht)
      → Ready a h
      → Bits w h.ht
      → 0 < fuel
      → w < a + fuel
      → Returns (put fuel mem h k v) (Adds h k v)
  unfolding put Attempt
  put-Adds zero a h ready bits some_fuel enough = absurd (omega (arith, some_fuel))
  put-Adds (suc fuel) a h ready bits some_fuel enough =
      let ((o, ht), run, t) = put_once-Attempt h.ht k v ready.valid ready.singles nonzero in
      rw run
        (attempted fuel a h ready bits enough (λ b g r l f e. put-Adds fuel b g r l f e) o ht t)
