-- ===== src/NoNext/Spread.antt =====
-- The rebuild of a table of buckets without links: the bindings of one bucket go to buckets that
-- nothing else goes to, where the sizes are powers of two.
use mathlib.Core.Path.{fun_ext, subst}
use clht.Prelude.{
  ℕ, zero, suc, ◌+◌, ◌<◌, ◌≤◌, ◌≡◌, ◌≢◌, refl, sym, ◌∙◌, ◌==◌, bit_and, none, some, List, [], ◌∷◌,
  ◌++◌, length, done, ◌>>=◌, >>=-assoc, done_injective, Returns, Bool-cases, ==→eq, ==→ne,
  Option-cases, inl, inr, arith,
}
use clht.Slots.{Slot, find, count}
use clht.Slots.Laws.{find-eq-none, count-eq-zero, count-append}
use clht.LbRes.Bucket.{Chain, walk, lock_of, lock_free, lock_resize, with_lock}
use clht.LbRes.Table.{Hashtable, hash_of, size_slots}
use clht.LbRes.Table.Invariant.{chain_at, IsValid, view, reads}
use clht.LbRes.Resize as Res
use clht.LbRes.Resize.Copy.{Apart, Copied, copy_slots-Copied}
use clht.LbRes.Resize.Copy as Copy
use clht.LbRes.Resize.Rebuild.{flat, locked, with_table, joined}
use clht.NoNext.{copy_slots, bucket_cpy, copy_bins}
use clht.NoNext.Single.{IsSingle, Singles, own-walk, length-walk}
use clht.NoNext.Room.{filled, Fits, granting, granting-Plenty, Copies, copy_slots-Copies}

copy_slots-append :
    (xs ys : List Slot) (new : Hashtable)
    → copy_slots (xs ++ ys) new ≡ copy_slots xs new >>= copy_slots ys
unfolding copy_slots
copy_slots-append [] ys new = refl
copy_slots-append (s ∷ xs) ys new = simp (>>=-assoc, copy_slots-append xs ys)

bucket_cpy-free :
    (c : Chain) (new : Hashtable)
    → lock_of c ≡ lock_free
    → IsSingle c
    → bucket_cpy c new ≡ copy_slots (walk c) new >>= (λ new'. done (with_lock lock_resize c, new'))
unfolding bucket_cpy
bucket_cpy-free c new free s = rw (free, own-walk c s)

rest :
    (c : Chain) (cs : List Chain)
    → ((new : Hashtable)
        → copy_bins (length cs) cs new ≡ copy_slots (flat cs) new >>= with_table (locked cs))
    → (new : Hashtable)
    → copy_bins (length cs) cs new >>= joined (with_lock lock_resize c)
      ≡ copy_slots (flat cs) new >>= with_table (locked (c ∷ cs))
rest c cs ih new = rw (ih new, >>=-assoc)

-- The nested loops are one loop over all the slots.
pub copy_bins-flat :
    (cs : List Chain) (new : Hashtable)
    → ((i : ℕ) → lock_of (chain_at cs i) ≡ lock_free)
    → Singles cs
    → copy_bins (length cs) cs new ≡ copy_slots (flat cs) new >>= with_table (locked cs)
unfolding copy_bins flat
copy_bins-flat [] new free s = unfold copy_slots in refl
copy_bins-flat (c ∷ cs) new free s = rw (
  bucket_cpy-free c new (free 0) (s 0 (omega arith)),
  copy_slots-append (walk c) (flat cs) new,
  >>=-assoc,
  >>=-assoc,
  fun_ext (
      rest c cs
        (λ n. copy_bins-flat cs n (λ i. free (suc i)) (λ i l. s (suc i) (omega (arith, l))))),
)

size_slots-none : (xs : List Slot) → ((q : ℕ) → q ≢ 0 → count q xs ≡ 0) → size_slots xs ≡ 0
unfolding size_slots count
size_slots-none [] h = refl
size_slots-none ((zero, v) ∷ xs) h =
    omega (arith, size_slots-none xs (λ q nz. omega (arith, h q nz)))
size_slots-none ((suc k, v) ∷ xs) h = absurd (ground (arith, h (suc k) (omega arith)))

-- How the keys that `new` binds, and those of the buckets `cs`, are spread: bucket i + j of the old
-- table, whose mask is m, is bucket j of `cs`.
pub record Spread (m i : ℕ) (cs : List Chain) (new : Hashtable) : Type 0 where
  pub valid : IsValid new
  pub singles : Singles new.table
  pub apart : Apart new (flat cs)
  pub alone : Singles cs
  pub home : (q j : ℕ) → q ≢ 0 → 0 < count q (walk (chain_at cs j)) → bit_and q m ≡ i + j
  pub before : (q : ℕ) → q ≢ 0 → view new q ≢ none → bit_and q m < i
  pub finer : (q r : ℕ) → hash_of new q ≡ hash_of new r → bit_and q m ≡ bit_and r m

-- a bucket of `new` that no key so far belongs to is empty
filled_none :
    (m i : ℕ) (cs : List Chain) (new : Hashtable) (q : ℕ)
    → Spread m i cs new
    → i ≤ bit_and q m
    → filled new q ≡ 0
unfolding view reads hash_of
filled_none m i cs new q s far =
    size_slots-none (walk (chain_at new.table (bit_and q new.hash))) (λ r nz.
      elim (Option-cases (find r (walk (chain_at new.table (bit_and q new.hash))))) [
        | inl e ↦ count-eq-zero r (walk (chain_at new.table (bit_and q new.hash))) e
        | inr (v, e) ↦ outside r v nz e
      ])
  where
    outside :
        (r v : ℕ)
        → r ≢ 0
        → find r (walk (chain_at new.table (bit_and q new.hash))) ≡ some v
        → count r (walk (chain_at new.table (bit_and q new.hash))) ≡ 0
    outside r v nz e = elim (Bool-cases (bit_and r new.hash == bit_and q new.hash)) [
      | inl f ↦
          let same = ==→eq (bit_and r new.hash) (bit_and q new.hash) f in
          let bound : view new r ≢ none = λ n.
            let n' : find r (walk (chain_at new.table (bit_and q new.hash))) ≡ none =
              rw same at n in
            cc (n', e) in
          absurd (omega (arith, s.before r nz bound, s.finer r q same))
      | inr f ↦ s.valid.placed.home r (bit_and q new.hash) nz (==→ne _ _ f)
    ]

module _ {m i : ℕ} {c : Chain} {cs : List Chain} {new : Hashtable}
    (s : Spread m i (c ∷ cs) new) where
  Spread-first : Apart new (walk c)
  unfolding flat
  Spread-first = record {
    once = λ q nz. omega (arith, count-append q (walk c) (flat cs), s.apart.once q nz);
    unbound = λ q nz h. s.apart.unbound q nz (omega (arith, count-append q (walk c) (flat cs), h));
  }

  Spread-Fits : Fits new (walk c)
  unfolding Fits
  Spread-Fits q nz h =
      let here = s.home q 0 nz h in
      omega (
        arith,
        filled_none m i (c ∷ cs) new q s (omega (arith, here)),
        length-walk c (s.alone 0 (omega arith)),
      )

  Spread-next : (r : Hashtable) → Copied new (walk c) r → Singles r.table → Spread m (suc i) cs r
  unfolding flat hash_of
  Spread-next r t singles =
      let mask : r.hash ≡ new.hash = omega (arith, t.valid.masked, s.valid.masked, t.size) in
      record {
        valid = t.valid;
        singles = singles;
        apart = record {
          once = λ q nz. omega (arith, count-append q (walk c) (flat cs), s.apart.once q nz);
          unbound = λ q nz h.
              let gone : count q (walk c) ≡ 0 =
                omega (arith, count-append q (walk c) (flat cs), s.apart.once q nz, h) in
              let fresh : view new q ≡ none =
                s.apart.unbound q nz (omega (arith, count-append q (walk c) (flat cs), h)) in
              t.views q nz ∙ rw (fresh, find-eq-none q (walk c) gone);
        };
        alone = λ j l. s.alone (suc j) (omega (arith, l));
        home = λ q j nz h. omega (arith, s.home q (suc j) nz h);
        before = λ q nz h. elim (Option-cases (view new q)) [
          | inr (v, e) ↦ omega (arith, s.before q nz (λ n. cc (n, e)))
          | inl e ↦ elim (Bool-cases (count q (walk c) == 0)) [
            | inl f ↦ absurd (h (t.views q nz ∙ rw (e, find-eq-none q (walk c) (==→eq _ 0 f))))
            | inr f ↦ omega (arith, s.home q 0 nz (ground arith))
          ]
        ];
        finer = λ q w same. s.finer q w (rw mask at same);
      }

-- The slots of every bucket find room, so that `NoNext` copies what `LbRes` copies.
pub copy_slots-Spread :
    (m i : ℕ) (cs : List Chain) (new : Hashtable)
    → Spread m i cs new
    → Returns (copy_slots (flat cs) new) (Copies (flat cs) new)
unfolding flat
copy_slots-Spread m i [] new s =
    unfold copy_slots Res.copy_slots in
    (new, refl, record { same = λ mem. refl; singles = s.singles })
copy_slots-Spread m i (c ∷ cs) new s =
    let (r, run, p) =
      copy_slots-Copies (walk c) new s.valid s.singles (Spread-first s) (Spread-Fits s) in
    let (r', run', t') =
      copy_slots-Copied granting granting-Plenty (walk c) new s.valid (Spread-first s) in
    let t : Copied new (walk c) r =
      subst (Copied new (walk c)) (done_injective (sym run' ∙ p.same granting)) t' in
    let (w, last, z) = copy_slots-Spread m (suc i) cs r (Spread-next s r t p.singles) in
    (
      w,
      rw (copy_slots-append (walk c) (flat cs) new, run) last,
      record {
        same =
            λ mem. rw (Copy.copy_slots-append mem (walk c) (flat cs) new, p.same mem) (z.same mem);
        singles = z.singles;
      },
    )
