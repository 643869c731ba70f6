-- ===== src/Linked/Put.antt =====
-- What `clht_put` of `Linked` does to a table, up to its calls of `ht_status`.
use mathlib.Core.Path.{subst}
use clht.Prelude.{
  Bool, ℕ, suc, ◌+◌, ◌-◌, ◌<◌, ◌≤◌, ◌≡◌, ◌≢◌, ◌⊎◌, refl, sym, ap, ◌∙◌, ltb, ltb→lt, Option, none,
  some, List, length, get_elem?, done, true, false, Outcome, ◌>>=◌, Returns, Bool-cases,
  Option-cases, inl, inr, arith,
}
use clht.Slots.{count}
use clht.LbRes.Bucket.{lock_free}
use clht.Linked.{
  max_expansions_hard, max_expansions, Bucket, Hashtable, hash_of, lock_release_n, vacant,
  scan_from, store, set_hops, Answer, already, stored, full, overflowed, scanned, bucket_exists,
  put_table,
}
use clht.Linked.Window.{bucket_at, at-bucket_at, is_some}
use clht.Linked.Locking.{Alike, Alike-trans, lock_at, lock_release_n-free}
use clht.Linked.Loops.{IsRoom, Full, Scanned, Freed, scan_from-Scanned, free_from-Freed}
use clht.Linked.Valid.{hops_at, IsValid, view, hash_of-lt, bucket_exists-view}
use clht.Linked.Edit.{Edited, edited-IsValid, view-key, view-other, Alike-IsValid, Alike-view}
use clht.Linked.Stores.{Ready, stored-Edited, set_hops-Ready}

-- What a put of (k, v) into the table leaves, on each of its ends.
pub data Puts (ht : Hashtable) (k v : ℕ) : Answer × Hashtable → Type 0 where
  finds : (w : ℕ) → view ht k ≡ some w → Puts ht k v (already, ht)
  binds :
      (ht' : Hashtable) (resize : Bool)
      → view ht k ≡ none
      → resize ≡ ltb max_expansions (hops_at ht' (hash_of ht' k))
      → IsValid ht'
      → view ht' k ≡ some v
      → ((q : ℕ) → q ≢ 0 → q ≢ k → view ht' q ≡ view ht q)
      → Puts ht k v (stored resize, ht')
  asks :
      (ht' : Hashtable)
      → view ht k ≡ none
      → IsValid ht'
      → Full ht.table (hash_of ht k) (suc max_expansions_hard)
      → ((q : ℕ) → view ht' q ≡ view ht q)
      → Puts ht k v (full, ht')

module _ (ht : Hashtable) (k v : ℕ) (valid : IsValid ht) (nonzero : k ≢ 0)
    (gone : view ht k ≡ none) where
  abbrev bin : ℕ
  bin = hash_of ht k

  abbrev here_hops : ℕ
  here_hops = hops_at ht bin

  bin-lt : bin < ht.num_buckets
  bin-lt = hash_of-lt ht k valid

  fits : bin + suc here_hops ≤ length ht.table
  fits = omega (arith, bin-lt, valid.sized, valid.bounded bin)

  edited-Puts :
      (u : List Bucket) (n : ℕ) (p : ℕ × ℕ) (i l : ℕ)
      → Edited ht.table bin n p k v u
      → IsRoom ht.table i l p
      → bin ≤ p.0
      → p.0 ≤ bin + n
      → here_hops ≤ n
      → n ≤ max_expansions_hard
      → Puts ht k v (stored (ltb max_expansions n), record ht { table = u })
  unfolding hash_of
  edited-Puts u n p i l x room low high grown limit =
      binds (record ht { table = u }) (ltb max_expansions n) gone
        (ap (ltb max_expansions) (sym x.hops_here))
        (edited-IsValid ht k v valid nonzero gone u n room.old p x room.empty low high grown limit)
        (view-key ht k v valid nonzero gone u n room.old p x room.empty low high grown limit)
        (view-other ht k v valid nonzero gone u n room.old p x room.empty low high grown limit)

  -- the first loop has found a free slot
  inside-Puts :
      (u : List Bucket) (p : ℕ × ℕ)
      → Alike ht.table u
      → ((m : ℕ) → (m < bin) ⊎ (bin + suc here_hops ≤ m) → lock_at u m ≡ lock_free)
      → IsRoom ht.table bin (suc here_hops) p
      → Puts ht k v (
        stored (ltb max_expansions here_hops),
        record ht { table = lock_release_n (suc here_hops) bin (store u p (k, v)) },
      )
  inside-Puts u p x free room =
      let ready : Ready ht.table bin here_hops (suc here_hops) u = record {
        size = x.size;
        locks = free;
        slots = x.slots;
        hops_here = x.hops bin;
        hops_there = λ m ne. x.hops m;
      } in
      edited-Puts (lock_release_n (suc here_hops) bin (store u p (k, v))) here_hops p bin
        (suc here_hops)
        (stored-Edited ht.table u bin here_hops (suc here_hops) p k v ready fits
          (omega (arith, room.high, fits)))
        room room.low (omega (arith, room.high)) (omega arith) (valid.bounded bin)

  -- the second loop has found a free slot
  outside-Puts :
      (u : List Bucket) (p : ℕ × ℕ) (left : ℕ)
      → Alike ht.table u
      → left + here_hops ≤ max_expansions_hard
      → ((m : ℕ) → (m < bin) ⊎ (p.0 < m) → lock_at u m ≡ lock_free)
      → IsRoom ht.table (bin + suc here_hops) left p
      → Puts ht k v (
        stored (ltb max_expansions (p.0 - bin)),
        record ht {
          table =
              lock_release_n (suc (p.0 - bin)) bin (store (set_hops u bin (p.0 - bin)) p (k, v));
        },
      )
  outside-Puts u p left x limit free room =
      let n = p.0 - bin in
      let fits : bin + suc n ≤ length ht.table =
        omega (arith, bin-lt, valid.sized, room.low, room.high, limit) in
      let ready =
        set_hops-Ready ht.table u bin n (suc n) x (omega (arith, bin-lt, valid.sized)) (λ m o.
          elim o [ inl l ↦ free m (inl l) | inr l ↦ free m (inr (omega (arith, l, room.low))) ]) in
      edited-Puts (lock_release_n (suc n) bin (store (set_hops u bin n) p (k, v))) n p
        (bin + suc here_hops) left
        (stored-Edited ht.table (set_hops u bin n) bin n (suc n) p k v ready fits
          (omega (arith, fits, room.low)))
        room (omega (arith, room.low)) (omega (arith, room.low)) (omega (arith, room.low))
        (omega (arith, room.low, room.high, limit))

  -- no slot is free up to the hard limit
  full-Puts :
      (u : List Bucket) (left : ℕ)
      → Alike ht.table u
      → left + here_hops ≡ max_expansions_hard
      → ((m : ℕ) → (m < bin) ⊎ (bin + (suc here_hops + left) ≤ m) → lock_at u m ≡ lock_free)
      → Full ht.table bin (suc here_hops)
      → Full ht.table (bin + suc here_hops) left
      → Puts ht k v (full, record ht { table = lock_release_n (suc here_hops + left) bin u })
  full-Puts u left x limit free first second =
      let (y, unlocked) =
        lock_release_n-free (suc here_hops + left) bin u
          (omega (arith, x.size, bin-lt, valid.sized, limit)) free in
      let w = lock_release_n (suc here_hops + left) bin u in
      let z = Alike-trans ht.table u w x y in
      asks (record ht { table = w }) gone (Alike-IsValid ht valid w z unlocked)
        (λ m low high. elim (Bool-cases (ltb m (bin + suc here_hops))) [
          | inl e ↦ first m low (ltb→lt m (bin + suc here_hops) e)
          | inr e ↦ second m (ground arith) (omega (arith, high, limit))
        ])
        (Alike-view ht valid w z)

  abbrev answered : Answer × List Bucket → Answer × Hashtable
  answered r = (r.0, record ht { table = r.1 })

  -- the second loop has ended
  overflowed-Puts :
      (t u : List Bucket) (o : Option (ℕ × ℕ))
      → Scanned ht.table bin (suc here_hops) none none t
      → Freed t (bin + suc here_hops) (max_expansions_hard - here_hops) o u
      → Puts ht k v (answered (overflowed bin here_hops (k, v) o u))
  unfolding overflowed
  overflowed-Puts t u (some p) s f =
      let (room, beyond) = f.room p refl in
      let room' : IsRoom ht.table (bin + suc here_hops) (max_expansions_hard - here_hops) p =
        record {
          low = room.low;
          high = room.high;
          old = room.old;
          empty = ap (λ xs. get_elem? xs p.1) (sym (s.alike.slots p.0)) ∙ room.empty;
        } in
      outside-Puts u p (max_expansions_hard - here_hops) (Alike-trans ht.table t u s.alike f.alike)
        (omega (arith, valid.bounded bin))
        (λ m o. elim o [
          | inl l ↦ f.low m (omega (arith, l)) ∙ s.locks m (inl l) ∙ valid.free m
          | inr l ↦ beyond m l ∙ s.locks m (inr (omega (arith, l, room.low))) ∙ valid.free m
        ])
        room'
  overflowed-Puts t u none s f =
      let (second, beyond) = f.full refl in
      full-Puts u (max_expansions_hard - here_hops) (Alike-trans ht.table t u s.alike f.alike)
        (omega (arith, valid.bounded bin))
        (λ m o. elim o [
          | inl l ↦ f.low m (omega (arith, l)) ∙ s.locks m (inl l) ∙ valid.free m
          | inr l ↦ beyond m (omega (arith, l)) ∙ s.locks m (inr (omega (arith, l))) ∙ valid.free m
        ])
        (s.full refl).1 (λ m low high. ap (count 0) (sym (s.alike.slots m)) ∙ second m low high)

  -- the first loop has ended without the key
  scanned-Puts :
      (t : List Bucket) (r : Option (ℕ × ℕ))
      → Scanned ht.table bin (suc here_hops) none r t
      → Returns
          (scanned bin here_hops (k, v) (vacant r) t >>= (λ w. done (answered w)))
          (Puts ht k v)
  unfolding scanned
  scanned-Puts t (some p) s = (
    answered (
      stored (ltb max_expansions here_hops),
      lock_release_n (suc here_hops) bin (store t p (k, v)),
    ),
    refl,
    inside-Puts t p s.alike (λ m o. s.locks m o ∙ valid.free m)
        (elim (s.room p refl) [ inl e ↦ absurd (ground arith) | inr room ↦ room ]),
  )
  scanned-Puts t none s =
      let (o, u, run, f) =
        free_from-Freed (max_expansions_hard - here_hops) t (bin + suc here_hops)
          (omega (arith, s.alike.size, bin-lt, valid.sized, valid.bounded bin))
          (λ m low. s.locks m (inr low) ∙ valid.free m) in
      (answered (overflowed bin here_hops (k, v) o u), rw run refl, overflowed-Puts t u o s f)

  -- `clht_put` from its loops on, at the first bucket
  abbrev looped : Bucket → Outcome (Answer × Hashtable)
  looped b =
      scan_from (suc b.hops) k 0 none ht.table bin
      >>= (λ x. scanned bin b.hops (k, v) x.0 x.1 >>= (λ w. done (answered w)))

  looped-Puts : Returns (looped (bucket_at ht.table bin)) (Puts ht k v)
  unfolding view
  looped-Puts =
      let (r, t, run, s) =
        scan_from-Scanned (suc here_hops) k 0 none ht.table bin fits (λ m low. valid.free m) gone in
      rw run (scanned-Puts t r s)

  unbound-Puts : Returns (put_table ht k v) (Puts ht k v)
  unfolding put_table
  unbound-Puts =
      let missing : bucket_exists ht k ≡ done false =
        bucket_exists-view ht k valid ∙ ap (λ o. done (is_some o)) gone in
      rw missing (
        subst (λ o. Returns (o >>= looped) (Puts ht k v))
          (sym (at-bucket_at ht.table bin (omega (arith, fits)))) looped-Puts)

-- A put of a key that is not 0 into a valid table reaches, up to its calls of `ht_status`, one of three
-- ends: it leaves a table that binds the key as it was; else it binds the key and no other one anew, in
-- a table that is valid again, which overflows into further buckets where the key's own window is full,
-- and calls `ht_status` then exactly where that window has more than CLHT_LINKED_MAX_EXPANSIONS hops;
-- or, where the bucket of the key and the CLHT_LINKED_MAX_EXPANSIONS_HARD ones behind it have no empty
-- slot, it stores nothing, leaves a valid table with the same bindings, and calls `ht_status`. What
-- `ht_status` does is not stated.
pub put_table-Puts :
    (ht : Hashtable) (k v : ℕ) → IsValid ht → k ≢ 0 → Returns (put_table ht k v) (Puts ht k v)
unfolding put_table
put_table-Puts ht k v valid nonzero = elim (Option-cases (view ht k)) [
  | inl gone ↦ unbound-Puts ht k v valid nonzero gone
  | inr (w, e) ↦
      let found : bucket_exists ht k ≡ done true =
        bucket_exists-view ht k valid ∙ ap (λ o. done (is_some o)) e in
      ((already, ht), rw found refl, finds w e)
]
