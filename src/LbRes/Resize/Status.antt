-- ===== src/LbRes/Resize/Status.antt =====
-- `ht_resize_pes` and `ht_status`: they end, and keep every binding.
use native.Mathlib.Nat.{pow-suc, mul-le-mul_right, mod-eq_of_lt}
use clht.Prelude.{
  ℕ, zero, suc, ◌*◌, ◌/◌, ◌^◌, ◌<◌, ◌≤◌, ◌≡◌, ◌≢◌, refl, ap, ◌∙◌, ◌==◌, ltb, leb, if◌then◌else◌,
  Bool, true, false, not, ◌&&◌, ◌||◌, Outcome, Returns, Bool-cases, inl, inr, arith,
}
use clht.LbRes.Bucket.{lock_free}
use clht.LbRes.Table.{Hashtable, Memory, size_bins}
use clht.LbRes.Table.Invariant.{IsValid, view}
use clht.LbRes.Table.Size.{size-size_bins}
use clht.LbRes.Resize.{
  Clht, new_size, swapped, resize_pes, expands_max, Decision, keep, shrink, grow, increase, decide,
  act, status,
}
use clht.LbRes.Resize.Copy.{Plenty}
use clht.LbRes.Resize.Tally.{AllTight-used}
use clht.LbRes.Resize.Rebuild.{rebuild-Rebuilt}
use clht.LbRes.Resize.Sizes.{increase_bounds}

-- Memory for every request.
pub record Supply (mem : Memory) : Type 0 where
  pub buckets : Plenty mem
  pub structs : (n : ℕ) → mem.has_struct n ≡ true
  pub tables : (n : ℕ) → mem.has_table n ≡ true

-- `h` is valid, free for the next resize, and binds what `ht` binds.
pub record Keeps (ht : Hashtable) (h : Clht) : Type 0 where
  pub valid : IsValid h.ht
  pub free : h.resize_lock ≡ lock_free
  pub views : (q : ℕ) → q ≢ 0 → view h.ht q ≡ view ht q
  pub size : size_bins h.ht.table ≡ size_bins ht.table

-- The handle is ready: its table is valid and no thread resizes it.
pub record Ready (h : Clht) : Type 0 where
  pub valid : IsValid h.ht
  pub free : h.resize_lock ≡ lock_free

Keeps-trans : {a : Hashtable} {b c : Clht} → Keeps a b → Keeps b.ht c → Keeps a c
Keeps-trans x y = record {
  valid = y.valid;
  free = y.free;
  views = λ q nz. y.views q nz ∙ x.views q nz;
  size = y.size ∙ x.size;
}

-- What `ht_resize_pes` asks of its call of `ht_status`, for a table of `n` buckets and `m` slots in
-- use that needed `n` overflow buckets.
abbrev KeepsAgain : ℕ → ℕ → (Clht → Outcome (ℕ × Clht)) → Type 0
KeepsAgain n m again =
    (g : Clht)
    → Ready g
    → g.ht.num_buckets ≡ n
    → size_bins g.ht.table ≡ m
    → 3 * n ≤ m
    → Returns (again g) (λ r. Keeps g.ht r.1)

module _ (mem : Memory) (supply : Supply mem) where
  resize_pes-Keeps :
      (again : Clht → Outcome (ℕ × Clht)) (h : Clht) (is_increase : Bool) (by n : ℕ)
      → Ready h
      → new_size h.ht is_increase by ≡ n
      → 0 < n
      → h.ht.num_buckets < 2 ^ 31
      → n < 2 ^ 32
      → size_bins h.ht.table < 2 ^ 32
      → KeepsAgain n (size_bins h.ht.table) again
      → Returns (resize_pes mem again h is_increase by) (λ r. (r.0 ≡ true) × Keeps h.ht r.1)
  unfolding resize_pes
  resize_pes-Keeps again h is_increase by n ready sized some_bucket indexed few small more =
      let (r, run, b) =
        rebuild-Rebuilt h.ht ready.valid mem supply.buckets n some_bucket indexed few small
          (supply.structs n) (supply.tables n) in
      let h' = swapped h r in
      let kept : Keeps h.ht h' = record {
        valid = b.valid;
        free = refl;
        views = b.views;
        size = b.tally.total;
      } in
      rw (ready.free, sized, run)
        (elim (Bool-cases (leb r.1.num_expands_threshold r.1.num_expands)) [
          | inr e ↦ rw e ((true, h'), refl, (refl, kept))
          | inl e ↦
              let crowded : 3 * n ≤ size_bins h.ht.table = ground (
                arith,
                AllTight-used r.1.table b.tally.tight,
                b.tally.counted,
                b.tally.total,
                b.threshold,
              ) in
              let (t, ran, k) =
                more h' (record { valid = b.valid; free = refl }) b.size b.tally.total crowded in
              rw (e, ran) ((true, t.1), refl, (refl, Keeps-trans kept k))
        ])

  -- A table with three slots in use for each bucket can only grow.
  decide-grow : (n m e : ℕ) → 0 < n → 3 * n ≤ m → decide n m e true ≡ grow (increase n m)
  unfolding decide
  decide-grow n m e pos full = ground arith

  new_size-grow :
      (ht : Hashtable) (m : ℕ)
      → 0 < ht.num_buckets
      → ht.num_buckets < 2 ^ 31
      → m < 2 ^ 30
      → new_size ht true (increase ht.num_buckets m) ≡ increase ht.num_buckets m * ht.num_buckets
  new_size-grow ht m pos few small =
      mod-eq_of_lt (omega (arith, (increase_bounds ht.num_buckets m pos few small).1))

  locks : (b : Bool) → (b && false) ≡ false
  locks true = refl
  locks false = refl

  -- Each further resize doubles the table, and more bindings than buckets remain: the resizes end.
  status-again :
      (f : ℕ) (h : Clht)
      → Ready h
      → h.ht.num_buckets < 2 ^ 31
      → size_bins h.ht.table < 2 ^ 30
      → size_bins h.ht.table < h.ht.num_buckets * 2 ^ f
      → 3 * h.ht.num_buckets ≤ size_bins h.ht.table
      → Returns (status f mem h true false) (λ r. Keeps h.ht r.1)
  unfolding status act
  status-again zero h ready few small fuel full = absurd (omega (arith, ready.valid.some_bucket))
  status-again (suc f) h ready few small fuel full =
      let n = h.ht.num_buckets in
      let m = size_bins h.ht.table in
      let b = increase_bounds n m ready.valid.some_bucket few small in
      let wider : n * 2 * 2 ^ f ≤ increase n m * n * 2 ^ f =
        mul-le-mul_right (2 ^ f) (omega (arith, b.0)) in
      let left : m < n * 2 * 2 ^ f = omega (arith, ap (λ t. n * t) (pow-suc 2 f)) in
      let (t, ran, k) =
        resize_pes-Keeps (λ g. status f mem g true false) (record h { status_lock = 0xff }) true
          (increase n m) (increase n m * n) (record { valid = ready.valid; free = ready.free })
          (new_size-grow h.ht m ready.valid.some_bucket few small)
          (omega (arith, ready.valid.some_bucket, b.0)) few b.1 (omega arith)
          (λ g r sized used more.
            status-again f g r (omega arith) (omega arith)
              (rw (used, sized) (omega (arith, left, wider))) (omega arith)) in
      rw
        (
          locks (not (h.status_lock == lock_free)),
          size-size_bins h.ht ready.valid,
          decide-grow n m (expands_max h.ht.table) ready.valid.some_bucket full,
          ran,
        )
        (_, refl, record { valid = k.1.valid; free = k.1.free; views = k.1.views; size = k.1.size })

  again-Keeps :
      (f n m : ℕ) → m < 2 ^ 30 → 0 < n → m < 2 ^ f → KeepsAgain n m (λ g. status f mem g true false)
  again-Keeps f n m small pos fuel g r sized used more =
      let wide : 1 * 2 ^ f ≤ n * 2 ^ f = mul-le-mul_right (2 ^ f) pos in
      status-again f g r (omega arith) (omega arith) (rw (used, sized) (omega (arith, wide)))
        (omega arith)

  -- what a decision of `ht_status` says of the sizes
  abbrev Sane : ℕ → ℕ → Decision → Type 0
  Sane n m keep = Unit
  Sane n m shrink = 8 ≤ n
  Sane n m (grow by) = by ≡ increase n m

  decide-Sane : (n m e : ℕ) (inc : Bool) → n ≢ 7 → Sane n m (decide n m e inc)
  unfolding decide
  decide-Sane n m e inc odd = elim (Bool-cases (ltb 0 m && ltb (100 * m) (5 * (n * 3)))) [
    | inl t ↦ rw t (ground arith)
    | inr t ↦ rw t (elim (Bool-cases (ltb (50 * (n * 3)) (100 * m) || ltb 24 e || inc)) [
      | inl u ↦ rw u
      | inr u ↦ rw u tt
    ])
  ]

  act-Keeps :
      (f : ℕ) (h : Clht) (d : Decision)
      → Ready h
      → h.ht.num_buckets < 2 ^ 31
      → size_bins h.ht.table < 2 ^ 30
      → size_bins h.ht.table < 2 ^ f
      → Sane h.ht.num_buckets (size_bins h.ht.table) d
      → Returns (act mem (λ g. status f mem g true false) h d) (λ r. (r.0 ≡ true) × Keeps h.ht r.1)
  unfolding act
  act-Keeps f h keep ready few small fuel sane = (
    (true, h),
    refl,
    (refl, record { valid = ready.valid; free = ready.free; views = λ q nz. refl; size = refl }),
  )
  act-Keeps f h shrink ready few small fuel sane =
      let n = h.ht.num_buckets / 8 in
      resize_pes-Keeps (λ g. status f mem g true false) h false 33 n ready refl (omega arith) few
        (omega arith) (omega arith)
        (again-Keeps f n (size_bins h.ht.table) small (omega arith) fuel)
  act-Keeps f h (grow by) ready few small fuel sane =
      let n = h.ht.num_buckets in
      let m = size_bins h.ht.table in
      let b = increase_bounds n m ready.valid.some_bucket few small in
      let pos : 0 < increase n m * n = omega (arith, ready.valid.some_bucket, b.0) in
      rw sane (
        resize_pes-Keeps (λ g. status f mem g true false) h true (increase n m) (increase n m * n)
          ready (new_size-grow h.ht m ready.valid.some_bucket few small) pos few b.1 (omega arith)
          (again-Keeps f (increase n m * n) m small pos fuel))

  -- the decision that `ht_status` acts on
  abbrev chosen : Hashtable → Bool → Bool → Decision
  chosen ht resize_increase just_print =
      if just_print
      then keep
      else decide ht.num_buckets (size_bins ht.table) (expands_max ht.table) resize_increase

  chosen-Sane :
      (ht : Hashtable) (inc just : Bool)
      → ht.num_buckets ≢ 7
      → Sane ht.num_buckets (size_bins ht.table) (chosen ht inc just)
  chosen-Sane ht inc true odd = tt
  chosen-Sane ht inc false odd =
      decide-Sane ht.num_buckets (size_bins ht.table) (expands_max ht.table) inc odd

  -- `ht_status` returns, with the memory supplied, on a ready handle whose table has not 7 buckets,
  -- but fewer than 2 ^ 31 of them, and fewer than 2 ^ 30 bindings: whatever resizes it makes, the handle is ready
  -- again and no binding is lost or added. Where there are fewer than 2 ^ f bindings, f + 1 nested
  -- calls are enough.
  pub status-Keeps :
      (f : ℕ) (h : Clht) (inc just : Bool)
      → Ready h
      → h.ht.num_buckets ≢ 7
      → h.ht.num_buckets < 2 ^ 31
      → size_bins h.ht.table < 2 ^ 30
      → size_bins h.ht.table < 2 ^ f
      → Returns (status (suc f) mem h inc just) (λ r. Keeps h.ht r.1)
  unfolding status
  status-Keeps f h inc just ready odd few small fuel =
      elim (Bool-cases (not (h.status_lock == lock_free) && not inc)) [
        | inl e ↦ rw e (
          (0, h),
          refl,
          record { valid = ready.valid; free = ready.free; views = λ q nz. refl; size = refl },
        )
        | inr e ↦
            let (t, ran, k) =
              act-Keeps f (record h { status_lock = 0xff }) (chosen h.ht inc just)
                (record { valid = ready.valid; free = ready.free }) few small fuel
                (chosen-Sane h.ht inc just odd) in
            rw (e, size-size_bins h.ht ready.valid, ran)
              (
                _,
                refl,
                record { valid = k.1.valid; free = k.1.free; views = k.1.views; size = k.1.size },
              )
      ]
