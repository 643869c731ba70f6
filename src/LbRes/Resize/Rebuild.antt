-- ===== src/LbRes/Resize/Rebuild.antt =====
-- The loop of `ht_resize_pes` over the buckets, and the table that it builds.
use mathlib.Core.Path.{fun_ext, subst}
use clht.Prelude.{
  ℕ, zero, suc, ◌+◌, ◌%◌, ◌^◌, ◌<◌, ◌≤◌, ◌≡◌, ◌≢◌, refl, ◌∙◌, ltb, true, List, [], ◌∷◌, ◌++◌,
  length, Outcome, done, ◌>>=◌, >>=-assoc, Returns, arith, bit_and,
}
use clht.Slots.{Slot, find, count}
use clht.Slots.Laws.{find-eq-none, find-append, count-append}
use clht.LbRes.Bucket.{Chain, walk, lock_of, lock_free, lock_resize, with_lock}
use clht.LbRes.Table.{Hashtable, Memory, size_slots, size_bins}
use clht.LbRes.Table.Invariant.{chain_at, reads, IsValid, view}
use clht.LbRes.Table.Create.{IsNew, hashtable_create-IsNew}
use clht.LbRes.Resize.{copy_slots, bucket_cpy, copy_bins, copy_table, rebuild}
use clht.LbRes.Table.Counting.{size_slots-append, size_chain-walk}
use clht.LbRes.Resize.Tally.{Tally, IsNew-Tally, copy_slots-Filled}
use clht.LbRes.Resize.Copy.{Plenty, Apart, copy_slots-Copied, copy_slots-append, copy_chain-walk}

-- all the slots of a table, bucket by bucket
unfoldable pub flat : List Chain → List Slot
flat [] = []
flat (c ∷ cs) = walk c ++ flat cs

abbrev pub locked : List Chain → List Chain
locked [] = []
locked (c ∷ cs) = with_lock lock_resize c ∷ locked cs

count-flat_nowhere :
    (q : ℕ) (cs : List Chain)
    → ((i : ℕ) → count q (walk (chain_at cs i)) ≡ 0)
    → count q (flat cs) ≡ 0
unfolding flat count
count-flat_nowhere q [] h = refl
count-flat_nowhere q (c ∷ cs) h =
    rw count-append (omega (arith, h 0, count-flat_nowhere q cs (λ i. h (suc i))))

-- A key that only bucket `j` has is read from the whole table as from that bucket.
flat_only :
    (q : ℕ) (cs : List Chain) (j : ℕ)
    → ((i : ℕ) → j ≢ i → count q (walk (chain_at cs i)) ≡ 0)
    → (find q (flat cs) ≡ find q (walk (chain_at cs j)))
      × (count q (flat cs) ≡ count q (walk (chain_at cs j)))
unfolding flat
flat_only q [] j h = unfold find count walk in (refl, refl)
flat_only q (c ∷ cs) zero h =
    let rest = count-flat_nowhere q cs (λ i. h (suc i) (omega arith)) in
    simp (find-append, count-append, rest, find-eq-none q (flat cs) rest) (ground arith)
flat_only q (c ∷ cs) (suc j) h =
    let here = h 0 (omega arith) in
    let t = flat_only q cs j (λ i away. h (suc i) (omega arith)) in
    simp (find-append, count-append, here, find-eq-none q (walk c) here) (t.0, omega arith)

abbrev pub with_table : List Chain → Hashtable → Outcome (List Chain × Hashtable)
with_table cs new = done (cs, new)

abbrev pub joined : Chain → List Chain × Hashtable → Outcome (List Chain × Hashtable)
joined c r = done (c ∷ r.0, r.1)

module _ (mem : Memory) where
  bucket_cpy-free :
      (c : Chain) (new : Hashtable)
      → lock_of c ≡ lock_free
      → bucket_cpy mem c new
        ≡ copy_slots mem (walk c) new >>= (λ new'. done (with_lock lock_resize c, new'))
  unfolding bucket_cpy
  bucket_cpy-free c new free = rw (free, copy_chain-walk)

  rest :
      (c : Chain) (cs : List Chain)
      → ((new : Hashtable)
          → copy_bins mem (length cs) cs new
            ≡ copy_slots mem (flat cs) new >>= with_table (locked cs))
      → (new : Hashtable)
      → copy_bins mem (length cs) cs new >>= joined (with_lock lock_resize c)
        ≡ copy_slots mem (flat cs) new >>= with_table (locked (c ∷ cs))
  rest c cs ih new = rw (ih new, >>=-assoc)

  pub copy_bins-flat :
      (cs : List Chain) (new : Hashtable)
      → ((i : ℕ) → lock_of (chain_at cs i) ≡ lock_free)
      → copy_bins mem (length cs) cs new ≡ copy_slots mem (flat cs) new >>= with_table (locked cs)
  unfolding copy_bins flat
  copy_bins-flat [] new free = unfold copy_slots in refl
  copy_bins-flat (c ∷ cs) new free = rw (
    bucket_cpy-free c new (free 0),
    copy_slots-append mem (walk c) (flat cs) new,
    >>=-assoc,
    >>=-assoc,
    fun_ext (rest c cs (λ n. copy_bins-flat cs n (λ i. free (suc i)))),
  )

-- the copy of all buckets into a table, and the old table as it is left
abbrev pub copied : Memory → Hashtable → Hashtable → Outcome (Hashtable × Hashtable)
copied mem old new =
    copy_bins mem old.num_buckets old.table new >>= (λ r. done (record old { table = r.0 }, r.1))

-- A correct end of a rebuild of `old` into `n` buckets.
pub record Rebuilt (old : Hashtable) (n : ℕ) (r : Hashtable × Hashtable) : Type 0 where
  pub size : r.1.num_buckets ≡ n
  pub version : r.1.version ≡ (old.version + 1) % 2 ^ 64
  pub valid : IsValid r.1
  pub views : (q : ℕ) → q ≢ 0 → view r.1 q ≡ view old q
  pub retired : r.0 ≡ record old { table = locked old.table }
  pub tally : Tally r.1 (size_bins old.table)
  pub threshold : r.1.num_expands_threshold ≡ n

unfoldable pub versioned : Hashtable → ℕ → Hashtable
versioned ht v = record ht { version = v }

pub view-versioned : (ht : Hashtable) (v q : ℕ) → view (versioned ht v) q ≡ view ht q
unfolding view versioned
view-versioned ht v q = refl

pub versioned-IsValid : (ht : Hashtable) (v : ℕ) → IsValid ht → IsValid (versioned ht v)
unfolding versioned
versioned-IsValid ht v i = record {
  some_bucket = i.some_bucket;
  sized = i.sized;
  masked = i.masked;
  placed = i.placed;
}

versioned-Tally : (ht : Hashtable) (v m : ℕ) → Tally ht m → Tally (versioned ht v) m
unfolding versioned
versioned-Tally ht v m t = record {
  inside = t.inside;
  tight = t.tight;
  counted = t.counted;
  total = t.total;
}

pub size_slots-flat : (cs : List Chain) → size_slots (flat cs) ≡ size_bins cs
unfolding flat size_slots size_bins
size_slots-flat [] = refl
size_slots-flat (c ∷ cs) =
    rw size_slots-append (omega (arith, size_slots-flat cs, size_chain-walk c))

module _ (old : Hashtable) (valid : IsValid old) where
  pub flat-view :
      (q : ℕ) → q ≢ 0 → (find q (flat old.table) ≡ view old q) × (count q (flat old.table) ≤ 1)
  unfolding view reads
  flat-view q nz =
      let t =
        flat_only q old.table (bit_and q old.hash) (λ i away. valid.placed.home q i nz away) in
      (t.0, omega (arith, t.1, valid.placed.once q (bit_and q old.hash) nz))

  -- The copy of a valid table into a new one.
  pub copied-Rebuilt :
      (mem : Memory)
      → Plenty mem
      → (n : ℕ) → n < 2 ^ 32
      → size_bins old.table < 2 ^ 32
      → (new : Hashtable) → IsNew n new
      → Returns (copied mem old (versioned new ((old.version + 1) % 2 ^ 64))) (Rebuilt old n)
  unfolding versioned
  copied-Rebuilt mem plenty n few small new fresh =
      let start = versioned new ((old.version + 1) % 2 ^ 64) in
      let apart : Apart start (flat old.table) = record {
        once = λ q nz. (flat-view q nz).1;
        unbound = λ q nz h. view-versioned new _ q ∙ fresh.views q nz;
      } in
      let (r, run, c) =
        copy_slots-Copied mem plenty (flat old.table) start (versioned-IsValid new _ fresh.valid)
          apart in
      let same = size_slots-flat old.table in
      let f =
        copy_slots-Filled mem (flat old.table) start 0 (versioned-Tally new _ 0 (IsNew-Tally fresh))
          (omega arith) r run in
      (
        (record old { table = locked old.table }, r),
        rw (← valid.sized, copy_bins-flat mem old.table start valid.placed.unlocked, run) refl,
        record {
          size = c.size ∙ fresh.size;
          version = c.version;
          valid = c.valid;
          views = λ q nz.
              c.views q nz
              ∙ rw (view-versioned new ((old.version + 1) % 2 ^ 64) q, fresh.views q nz)
                  ((flat-view q nz).0);
          retired = refl;
          tally = subst (Tally r) (omega arith) f.tally;
          threshold = f.threshold ∙ fresh.threshold few;
        },
      )

  -- A rebuild of a valid table of fewer than 2 ^ 31 buckets into one of any positive size below 2 ^ 32
  -- returns, where memory is supplied and there are fewer than 2 ^ 32 bindings: the new table is valid
  -- and binds what the old one did, its version is the next one, and the old table is left with its
  -- buckets locked for the resize and nothing else changed.
  pub rebuild-Rebuilt :
      (mem : Memory)
      → Plenty mem
      → (n : ℕ) → 0 < n
      → old.num_buckets < 2 ^ 31
      → n < 2 ^ 32
      → size_bins old.table < 2 ^ 32
      → mem.has_struct n ≡ true
      → mem.has_table n ≡ true
      → Returns (rebuild mem old n) (Rebuilt old n)
  unfolding rebuild copy_table versioned
  rebuild-Rebuilt mem plenty n some_bucket indexed few small s t =
      let (new, made, fresh) = hashtable_create-IsNew mem n some_bucket s t in
      let (r, run, built) = copied-Rebuilt mem plenty n few small new fresh in
      let fits : ltb old.num_buckets (2 ^ 31) ≡ true = ground arith in
      (r, rw (made, fits) run, built)
