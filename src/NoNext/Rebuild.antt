-- ===== src/NoNext/Rebuild.antt =====
-- `ht_resize_pes` of src/clht_lb_res_no_next.c: a table that grows by a power of two keeps its bindings.
use mathlib.Core.Path.{subst}
use clht.Prelude.{
  ℕ, zero, suc, ◌+◌, ◌%◌, ◌^◌, ◌<◌, ◌≡◌, ◌≢◌, refl, sym, ◌∙◌, ◌==◌, bit_and, true, none, replicate,
  done, done_injective, Returns, Bool-cases, inl, inr, ==→eq, ==→ne, arith,
}
use clht.Words.{bit_and_mask-low}
use clht.LbRes.Table.{Hashtable, Memory, hash_of, cleared, size_bins}
use clht.LbRes.Table.Invariant.{IsValid, view}
use clht.LbRes.Table.Create.{hashtable_create-IsNew}
use clht.LbRes.Resize.Rebuild as Whole
use clht.LbRes.Resize.Rebuild.{
  flat, locked, Rebuilt, copied, copied-Rebuilt, versioned, view-versioned, versioned-IsValid,
  flat-view,
}
use clht.NoNext.{rebuild}
use clht.NoNext.Single.{Singles}
use clht.NoNext.Room.{granting, granting-Plenty}
use clht.NoNext.Spread.{Spread, copy_bins-flat, copy_slots-Spread}

pub cleared-Singles : (n : ℕ) → Singles (replicate n cleared)
cleared-Singles zero i l = absurd (omega (arith, l))
cleared-Singles (suc n) zero l = refl
cleared-Singles (suc n) (suc i) l = cleared-Singles n i (omega (arith, l))

-- a correct end of a rebuild, with buckets that have no links
pub record Grown (old : Hashtable) (n : ℕ) (r : Hashtable × Hashtable) : Type 0 where
  pub rebuilt : Rebuilt old n r
  pub singles : Singles r.1.table

module _ (old : Hashtable) (valid : IsValid old) (singles : Singles old.table) where
  -- the new table before the copy
  start-Spread :
      (a j v : ℕ) (new : Hashtable)
      → old.num_buckets ≡ 2 ^ a
      → new.num_buckets ≡ 2 ^ (a + j)
      → IsValid new
      → Singles new.table
      → ((q : ℕ) → q ≢ 0 → view new q ≡ none)
      → Spread old.hash 0 old.table (versioned new v)
  unfolding hash_of versioned
  start-Spread a j v new e f fresh alone none_bound = record {
    valid = versioned-IsValid new v fresh;
    singles = alone;
    apart = record {
      once = λ q nz. (flat-view old valid q nz).1;
      unbound = λ q nz h. view-versioned new v q ∙ none_bound q nz;
    };
    alone = singles;
    home = λ q i nz h. elim (Bool-cases (bit_and q old.hash == i)) [
      | inl same ↦ omega (arith, ==→eq _ _ same)
      | inr away ↦ absurd (omega (arith, h, valid.placed.home q i nz (==→ne _ _ away)))
    ];
    before = λ q nz h. absurd (h (view-versioned new v q ∙ none_bound q nz));
    finer =
        λ q r same. rw (valid.masked, e) (bit_and_mask-low q r a j (rw (fresh.masked, f) at same));
  }

  -- A rebuild of a valid table of 2 ^ a buckets, none of which has a link, into one of 2 ^ (a + j), below 2 ^ 32,
  -- returns, where memory is granted and there are fewer than 2 ^ 32 bindings: the new table is
  -- valid, has no links and binds what the old one did, no binding being dropped for want of room,
  -- and the old table is left with its buckets locked for the resize and nothing else changed.
  pub rebuild-Grown :
      (mem : Memory) (a j : ℕ)
      → old.num_buckets ≡ 2 ^ a
      → 0 < 2 ^ (a + j)
      → 2 ^ (a + j) < 2 ^ 32
      → size_bins old.table < 2 ^ 32
      → mem.has_struct (2 ^ (a + j)) ≡ true
      → mem.has_table (2 ^ (a + j)) ≡ true
      → Returns (rebuild mem old (2 ^ (a + j))) (Grown old (2 ^ (a + j)))
  unfolding rebuild versioned
  rebuild-Grown mem a j e positive few small s t =
      let n = 2 ^ (a + j) in
      let mem' = record mem { bucket = granting.bucket } in
      let (new, made, fresh) = hashtable_create-IsNew mem n positive s t in
      let alone : Singles new.table = rw fresh.table (cleared-Singles n) in
      let spread =
        start-Spread a j ((old.version + 1) % 2 ^ 64) new e fresh.size fresh.valid alone
          fresh.views in
      let (w, run, z) =
        copy_slots-Spread old.hash 0 old.table (versioned new ((old.version + 1) % 2 ^ 64))
          spread in
      let start = versioned new ((old.version + 1) % 2 ^ 64) in
      let (r', run', built) = copied-Rebuilt old valid mem' granting-Plenty n few small new fresh in
      let both : copied mem' old start ≡ done (record old { table = locked old.table }, w) = rw (
        ← valid.sized,
        Whole.copy_bins-flat mem' old.table (versioned new ((old.version + 1) % 2 ^ 64))
            valid.placed.unlocked,
        z.same mem',
      ) in
      (
        (record old { table = locked old.table }, w),
        rw (
          made,
          ← valid.sized,
          copy_bins-flat old.table (versioned new ((old.version + 1) % 2 ^ 64))
              valid.placed.unlocked singles,
          run,
        ),
        record {
          rebuilt = subst (Rebuilt old n) (done_injective (sym run' ∙ both)) built;
          singles = z.singles;
        },
      )
