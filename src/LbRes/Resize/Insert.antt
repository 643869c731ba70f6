-- ===== src/LbRes/Resize/Insert.antt =====
-- The whole of `clht_put`, with the resize that an expansion may ask for.
use clht.Prelude.{
  ℕ, suc, ◌+◌, ◌^◌, ◌<◌, ◌≤◌, ◌≡◌, ◌≢◌, refl, sym, ◌∙◌, if◌then◌else◌, Bool, true, false, Returns,
  Bool-cases, inl, inr, arith,
}
use clht.LbRes.Bucket.{is_none}
use clht.LbRes.Table.{Memory, size_bins}
use clht.LbRes.Table.Invariant.{view}
use clht.LbRes.Table.Writes.{update}
use clht.LbRes.Table.Insert.{kept_or, put_table-Puts}
use clht.LbRes.Resize.{Clht, put}
use clht.LbRes.Resize.Status.{Supply, Ready, status-Keeps}

-- A correct end of `put k v` on `h`.
pub record Inserts (h : Clht) (k v : ℕ) (r : Bool × Clht) : Type 0 where
  pub returned : r.0 ≡ is_none (view h.ht k)
  pub ready : Ready r.1
  pub used : size_bins r.1.ht.table ≡ size_bins h.ht.table + (if r.0 then 1 else 0)
  pub views : (q : ℕ) → q ≢ 0 → view r.1.ht q ≡ update (view h.ht) k (kept_or (view h.ht k) v) q

module _ (mem : Memory) (supply : Supply mem) where
  -- `clht_put` of a key that is not 0 returns, with the memory supplied, on a ready handle whose
  -- table has not 7 buckets, but fewer than 2 ^ 31 of them, and fewer than 2 ^ 30 - 1 bindings, also
  -- where it resizes, any number of times: it answers whether the key was unbound, binds it then, keeps a binding that
  -- is there, and leaves the other keys alone. The size grows by one where it inserts, the handle is
  -- ready again, and f + 1 nested calls of `ht_status` are enough for fewer than 2 ^ f - 1
  -- bindings.
  pub put-Inserts :
      (f : ℕ) (h : Clht) (k v : ℕ)
      → Ready h
      → k ≢ 0
      → h.ht.num_buckets ≢ 7
      → h.ht.num_buckets < 2 ^ 31
      → suc (size_bins h.ht.table) < 2 ^ 30
      → suc (size_bins h.ht.table) < 2 ^ f
      → Returns (put (suc f) mem h k v) (Inserts h k v)
  unfolding put
  put-Inserts f h k v ready nonzero odd few small fuel =
      let (r, run, p) =
        put_table-Puts mem h.ht k v ready.valid nonzero (supply.buckets h.ht.num_expands) in
      let more : size_bins r.ht.table ≤ suc (size_bins h.ht.table) = ground (arith, p.used) in
      let h' = record h { ht = r.ht } in
      elim (Bool-cases r.resize) [
        | inr e ↦
            rw (run, e)
              (
                (r.result, h'),
                refl,
                record {
                  returned = p.returned;
                  ready = record { valid = p.valid; free = ready.free };
                  used = p.used;
                  views = p.views;
                },
              )
        | inl e ↦
            let (t, ran, s) =
              status-Keeps mem supply f h' true false
                (record { valid = p.valid; free = ready.free }) (λ seven. odd (sym p.size ∙ seven))
                (omega (arith, p.size)) (omega arith) (omega arith) in
            rw (run, e, ran)
              (
                (r.result, t.1),
                refl,
                record {
                  returned = p.returned;
                  ready = record { valid = s.valid; free = s.free };
                  used = s.size ∙ p.used;
                  views = λ q nz. s.views q nz ∙ p.views q nz;
                },
              )
      ]
