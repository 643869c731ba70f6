-- ===== src/LbRes/Resize/Expands.antt =====
-- How often the copy expands a chain: three slots are in use for each overflow bucket, so that the
-- new table asks for another resize only while it is small for its bindings.
use clht.Prelude.{
  ℕ, suc, ◌+◌, ◌*◌, ◌-◌, ◌≤◌, ◌≡◌, ◌≢◌, refl, ap, none, some, [], ◌∷◌, length, length-append,
  length-set, set, arith,
}
use clht.Slots.{Slot}
use clht.Slots.Laws.{count-set}
use clht.LbRes.Bucket.{Bucket, Chain, last, link, walk, empty_in_chain, store, append_bucket, hops}
use clht.LbRes.Bucket.Edit.{walk-store, walk-append_bucket}
use clht.LbRes.Bucket.Search.{empty_in_chain-some, empty_in_chain-none}
use clht.LbRes.Table.{size_slots, size_chain}
use clht.LbRes.Table.Counting.{size_slots-append, size_slots-count, size_chain-walk}

-- Every bucket has three slots, and a chain has three slots in use for each overflow bucket.
pub record IsTight (c : Chain) : Type 0 where
  pub wide : length (walk c) ≡ 3 * suc (hops c)
  pub used : 3 * hops c ≤ size_chain c

hops-store : (c : Chain) (p : ℕ) (s : Slot) → hops (store c p s) ≡ hops c
unfolding hops store
hops-store (last b) p s = refl
hops-store (link b c) p s = ground (arith, hops-store c (p - length b.slots) s)

hops-append_bucket : (c : Chain) (b : Bucket) → hops (append_bucket c b) ≡ suc (hops c)
unfolding hops append_bucket
hops-append_bucket (last b) new = refl
hops-append_bucket (link b c) new = ap suc (hops-append_bucket c new)

-- `new` has one more slot in use than `old` and `more` overflow buckets more.
pub record Adds (more : ℕ) (old new : Chain) : Type 0 where
  pub tight : IsTight new
  pub hops_more : hops new ≡ hops old + more
  pub size_more : size_chain new ≡ suc (size_chain old)

module _ (c : Chain) (k v : ℕ) (nonzero : k ≢ 0) (tight : IsTight c) where
  pub store-Adds : (p : ℕ) → empty_in_chain 0 c ≡ some p → Adds 0 c (store c p (k, v))
  store-Adds p e =
      let at_p = empty_in_chain-some c p e in
      let written : walk (store c p (k, v)) ≡ set (walk c) at_p.place (k, v) =
        rw (walk-store, at_p.at_place) (ap (λ i. set (walk c) i (k, v)) (omega arith)) in
      let wide : length (walk (store c p (k, v))) ≡ 3 * suc (hops (store c p (k, v))) =
        rw (written, length-set, hops-store) tight.wide in
      let grown : size_chain (store c p (k, v)) ≡ suc (size_chain c) =
        rw (size_chain-walk, size_chain-walk, written)
          (ground (
            arith,
            size_slots-count (set (walk c) at_p.place (k, v)),
            size_slots-count (walk c),
            length-set (walk c) at_p.place (k, v),
            count-set 0 (walk c) at_p.place 0 at_p.old k v at_p.empty,
          )) in
      record {
        tight = record { wide = wide; used = omega (arith, hops-store c p (k, v), tight.used) };
        hops_more = omega (arith, hops-store c p (k, v));
        size_more = grown;
      }

  pub append_bucket-Adds :
      (words : ℕ → ℕ) (new : Bucket)
      → new.slots ≡ (k, v) ∷ (0, words 1) ∷ (0, words 2) ∷ []
      → empty_in_chain 0 c ≡ none
      → Adds 1 c (append_bucket c new)
  unfolding size_slots
  append_bucket-Adds words new slots e =
      let full = empty_in_chain-none c e in
      let wide : length (walk (append_bucket c new)) ≡ 3 * suc (hops (append_bucket c new)) =
        rw (walk-append_bucket, length-append, slots, hops-append_bucket)
          (omega (arith, tight.wide)) in
      let grown : size_chain (append_bucket c new) ≡ suc (size_chain c) =
        rw (size_chain-walk, size_chain-walk, walk-append_bucket, size_slots-append, slots)
          (ground arith) in
      record {
        tight = record {
          wide = wide;
          used = omega (
            arith,
            hops-append_bucket c new,
            tight.wide,
            size_slots-count (walk c),
            size_chain-walk c,
          );
        };
        hops_more = omega (arith, hops-append_bucket c new);
        size_more = grown;
      }
