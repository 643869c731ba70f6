-- ===== src/NoNext/Status.antt =====
-- `ht_status` of src/clht_lb_res_no_next.c: it grows the table by a power of two.
use native.Mathlib.Nat.{mul-le-mul_left, div-add-mod}
use clht.Prelude.{
  ℕ, zero, suc, ◌+◌, ◌*◌, ◌/◌, ◌%◌, ◌^◌, ◌<◌, ◌≤◌, ◌≡◌, ◌≢◌, refl, sym, ◌==◌, ltb, if◌then◌else◌,
  true, false, List, [], ◌∷◌, length, done, Returns, Bool-cases, inl, inr, arith,
}
use clht.Words.{pow_pos, pow_split, pow-le}
use clht.LbRes.Bucket.{Chain, walk}
use clht.LbRes.Table.{Memory, size_bins}
use clht.LbRes.Table.Counting.{size_slots-count, size_chain-walk}
use clht.LbRes.Table.Invariant.{IsValid, view}
use clht.LbRes.Resize.{Clht, pow2roundup, as_int}
use clht.NoNext.{size_from, size, increase, resize_pes, status}
use clht.NoNext.Single.{Singles, own-walk, length-walk}
use clht.NoNext.Rebuild.{rebuild-Grown}

size_from-size_bins :
    (cs : List Chain) → Singles cs → size_from (length cs) cs ≡ done (size_bins cs)
unfolding size_from size_bins
size_from-size_bins [] s = refl
size_from-size_bins (c ∷ cs) s =
    let alone = s 0 (omega arith) in
    rw (
      size_from-size_bins cs (λ i l. s (suc i) (omega (arith, l))),
      own-walk c alone,
      size_chain-walk,
    )

size_bins-le : (cs : List Chain) → Singles cs → size_bins cs ≤ 3 * length cs
unfolding size_bins
size_bins-le [] s = omega arith
size_bins-le (c ∷ cs) s = omega (
  arith,
  size_bins-le cs (λ i l. s (suc i) (omega (arith, l))),
  size_chain-walk c,
  size_slots-count (walk c),
  length-walk c (s 0 (omega arith)),
)

rounds :
    (x : ℕ)
    → x ≤ 5
    → (j : ℕ) × (j ≤ 2)
      × ((if as_int (pow2roundup x) == 1 then 2 else as_int (pow2roundup x)) ≡ 2 ^ suc j)
unfolding pow2roundup
rounds zero h = (0, omega arith, refl)
rounds (suc zero) h = (0, omega arith, refl)
rounds (suc (suc zero)) h = (0, omega arith, refl)
rounds (suc (suc (suc zero))) h = (1, omega arith, refl)
rounds (suc (suc (suc (suc zero)))) h = (1, omega arith, refl)
rounds (suc (suc (suc (suc (suc zero))))) h = (2, omega arith, refl)
rounds (suc (suc (suc (suc (suc (suc x)))))) h = absurd (omega arith)

ratio-le : (n s : ℕ) → 0 < n → s ≤ 3 * n → 100 * s / (n * 3) ≤ 100
ratio-le n s h l =
    let q = 100 * s / (n * 3) in
    let below : n * 3 * q ≤ 100 * s = omega (arith, div-add-mod (100 * s) (n * 3)) in
    elim (Bool-cases (ltb 100 q)) [
      | inr e ↦ ground arith
      | inl e ↦
          let above : n * 3 * 101 ≤ n * 3 * q = mul-le-mul_left (n * 3) (ground arith) in
          absurd (omega (arith, below, above))
    ]

-- The factor is 2, 4 or 8.
pub increase-pow : (n s : ℕ) → 0 < n → s ≤ 3 * n → (j : ℕ) × (j ≤ 2) × (increase n s ≡ 2 ^ suc j)
unfolding increase
increase-pow n s h l = rounds (100 * s / (n * 3) / 20) (omega (arith, ratio-le n s h l))

-- A handle that no call is at work on, with a table of 2 ^ a buckets that have no links.
pub record Ready (a : ℕ) (h : Clht) : Type 0 where
  pub valid : IsValid h.ht
  pub singles : Singles h.ht.table
  pub size : h.ht.num_buckets ≡ 2 ^ a
  pub resize_lock : h.resize_lock ≡ 0
  pub status_lock : h.status_lock ≡ 0

-- Memory for a table of any size.
pub record Grants (mem : Memory) : Type 0 where
  pub struct : (n : ℕ) → mem.has_struct n ≡ true
  pub table : (n : ℕ) → mem.has_table n ≡ true

-- A correct end of `ht_status`: the table has grown, and binds what it did.
pub record Grew (a : ℕ) (h r : Clht) : Type 0 where
  pub bits : ℕ
  pub more : a < bits
  pub ready : Ready bits r
  pub views : (q : ℕ) → q ≢ 0 → view r.ht q ≡ view h.ht q

pub status-Grew :
    (mem : Memory) (h : Clht) (a : ℕ)
    → Grants mem
    → Ready a h
    → a ≤ 28
    → Returns (status mem h false) (λ r. Grew a h r.1)
unfolding status size resize_pes
status-Grew mem h a grants ready small =
    let n = h.ht.num_buckets in
    let s = size_bins h.ht.table in
    let few : s ≤ 3 * n = omega (arith, size_bins-le h.ht.table ready.singles, ready.valid.sized) in
    let limit = pow-le a 28 small in
    let (j, tiny, factor) = increase-pow n s ready.valid.some_bucket few in
    let top = pow-le (a + suc j) 31 (omega (arith, small, tiny)) in
    let asked : increase n s * n % 2 ^ 64 ≡ 2 ^ (a + suc j) =
      rw (factor, ready.size) (omega (arith, pow_split a (suc j), top)) in
    let (r, run, grown) =
      rebuild-Grown h.ht ready.valid ready.singles mem a (suc j) ready.size (pow_pos (a + suc j))
        (omega (arith, top)) (omega (arith, few, ready.size, limit))
        (grants.struct (2 ^ (a + suc j))) (grants.table (2 ^ (a + suc j))) in
    let counted : size_from n h.ht.table ≡ done s =
      rw (sym ready.valid.sized) (size_from-size_bins h.ht.table ready.singles) in
    rw (ready.status_lock, counted, ready.resize_lock, asked, run)
      (
        _,
        refl,
        record {
          bits = a + suc j;
          more = omega arith;
          ready = record {
            valid = grown.rebuilt.valid;
            singles = grown.singles;
            size = grown.rebuilt.size;
            resize_lock = refl;
            status_lock = refl;
          };
          views = grown.rebuilt.views;
        },
      )
