-- ===== src/Lb/Refinement.antt =====
-- What the calls of src/clht_lb.c do to the map from keys to values that a table stands for.
use clht.Prelude.{
  ℕ, ◌+◌, ◌-◌, ◌<◌, ◌≡◌, ◌≢◌, refl, ap, ◌∙◌, if◌then◌else◌, Bool, true, Option, none, some, done,
  Returns, arith,
}
use clht.LbRes.Bucket.{is_none}
use clht.LbRes.Bucket.Walk.{value_or_zero}
use clht.LbRes.Table
use clht.LbRes.Table.{Memory, size_bins, new_table}
use clht.LbRes.Table.Invariant
use clht.LbRes.Table.Counting.{bound}
use clht.LbRes.Table.Writes.{update}
use clht.LbRes.Table.Insert.{kept_or, put_table-Puts}
use clht.LbRes.Table.Delete.{get-view, remove-Removed}
use clht.LbRes.Table.Create.{new_table-IsNew, size_bins-cleared}
use clht.LbRes.Table.Size.{size-size_bins}
use clht.Lb.{Hashtable, empty_table, hashtable_create, get, put, remove, size}
use clht.Lb.Equivalence.{stripped, put-put_table, remove-remove, get-get}

-- a table of `clht_lb` as one of `clht_lb_res`, which keeps its mask and its counters as well
abbrev pub whole : Hashtable → Table.Hashtable
whole ht = record {
  num_buckets = ht.num_buckets;
  table = ht.table;
  hash = ht.num_buckets - 1;
  version = 0;
  num_expands = 0;
  num_expands_threshold = 0;
}

-- The buckets are well formed: a key has at most one slot, in its bucket, and all locks are free.
abbrev pub IsValid : Hashtable → Type 0
IsValid ht = Invariant.IsValid (whole ht)

-- the map that a table stands for
abbrev pub view : Hashtable → ℕ → Option ℕ
view ht = Invariant.view (whole ht)

-- the validity and the map of a table do not depend on the counters
IsValid-whole : (t : Table.Hashtable) → Invariant.IsValid t → Invariant.IsValid (whole (stripped t))
IsValid-whole t v = record {
  some_bucket = v.some_bucket;
  sized = v.sized;
  masked = refl;
  placed = rw (← v.masked) v.placed;
}

view-whole :
    (t : Table.Hashtable) (q : ℕ) → Invariant.IsValid t → view (stripped t) q ≡ Invariant.view t q
unfolding Invariant.view
view-whole t q v = rw (← v.masked)

-- A correct end of `clht_put` of `k` and `v` on `ht`.
pub record Puts (ht : Hashtable) (k v : ℕ) (r : Bool × Hashtable) : Type 0 where
  pub returned : r.0 ≡ is_none (view ht k)
  pub valid : IsValid r.1
  pub size : r.1.num_buckets ≡ ht.num_buckets
  pub used : size_bins r.1.table ≡ size_bins ht.table + (if r.0 then 1 else 0)
  pub views : (q : ℕ) → q ≢ 0 → view r.1 q ≡ update (view ht) k (kept_or (view ht k) v) q

-- memory with one answer for every bucket
abbrev answering : (ℕ → ℕ) → Memory
answering words = record { bucket = λ n. some words; has_struct = λ n. true; has_table = λ n. true }

-- A put in `clht_lb` of a key that is not 0 into a valid table returns, with memory for a bucket: it
-- answers whether the key was unbound, binds it then, keeps a binding that is there, leaves the other
-- keys alone, and the table is valid again and of the same size.
pub put-Puts :
    (words : ℕ → ℕ) (ht : Hashtable) (k v : ℕ)
    → IsValid ht
    → k ≢ 0
    → Returns (put (some words) ht k v) (Puts ht k v)
put-Puts words ht k v valid nonzero =
    let (r, run, p) = put_table-Puts (answering words) (whole ht) k v valid nonzero (λ e. cc e) in
    rw (put-put_table (answering words) (whole ht) k v refl, run)
      (
        (r.result, stripped r.ht),
        refl,
        record {
          returned = p.returned;
          valid = IsValid-whole r.ht p.valid;
          size = p.size;
          used = p.used;
          views = λ q nz. view-whole r.ht q p.valid ∙ p.views q nz;
        },
      )

-- A correct end of `clht_remove` of `k` on `ht`.
pub record Removed (ht : Hashtable) (k : ℕ) (r : ℕ × Hashtable) : Type 0 where
  pub returned : r.0 ≡ value_or_zero (view ht k)
  pub valid : IsValid r.1
  pub size : r.1.num_buckets ≡ ht.num_buckets
  pub used : size_bins r.1.table + bound (view ht k) ≡ size_bins ht.table
  pub views : (q : ℕ) → q ≢ 0 → view r.1 q ≡ update (view ht) k none q

-- A remove in `clht_lb` of a key that is not 0 from a valid table returns: what the key was bound to,
-- or 0; the key is unbound, the other keys are left alone, and the table is valid again.
pub remove_lem :
    (ht : Hashtable) (k : ℕ) → IsValid ht → k ≢ 0 → Returns (remove ht k) (Removed ht k)
remove_lem ht k valid nonzero =
    let (r, run, p) = remove-Removed (whole ht) k valid nonzero in
    rw (remove-remove (whole ht) k refl, run)
      (
        (r.0, stripped r.1),
        refl,
        record {
          returned = p.returned;
          valid = IsValid-whole r.1 p.valid;
          size = p.size;
          used = p.used;
          views = λ q nz. view-whole r.1 q p.valid ∙ p.views q nz;
        },
      )

get_lem : (ht : Hashtable) (k : ℕ) → IsValid ht → get ht k ≡ done (value_or_zero (view ht k))
get_lem ht k valid = get-get (whole ht) k refl ∙ get-view (whole ht) k valid

size_lem : (ht : Hashtable) → IsValid ht → size ht ≡ done (size_bins ht.table)
unfolding size Table.size
size_lem ht valid = unfold Table.size in size-size_bins (whole ht) valid

-- A session on a new table of `clht_lb`, of at least one bucket and with memory: after a put of a key
-- that is not 0, a get of it finds the value; after a remove that follows, which returns the value,
-- it finds none, and the table counts no key.
pub put-get-remove :
    (mem : Memory) (words : ℕ → ℕ) (n k v : ℕ)
    → 0 < n
    → k ≢ 0
    → mem.has_struct n ≡ true
    → mem.has_table n ≡ true
    → (ht : Hashtable) × (hashtable_create mem n ≡ some ht)
      × Returns (put (some words) ht k v) (λ r.
        (get r.1 k ≡ done v)
        × Returns (remove r.1 k) (λ s. (s.0 ≡ v) × (get s.1 k ≡ done 0) × (size s.1 ≡ done 0)))
unfolding hashtable_create Table.hashtable_create
put-get-remove mem words n k v pos nonzero s t =
    let fresh = new_table-IsNew n pos in
    let valid = IsValid-whole (new_table n) fresh.valid in
    let ht = empty_table n in
    let none_bound : view ht k ≡ none =
      view-whole (new_table n) k fresh.valid ∙ fresh.views k nonzero in
    let (r, put_run, p) = put-Puts words ht k v valid nonzero in
    let bound_now : view r.1 k ≡ some v = p.views k nonzero ∙ rw none_bound (ground arith) in
    let (u, remove_run, d) = remove_lem r.1 k p.valid nonzero in
    let gone : view u.1 k ≡ none = d.views k nonzero ∙ ground arith in
    let won : r.0 ≡ true = p.returned ∙ rw none_bound in
    let one : size_bins r.1.table ≡ size_bins ht.table + 1 = p.used ∙ rw won in
    let down : size_bins u.1.table + 1 ≡ size_bins r.1.table = rw bound_now at d.used in
    let counted : size_bins u.1.table ≡ 0 = omega (arith, one, down, size_bins-cleared n) in
    (
      ht,
      ground arith,
      (
        r,
        put_run,
        (
          get_lem r.1 k p.valid ∙ rw bound_now,
          (
            u,
            remove_run,
            (
              d.returned ∙ rw bound_now,
              get_lem u.1 k d.valid ∙ rw gone,
              size_lem u.1 d.valid ∙ ap done counted,
            ),
          ),
        ),
      ),
    )
