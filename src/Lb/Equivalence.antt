-- ===== src/Lb/Equivalence.antt =====
-- `clht_lb` and `clht_lb_res` do the same to a table, short of the resize.
use clht.Prelude.{
  ℕ, ◌-◌, ◌≡◌, refl, Bool, Option, none, some, set, done, ◌>>=◌, Bool-cases, Option-cases,
  Outcome-cases, inl, inr,
}
use clht.Slots.{Slot}
use clht.LbRes.Bucket.{
  Chain, bucket_create, with_lock, lock_acq_chk_resize, bucket_exists, Scan, present, vacant,
  scan_chain, remove_chain,
}
use clht.LbRes.Table
use clht.LbRes.Table.{Memory, Put, at, bucket_create_stats}
use clht.Lb.{Hashtable, hash_of, get, lock_acq, put_found, expand, put, remove_found, remove}

-- the table of `clht_lb` that a table of `clht_lb_res` has inside
abbrev pub stripped : Table.Hashtable → Hashtable
stripped ht = record { num_buckets = ht.num_buckets; table = ht.table }

hash_of-stripped :
    (ht : Table.Hashtable) (k : ℕ)
    → ht.hash ≡ ht.num_buckets - 1
    → hash_of (stripped ht) k ≡ Table.hash_of ht k
unfolding hash_of Table.hash_of
hash_of-stripped ht k masked = rw masked

lock_acq-lock_acq_chk_resize : (c : Chain) → lock_acq c ≡ lock_acq_chk_resize c
unfolding lock_acq lock_acq_chk_resize
lock_acq-lock_acq_chk_resize c = refl

abbrev outcome : Put → Bool × Hashtable
outcome r = (r.result, stripped r.ht)

put_found-stripped :
    (mem : Memory) (ht : Table.Hashtable) (bin : ℕ) (c : Chain) (s : Slot) (w : Scan)
    → put_found (mem.bucket ht.num_expands) c s w
        >>= (λ r. done (r.0, record (stripped ht) { table = set ht.table bin (with_lock 0 r.1) }))
      ≡ Table.put_found mem ht bin c s w >>= (λ r. done (outcome r))
unfolding put_found expand Table.put_found bucket_create_stats
put_found-stripped mem ht bin c s present = refl
put_found-stripped mem ht bin c s (vacant (some p)) = refl
put_found-stripped mem ht bin c s (vacant none) =
    elim (Option-cases (bucket_create (mem.bucket ht.num_expands))) [
      | inl e ↦ rw e
      | inr (new, e) ↦ rw e
    ]

remove_found-stripped :
    (ht : Table.Hashtable) (bin : ℕ) (c : Chain) (o : Option (ℕ × Chain))
    → done (remove_found (stripped ht) bin c o)
      ≡ done (Table.remove_found ht bin c o) >>= (λ r. done (r.0, stripped r.1))
unfolding remove_found Table.remove_found
remove_found-stripped ht bin c none = refl
remove_found-stripped ht bin c (some r) = refl

-- A put in `clht_lb` ends as one in `clht_lb_res` does before it looks at the need for a resize, on
-- every branch and for every table whose mask is its size less one: with the same answer of the
-- allocator it returns the same, leaves the same buckets, and faults or spins where the other does.
pub put-put_table :
    (mem : Memory) (ht : Table.Hashtable) (k v : ℕ)
    → ht.hash ≡ ht.num_buckets - 1
    → put (mem.bucket ht.num_expands) (stripped ht) k v
      ≡ Table.put_table mem ht k v >>= (λ r. done (r.result, stripped r.ht))
unfolding put Table.put_table
put-put_table mem ht k v masked =
    rw (hash_of-stripped ht k masked) (elim (Outcome-cases (at ht.table (Table.hash_of ht k))) [
      | inr (inl e) ↦ rw e
      | inr (inr e) ↦ rw e
      | inl (c, e) ↦ rw e (elim (Bool-cases (bucket_exists k c)) [
        | inl f ↦ rw f
        | inr f ↦
            rw (f, lock_acq-lock_acq_chk_resize)
              (elim (Outcome-cases (lock_acq_chk_resize c)) [
                | inr (inl g) ↦ rw g
                | inr (inr g) ↦ rw g
                | inl (d, g) ↦ rw g (
                    put_found-stripped mem ht (Table.hash_of ht k) d (k, v) (scan_chain k 0 none d))
              ])
      ])
    ])

-- A remove in `clht_lb` ends as one in `clht_lb_res` does, on every branch and for every table whose
-- mask is its size less one.
pub remove-remove :
    (ht : Table.Hashtable) (k : ℕ)
    → ht.hash ≡ ht.num_buckets - 1
    → remove (stripped ht) k ≡ Table.remove ht k >>= (λ r. done (r.0, stripped r.1))
unfolding remove Table.remove
remove-remove ht k masked =
    rw (hash_of-stripped ht k masked) (elim (Outcome-cases (at ht.table (Table.hash_of ht k))) [
      | inr (inl e) ↦ rw e
      | inr (inr e) ↦ rw e
      | inl (c, e) ↦ rw e (elim (Bool-cases (bucket_exists k c)) [
        | inr f ↦ rw f
        | inl f ↦
            rw (f, lock_acq-lock_acq_chk_resize)
              (elim (Outcome-cases (lock_acq_chk_resize c)) [
                | inr (inl g) ↦ rw g
                | inr (inr g) ↦ rw g
                | inl (d, g) ↦
                    rw g (remove_found-stripped ht (Table.hash_of ht k) d (remove_chain k d))
              ])
      ])
    ])

pub get-get :
    (ht : Table.Hashtable) (k : ℕ)
    → ht.hash ≡ ht.num_buckets - 1
    → get (stripped ht) k ≡ Table.get ht k
unfolding get Table.get
get-get ht k masked = rw (hash_of-stripped ht k masked)
