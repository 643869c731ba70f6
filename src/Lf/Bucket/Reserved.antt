-- ===== src/Lf/Bucket/Reserved.antt =====
-- What one step does to the slots of a bucket: a slot that is reserved is its owner's.
use clht.Prelude.{
  get_or-set_other, ltb, ℕ, ◌==◌, ◌≡◌, ◌≢◌, refl, sym, ◌∙◌, ◌&&◌, Option, none, some, get_or,
  Bool-cases, inl, inr, arith, ap,
}
use clht.Lf.Snapshot.{
  key_buckt, map_invld, map_valid, map_insrt, Snapshot, map_at, snap_get_empty_index, same,
}
use clht.Lf.Snapshot.Laws.{same-map, map_at-snap_get_empty_index, map_at-set}
use clht.Lf.Bucket.{
  Bucket, Put, retry, searching, reserve, write_val, write_key, publish, returned, give_up, go_on,
  reserve_at, search_result, put_step, Remove, restart, check_key, take_val, unlink, removed,
  remove_step, Search, result,
}

-- the slot that a put has reserved
abbrev pub reserved : Put → Option ℕ
reserved (retry e) = e
reserved (searching e s p) = e
reserved (reserve s) = none
reserved (write_val i s1) = some i
reserved (write_key i s1) = some i
reserved (publish i s1) = some i
reserved (returned r) = none

-- slot j is the same in the two buckets
pub record Stays (j : ℕ) (b c : Bucket) : Type 0 where
  pub state : map_at c.snapshot.map j ≡ map_at b.snapshot.map j
  pub key : get_or c.key j 0 ≡ get_or b.key j 0
  pub val : get_or c.val j 0 ≡ get_or b.val j 0

pub Stays-refl : (j : ℕ) (b : Bucket) → Stays j b b
Stays-refl j b = record { state = refl; key = refl; val = refl }

other : (i j : ℕ) → some i ≢ some j → i ≢ j
other i j ne e = ne (ap some e)

reserve_at-Stays :
    (b : Bucket) (s : Snapshot) (j : ℕ) (e : Option ℕ)
    → snap_get_empty_index s ≡ e
    → map_at b.snapshot.map j ≢ map_invld
    → Stays j b (reserve_at b s e).1
unfolding reserve_at
reserve_at-Stays b s j none found used = Stays-refl j b
reserve_at-Stays b s j (some i) found used = elim (Bool-cases (same b.snapshot s)) [
  | inr e ↦ rw e (Stays-refl j b)
  | inl e ↦
      let free = map_at-snap_get_empty_index s i found in
      let now = same-map b.snapshot s e in
      let apart : i ≢ j =
        λ eq. used (ap (map_at b.snapshot.map) (sym eq) ∙ ap (λ ms. map_at ms i) now ∙ free) in
      rw e (record {
        state = get_or-set_other s.map i j map_insrt 3 apart ∙ sym (ap (λ ms. map_at ms j) now);
        key = refl;
        val = refl;
      })
]

-- A step of a put leaves each slot alone that it has not reserved, unless the slot is free.
pub put_step-Stays :
    (key val : ℕ) (b : Bucket) (p : Put) (j : ℕ)
    → reserved p ≢ some j
    → map_at b.snapshot.map j ≢ map_invld
    → Stays j b (put_step key val b p).1
unfolding put_step search_result give_up go_on
put_step-Stays key val b (retry e) j ne used = Stays-refl j b
put_step-Stays key val b (searching none s (result v)) j ne used = elim (Bool-cases (v == 0)) [
  | inl e ↦ rw e (Stays-refl j b)
  | inr e ↦ rw e (Stays-refl j b)
]
put_step-Stays key val b (searching (some i) s (result v)) j ne used = elim (Bool-cases (v == 0)) [
  | inl e ↦ rw e (Stays-refl j b)
  | inr e ↦ rw e (record {
    state = get_or-set_other b.snapshot.map i j map_invld 3 (other i j ne);
    key = refl;
    val = refl;
  })
]
put_step-Stays key val b (searching e s (Search.read_val i)) j ne used = Stays-refl j b
put_step-Stays key val b (searching e s (Search.read_map i v)) j ne used = Stays-refl j b
put_step-Stays key val b (searching e s (Search.read_key i v)) j ne used = Stays-refl j b
put_step-Stays key val b (searching e s (Search.read_again i v)) j ne used = Stays-refl j b
put_step-Stays key val b (reserve s) j ne used = reserve_at-Stays b s j _ refl used
put_step-Stays key val b (write_val i s1) j ne used = record {
  state = refl;
  key = refl;
  val = get_or-set_other b.val i j val 0 (other i j ne);
}
put_step-Stays key val b (write_key i s1) j ne used = record {
  state = refl;
  key = get_or-set_other b.key i j key 0 (other i j ne);
  val = refl;
}
put_step-Stays key val b (publish i s1) j ne used = elim (Bool-cases (same b.snapshot s1)) [
  | inr e ↦ rw e (Stays-refl j b)
  | inl e ↦ rw e (record {
    state =
        get_or-set_other s1.map i j map_valid 3 (other i j ne)
        ∙ sym (ap (λ ms. map_at ms j) (same-map b.snapshot s1 e));
    key = refl;
    val = refl;
  })
]
put_step-Stays key val b (returned r) j ne used = Stays-refl j b

-- The step of a put that reserves a slot took a free one.
pub data Own : Option ℕ → Option ℕ → Bucket → Bucket → Type 0 where
  keeps :
      {e : Option ℕ} {b c : Bucket}
      → ((i : ℕ)
          → e ≡ some i
          → map_at b.snapshot.map i ≡ map_insrt
          → map_at c.snapshot.map i ≡ map_insrt)
      → Own e e b c
  frees : {e : Option ℕ} {b c : Bucket} → Own e none b c
  takes :
      {b c : Bucket} (i : ℕ)
      → map_at b.snapshot.map i ≡ map_invld
      → map_at c.snapshot.map i ≡ map_insrt
      → Own none (some i) b c

reserve_at-Own :
    (b : Bucket) (s : Snapshot) (e : Option ℕ)
    → snap_get_empty_index s ≡ e
    → Own none (reserved (reserve_at b s e).0) b (reserve_at b s e).1
unfolding reserve_at
reserve_at-Own b s none found = frees
reserve_at-Own b s (some i) found = elim (Bool-cases (same b.snapshot s)) [
  | inr e ↦ rw e frees
  | inl e ↦
      let free = map_at-snap_get_empty_index s i found in
      rw e (
        takes i (ap (λ ms. map_at ms i) (same-map b.snapshot s e) ∙ free)
          (map_at-set s.map i map_insrt (λ three. absurd (ground arith))))
]

-- A step of a put keeps the slot that it has reserved, or gives it up, or reserves a free one.
pub put_step-Own :
    (key val : ℕ) (b : Bucket) (p : Put)
    → Own (reserved p) (reserved (put_step key val b p).0) b (put_step key val b p).1
unfolding put_step search_result give_up go_on
put_step-Own key val b (retry e) = keeps (λ i h m. m)
put_step-Own key val b (searching none s (result v)) = elim (Bool-cases (v == 0)) [
  | inl e ↦ rw e frees
  | inr e ↦ rw e frees
]
put_step-Own key val b (searching (some i) s (result v)) = elim (Bool-cases (v == 0)) [
  | inl e ↦ rw e (keeps (λ j h m. m))
  | inr e ↦ rw e frees
]
put_step-Own key val b (searching e s (Search.read_val i)) = keeps (λ j h m. m)
put_step-Own key val b (searching e s (Search.read_map i v)) = keeps (λ j h m. m)
put_step-Own key val b (searching e s (Search.read_key i v)) = keeps (λ j h m. m)
put_step-Own key val b (searching e s (Search.read_again i v)) = keeps (λ j h m. m)
put_step-Own key val b (reserve s) = reserve_at-Own b s _ refl
put_step-Own key val b (write_val i s1) = keeps (λ j h m. m)
put_step-Own key val b (write_key i s1) = keeps (λ j h m. m)
put_step-Own key val b (publish i s1) = elim (Bool-cases (same b.snapshot s1)) [
  | inl e ↦ rw e frees
  | inr e ↦ rw e (keeps (λ j h m. m))
]
put_step-Own key val b (returned r) = keeps (λ j h m. m)

-- the slot that a remove is about to unlink was valid in the word that it read
unfoldable pub Seen : Remove → Type 0
Seen (take_val i s) = map_at s.map i ≡ map_valid
Seen (unlink i s v) = map_at s.map i ≡ map_valid
Seen restart = Unit {0}
Seen (check_key i s) = Unit {0}
Seen (removed v) = Unit {0}

pub remove_step-Seen : (key : ℕ) (b : Bucket) (p : Remove) → Seen p → Seen (remove_step key b p).0
unfolding remove_step Seen
remove_step-Seen key b restart seen = tt
remove_step-Seen key b (check_key i s) seen = elim (Bool-cases (ltb i key_buckt)) [
  | inr e ↦ rw e tt
  | inl e ↦ elim (Bool-cases ((get_or b.key i 0 == key) && (map_at s.map i == map_valid))) [
    | inr f ↦ rw (e, f) tt
    | inl f ↦ rw (e, f) (ground arith)
  ]
]
remove_step-Seen key b (take_val i s) seen = seen
remove_step-Seen key b (unlink i s v) seen = elim (Bool-cases (same b.snapshot s)) [
  | inl e ↦ rw e tt
  | inr e ↦ rw e tt
]
remove_step-Seen key b (removed v) seen = tt

-- A step of a remove leaves each slot alone that is not valid.
pub remove_step-Stays :
    (key : ℕ) (b : Bucket) (p : Remove) (j : ℕ)
    → Seen p
    → map_at b.snapshot.map j ≢ map_valid
    → Stays j b (remove_step key b p).1
unfolding remove_step Seen
remove_step-Stays key b restart j seen ne = Stays-refl j b
remove_step-Stays key b (check_key i s) j seen ne = elim (Bool-cases (ltb i key_buckt)) [
  | inl e ↦ rw e (Stays-refl j b)
  | inr e ↦ rw e (Stays-refl j b)
]
remove_step-Stays key b (take_val i s) j seen ne = Stays-refl j b
remove_step-Stays key b (unlink i s v) j seen ne = elim (Bool-cases (same b.snapshot s)) [
  | inr e ↦ rw e (Stays-refl j b)
  | inl e ↦
      let now = same-map b.snapshot s e in
      let apart : i ≢ j =
        λ eq. ne (ap (map_at b.snapshot.map) (sym eq) ∙ ap (λ ms. map_at ms i) now ∙ seen) in
      rw e (record {
        state = get_or-set_other s.map i j map_invld 3 apart ∙ sym (ap (λ ms. map_at ms j) now);
        key = refl;
        val = refl;
      })
]
remove_step-Stays key b (removed v) j seen ne = Stays-refl j b

-- A step of a remove changes no key and no value.
pub remove_step-entry :
    (key : ℕ) (b : Bucket) (p : Remove)
    → ((remove_step key b p).1.key ≡ b.key) × ((remove_step key b p).1.val ≡ b.val)
unfolding remove_step
remove_step-entry key b restart = (refl, refl)
remove_step-entry key b (check_key i s) = elim (Bool-cases (ltb i key_buckt)) [
  | inl e ↦ rw e (refl, refl)
  | inr e ↦ rw e (refl, refl)
]
remove_step-entry key b (take_val i s) = (refl, refl)
remove_step-entry key b (unlink i s v) = elim (Bool-cases (same b.snapshot s)) [
  | inl e ↦ rw e (refl, refl)
  | inr e ↦ rw e (refl, refl)
]
remove_step-entry key b (removed v) = (refl, refl)
