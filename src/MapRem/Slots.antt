-- ===== src/MapRem/Slots.antt =====
-- What a step of `MapRem` does to the slots that its call does not own.
use clht.Prelude.{
  get_or-set_other, List, ℕ, zero, suc, ◌==◌, ◌≡◌, ◌≢◌, refl, sym, ◌∙◌, true, Option, none, some,
  [], ◌∷◌, get_or, Bool-cases, inl, inr, arith, ap,
}
use clht.Lf.Snapshot.{map_invld, Snapshot, snap_get_empty_index, same}
use clht.Lf.Snapshot.Laws.{same-map, map_at-snap_get_empty_index}
use clht.Lf.Bucket.{
  Bucket, Put, retry, searching, reserve, write_val, write_key, publish, returned, Search, result,
}
use clht.Lf.Bucket.Reserved.{reserved}
use clht.MapRem.{
  map_insrt, map_valid, map_remov, state, give_up, go_on, reserve_at, search_result, put_step,
  Remove, look, check_map, check_key, check_val, block, check_again, take_val, clear, restore,
  removed, remove_step, Call, idle, getting, putting, removing, call_step,
}
use clht.MapRem.Local.{blocked, owns, Stays, Stays-refl}

-- the byte of slot i of a word
abbrev pub byte : Snapshot → ℕ → ℕ
byte s i = get_or s.map i 4

invld-default : (ms : List ℕ) (i : ℕ) → get_or ms i 3 ≡ 0 → get_or ms i 4 ≡ 0
invld-default [] i e = absurd (omega (arith, e))
invld-default (m ∷ ms) zero e = e
invld-default (m ∷ ms) (suc i) e = invld-default ms i e

-- the index that is found is that of a free slot
pub byte-snap_get_empty_index :
    (s : Snapshot) (i : ℕ) → snap_get_empty_index s ≡ some i → byte s i ≡ map_invld
byte-snap_get_empty_index s i e = invld-default s.map i (map_at-snap_get_empty_index s i e)

-- a compare-and-swap that succeeds has read the byte that is there
pub same-byte :
    (b : Bucket) (s : Snapshot) (i : ℕ) → same b.snapshot s ≡ true → state b i ≡ byte s i
same-byte b s i e = ap (λ ms. get_or ms i 4) (same-map b.snapshot s e)

other : (i j : ℕ) → some i ≢ some j → i ≢ j
other i j ne e = ne (ap some e)

reserve_at-Stays :
    (b : Bucket) (s : Snapshot) (j : ℕ) (e : Option ℕ)
    → snap_get_empty_index s ≡ e
    → state b j ≢ map_invld
    → Stays j b (reserve_at b s e).1
unfolding reserve_at
reserve_at-Stays b s j none found used = Stays-refl j b
reserve_at-Stays b s j (some i) found used = elim (Bool-cases (same b.snapshot s)) [
  | inr e ↦ rw e (Stays-refl j b)
  | inl e ↦
      let apart : i ≢ j = λ eq.
        used (ap (state b) (sym eq) ∙ same-byte b s i e ∙ byte-snap_get_empty_index s i found) in
      rw e (record {
        state = get_or-set_other s.map i j map_insrt 4 apart ∙ sym (same-byte b s j e);
        key = refl;
        val = refl;
      })
]

-- A step of a put leaves each slot alone that it has not reserved, unless the slot is free.
put_step-Stays :
    (key val : ℕ) (b : Bucket) (p : Put) (j : ℕ)
    → reserved p ≢ some j
    → state b j ≢ map_invld
    → Stays j b (put_step key val b p).1
unfolding put_step search_result give_up go_on
put_step-Stays key val b (retry e) j ne used = Stays-refl j b
put_step-Stays key val b (searching none s (result v)) j ne used = elim (Bool-cases (v == 0)) [
  | inl e ↦ rw e (Stays-refl j b)
  | inr e ↦ rw e (Stays-refl j b)
]
put_step-Stays key val b (searching (some i) s (result v)) j ne used = elim (Bool-cases (v == 0)) [
  | inl e ↦ rw e (Stays-refl j b)
  | inr e ↦ rw e (record {
    state = get_or-set_other b.snapshot.map i j map_invld 4 (other i j ne);
    key = refl;
    val = refl;
  })
]
put_step-Stays key val b (searching e s (Search.read_val i)) j ne used = Stays-refl j b
put_step-Stays key val b (searching e s (Search.read_map i v)) j ne used = Stays-refl j b
put_step-Stays key val b (searching e s (Search.read_key i v)) j ne used = Stays-refl j b
put_step-Stays key val b (searching e s (Search.read_again i v)) j ne used = Stays-refl j b
put_step-Stays key val b (reserve s) j ne used = reserve_at-Stays b s j _ refl used
put_step-Stays key val b (write_val i s1) j ne used = record {
  state = refl;
  key = refl;
  val = get_or-set_other b.val i j val 0 (other i j ne);
}
put_step-Stays key val b (write_key i s1) j ne used = record {
  state = refl;
  key = get_or-set_other b.key i j key 0 (other i j ne);
  val = refl;
}
put_step-Stays key val b (publish i s1) j ne used = elim (Bool-cases (same b.snapshot s1)) [
  | inr e ↦ rw e (Stays-refl j b)
  | inl e ↦ rw e (record {
    state = get_or-set_other s1.map i j map_valid 4 (other i j ne) ∙ sym (same-byte b s1 j e);
    key = refl;
    val = refl;
  })
]
put_step-Stays key val b (returned r) j ne used = Stays-refl j b

-- A step of a remove leaves each slot alone that it has not blocked, unless the slot is valid.
remove_step-Stays :
    (key : ℕ) (b : Bucket) (p : Remove) (j : ℕ)
    → blocked p ≢ some j
    → state b j ≢ map_valid
    → Stays j b (remove_step key b p).1
unfolding remove_step
remove_step-Stays key b (look i) j ne used = Stays-refl j b
remove_step-Stays key b (check_map i v) j ne used = Stays-refl j b
remove_step-Stays key b (check_key i v) j ne used = Stays-refl j b
remove_step-Stays key b (check_val i v) j ne used = Stays-refl j b
remove_step-Stays key b (block i) j ne used = elim (Bool-cases (state b i == map_valid)) [
  | inr e ↦ rw e (Stays-refl j b)
  | inl e ↦
      let valid : state b i ≡ map_valid = ground arith in
      rw e (record {
        state =
            get_or-set_other b.snapshot.map i j map_remov 4
              (λ eq. used (ap (state b) (sym eq) ∙ valid));
        key = refl;
        val = refl;
      })
]
remove_step-Stays key b (check_again i) j ne used = Stays-refl j b
remove_step-Stays key b (take_val i) j ne used = Stays-refl j b
remove_step-Stays key b (clear i v) j ne used = record {
  state = get_or-set_other b.snapshot.map i j map_invld 4 (other i j ne);
  key = refl;
  val = refl;
}
remove_step-Stays key b (restore i) j ne used = record {
  state = get_or-set_other b.snapshot.map i j map_valid 4 (other i j ne);
  key = refl;
  val = refl;
}
remove_step-Stays key b (removed v) j ne used = Stays-refl j b

-- A step leaves each slot alone that its call does not own, unless the slot is free or valid.
pub call_step-Stays :
    (b : Bucket) (c : Call) (j : ℕ)
    → owns c ≢ some j
    → state b j ≢ map_invld
    → state b j ≢ map_valid
    → Stays j b (call_step b c).1
unfolding call_step
call_step-Stays b idle j ne free valid = Stays-refl j b
call_step-Stays b (getting k p) j ne free valid = Stays-refl j b
call_step-Stays b (putting k v p) j ne free valid = put_step-Stays k v b p j ne free
call_step-Stays b (removing k p) j ne free valid = remove_step-Stays k b p j ne valid
