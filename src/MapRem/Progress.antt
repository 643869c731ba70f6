-- ===== src/MapRem/Progress.antt =====
-- A step of a call of `MapRem` leaves the arrays whole, and the call with what its next step relies on.
use clht.Prelude.{
  length-set, List, ℕ, zero, suc, ◌<◌, ◌==◌, ◌≡◌, ◌≢◌, refl, sym, ◌∙◌, true, Option, none, some, [],
  ◌∷◌, set, get_or, length, Bool-cases, inl, inr, arith, ap,
}
use clht.Lf.Snapshot.{map_invld, Snapshot, snap_get_empty_index, same}
use clht.Lf.Snapshot.Laws.{same-map}
use clht.Lf.Bucket.{
  Bucket, Put, retry, searching, reserve, write_val, write_key, publish, returned, Search, result,
}
use clht.MapRem.{
  map_insrt, map_valid, map_remov, state, set_state, give_up, go_on, reserve_at, search_result,
  put_step, Remove, look, check_map, check_key, check_val, block, check_again, take_val, clear,
  restore, removed, remove_step, Call, idle, getting, putting, removing, call_step,
}
use clht.MapRem.Local.{IsWhole, PutKnows, RemoveKnows, Knows}
use clht.MapRem.Slots.{byte-snap_get_empty_index}

-- a byte that is read inside of the map
inside : (ms : List ℕ) (i : ℕ) → get_or ms i 4 ≢ 4 → i < length ms
inside [] i ne = absurd (ne refl)
inside (m ∷ ms) zero ne = omega arith
inside (m ∷ ms) (suc i) ne = let rest = inside ms i ne in omega (arith, rest)

-- a store into an array is read back
pub get_or-set_here : (xs : List ℕ) (i v d : ℕ) → i < length xs → get_or (set xs i v) i d ≡ v
get_or-set_here [] i v d h = absurd (omega (arith, h))
get_or-set_here (x ∷ xs) zero v d h = refl
get_or-set_here (x ∷ xs) (suc i) v d h = get_or-set_here xs i v d (omega (arith, h))

pub byte-set : (ms : List ℕ) (i v : ℕ) → get_or ms i 4 ≢ 4 → get_or (set ms i v) i 4 ≡ v
byte-set ms i v ne = get_or-set_here ms i v 4 (inside ms i ne)

set_state-IsWhole : (b : Bucket) (i v : ℕ) → IsWhole b → IsWhole (set_state b i v)
set_state-IsWhole b i v w = record {
  map = length-set b.snapshot.map i v ∙ w.map;
  key = w.key;
  val = w.val;
}

cas-whole :
    (b : Bucket) (s : Snapshot) (i v : ℕ)
    → same b.snapshot s ≡ true
    → IsWhole b
    → length (set s.map i v) ≡ 3
cas-whole b s i v e w = length-set s.map i v ∙ ap length (sym (same-map b.snapshot s e)) ∙ w.map

reserve_at-IsWhole :
    (b : Bucket) (s : Snapshot) (o : Option ℕ) → IsWhole b → IsWhole (reserve_at b s o).1
unfolding reserve_at
reserve_at-IsWhole b s none w = w
reserve_at-IsWhole b s (some i) w = elim (Bool-cases (same b.snapshot s)) [
  | inr e ↦ rw e w
  | inl e ↦ rw e (record { map = cas-whole b s i map_insrt e w; key = w.key; val = w.val })
]

put_step-IsWhole : (k v : ℕ) (b : Bucket) (p : Put) → IsWhole b → IsWhole (put_step k v b p).1
unfolding put_step search_result give_up go_on
put_step-IsWhole k v b (retry e) w = w
put_step-IsWhole k v b (searching none s (result r)) w = elim (Bool-cases (r == 0)) [
  | inl e ↦ rw e w
  | inr e ↦ rw e w
]
put_step-IsWhole k v b (searching (some i) s (result r)) w = elim (Bool-cases (r == 0)) [
  | inl e ↦ rw e w
  | inr e ↦ rw e (set_state-IsWhole b i map_invld w)
]
put_step-IsWhole k v b (searching e s (Search.read_val i)) w = w
put_step-IsWhole k v b (searching e s (Search.read_map i r)) w = w
put_step-IsWhole k v b (searching e s (Search.read_key i r)) w = w
put_step-IsWhole k v b (searching e s (Search.read_again i r)) w = w
put_step-IsWhole k v b (reserve s) w = reserve_at-IsWhole b s _ w
put_step-IsWhole k v b (write_val i s1) w = record {
  map = w.map;
  key = w.key;
  val = length-set b.val i v ∙ w.val;
}
put_step-IsWhole k v b (write_key i s1) w = record {
  map = w.map;
  key = length-set b.key i k ∙ w.key;
  val = w.val;
}
put_step-IsWhole k v b (publish i s1) w = elim (Bool-cases (same b.snapshot s1)) [
  | inr e ↦ rw e w
  | inl e ↦ rw e (record { map = cas-whole b s1 i map_valid e w; key = w.key; val = w.val })
]
put_step-IsWhole k v b (returned r) w = w

remove_step-IsWhole : (k : ℕ) (b : Bucket) (p : Remove) → IsWhole b → IsWhole (remove_step k b p).1
unfolding remove_step
remove_step-IsWhole k b (look i) w = w
remove_step-IsWhole k b (check_map i v) w = w
remove_step-IsWhole k b (check_key i v) w = w
remove_step-IsWhole k b (check_val i v) w = w
remove_step-IsWhole k b (block i) w = elim (Bool-cases (state b i == map_valid)) [
  | inl e ↦ rw e (set_state-IsWhole b i map_remov w)
  | inr e ↦ rw e w
]
remove_step-IsWhole k b (check_again i) w = w
remove_step-IsWhole k b (take_val i) w = w
remove_step-IsWhole k b (clear i v) w = set_state-IsWhole b i map_invld w
remove_step-IsWhole k b (restore i) w = set_state-IsWhole b i map_valid w
remove_step-IsWhole k b (removed v) w = w

pub call_step-IsWhole : (b : Bucket) (c : Call) → IsWhole b → IsWhole (call_step b c).1
unfolding call_step
call_step-IsWhole b idle w = w
call_step-IsWhole b (getting k p) w = w
call_step-IsWhole b (putting k v p) w = put_step-IsWhole k v b p w
call_step-IsWhole b (removing k p) w = remove_step-IsWhole k b p w

reserve_at-Knows :
    (k v : ℕ) (b : Bucket) (s : Snapshot) (o : Option ℕ)
    → snap_get_empty_index s ≡ o
    → PutKnows k v (reserve_at b s o).1 (reserve_at b s o).0
unfolding reserve_at PutKnows
reserve_at-Knows k v b s none found = tt
reserve_at-Knows k v b s (some i) found = elim (Bool-cases (same b.snapshot s)) [
  | inr e ↦ rw e tt
  | inl e ↦
      let free = byte-snap_get_empty_index s i found in
      rw e (byte-set s.map i map_insrt (λ four. omega (arith, four, free)))
]

-- a store into the slot that a call owns
written :
    (b : Bucket) (xs : List ℕ) (i v m : ℕ)
    → IsWhole b
    → length xs ≡ 3
    → state b i ≡ m
    → m ≢ 4
    → get_or (set xs i v) i 0 ≡ v
written b xs i v m w three here ne =
    let bound = inside b.snapshot.map i (λ four. ne (sym here ∙ four)) in
    get_or-set_here xs i v 0 (omega (arith, bound, w.map, three))

put_step-Knows :
    (k v : ℕ) (b : Bucket) (p : Put)
    → IsWhole b
    → PutKnows k v b p
    → PutKnows k v (put_step k v b p).1 (put_step k v b p).0
unfolding put_step search_result give_up go_on PutKnows
put_step-Knows k v b (retry e) w x = x
put_step-Knows k v b (searching none s (result r)) w x = elim (Bool-cases (r == 0)) [
  | inl e ↦ rw e tt
  | inr e ↦ rw e tt
]
put_step-Knows k v b (searching (some i) s (result r)) w x = elim (Bool-cases (r == 0)) [
  | inl e ↦ rw e x
  | inr e ↦ rw e tt
]
put_step-Knows k v b (searching e s (Search.read_val i)) w x = x
put_step-Knows k v b (searching e s (Search.read_map i r)) w x = x
put_step-Knows k v b (searching e s (Search.read_key i r)) w x = x
put_step-Knows k v b (searching e s (Search.read_again i r)) w x = x
put_step-Knows k v b (reserve s) w x = reserve_at-Knows k v b s _ refl
put_step-Knows k v b (write_val i s1) w x =
    (x, written b b.val i v map_insrt w w.val x (λ e. absurd (ground arith)))
put_step-Knows k v b (write_key i s1) w x =
    (x.0, written b b.key i k map_insrt w w.key x.0 (λ e. absurd (ground arith)), x.1)
put_step-Knows k v b (publish i s1) w x = elim (Bool-cases (same b.snapshot s1)) [
  | inl e ↦ rw e tt
  | inr e ↦ rw e x
]
put_step-Knows k v b (returned r) w x = tt

remove_step-Knows :
    (k : ℕ) (b : Bucket) (p : Remove)
    → RemoveKnows k b p
    → RemoveKnows k (remove_step k b p).1 (remove_step k b p).0
unfolding remove_step RemoveKnows
remove_step-Knows k b (look i) x = ground arith
remove_step-Knows k b (check_map i v) x = ground arith
remove_step-Knows k b (check_key i v) x = ground arith
remove_step-Knows k b (check_val i v) x = ground arith
remove_step-Knows k b (block i) x = elim (Bool-cases (state b i == map_valid)) [
  | inr e ↦ rw e tt
  | inl e ↦
      let valid : state b i ≡ map_valid = ground arith in
      rw e (byte-set b.snapshot.map i map_remov (λ four. omega (arith, four, valid)))
]
remove_step-Knows k b (check_again i) x = elim (Bool-cases (get_or b.key i 0 == k)) [
  | inr e ↦ rw e x
  | inl e ↦ rw e (x, ground arith)
]
remove_step-Knows k b (take_val i) x = (x.0, x.1, refl)
remove_step-Knows k b (clear i v) x = tt
remove_step-Knows k b (restore i) x = tt
remove_step-Knows k b (removed v) x = tt

pub call_step-Knows :
    (b : Bucket) (c : Call) → IsWhole b → Knows b c → Knows (call_step b c).1 (call_step b c).0
unfolding call_step Knows
call_step-Knows b idle w x = tt
call_step-Knows b (getting k p) w x = tt
call_step-Knows b (putting k v p) w x = put_step-Knows k v b p w x
call_step-Knows b (removing k p) w x = remove_step-Knows k b p x
