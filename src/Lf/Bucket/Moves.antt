-- ===== src/Lf/Bucket/Moves.antt =====
-- How a step changes the byte of a slot.
use mathlib.Core.Path.{subst}
use clht.Prelude.{
  get_or-set_other, List, ℕ, ltb, ◌==◌, ◌≡◌, ◌≢◌, refl, sym, ◌∙◌, ap, true, Option, none, some,
  Bool-cases, inl, inr, ==→eq, ==→ne, set, arith,
}
use clht.Lf.Snapshot.{
  key_buckt, map_invld, map_valid, map_insrt, Snapshot, map_at, snap_get_empty_index, same,
}
use clht.Lf.Snapshot.Laws.{same-map, map_at-snap_get_empty_index, map_at-set}
use clht.Lf.Bucket.{
  Bucket, Search, result, Put, retry, searching, reserve, write_val, write_key, publish, returned,
  give_up, go_on, reserve_at, search_result, put_step, Remove, restart, check_key, take_val, unlink,
  removed, remove_step,
}
use clht.Lf.Bucket.Reserved.{reserved, Seen}

-- One step of the byte of a slot: it is kept, reserved, published, given up or unlinked.
pub data Moves (m n : ℕ) : Type 0 where
  is_kept : n ≡ m → Moves m n
  is_reserved : m ≡ map_invld → n ≡ map_insrt → Moves m n
  is_published : m ≡ map_insrt → n ≡ map_valid → Moves m n
  is_given_up : m ≡ map_insrt → n ≡ map_invld → Moves m n
  is_unlinked : m ≡ map_valid → n ≡ map_invld → Moves m n

-- a store of v into slot i, which is no store past the end
set-Moves :
    (ms : List ℕ) (i j v : ℕ)
    → map_at ms i ≢ 3
    → Moves (map_at ms i) v
    → Moves (map_at ms j) (map_at (set ms i v) j)
set-Moves ms i j v inside move = elim (Bool-cases (i == j)) [
  | inr e ↦ is_kept (get_or-set_other ms i j v 3 (==→ne i j e))
  | inl e ↦
      subst (λ k. Moves (map_at ms k) (map_at (set ms i v) k)) (==→eq i j e)
        (subst (Moves (map_at ms i)) (sym (map_at-set ms i v inside)) move)
]

-- a compare-and-swap that succeeds stores into the word that is there
cas-Moves :
    (b : Bucket) (s : Snapshot) (i j v : ℕ)
    → same b.snapshot s ≡ true
    → map_at s.map i ≢ 3
    → Moves (map_at s.map i) v
    → Moves (map_at b.snapshot.map j) (map_at (set s.map i v) j)
cas-Moves b s i j v e inside move =
    subst (λ ms. Moves (map_at ms j) (map_at (set s.map i v) j)) (sym (same-map b.snapshot s e))
      (set-Moves s.map i j v inside move)

reserve_at-Moves :
    (b : Bucket) (s : Snapshot) (e : Option ℕ) (j : ℕ)
    → snap_get_empty_index s ≡ e
    → Moves (map_at b.snapshot.map j) (map_at (reserve_at b s e).1.snapshot.map j)
unfolding reserve_at
reserve_at-Moves b s none j found = is_kept refl
reserve_at-Moves b s (some i) j found =
    let free = map_at-snap_get_empty_index s i found in
    elim (Bool-cases (same b.snapshot s)) [
      | inr e ↦ rw e (is_kept refl)
      | inl e ↦ rw e (
          cas-Moves b s i j map_insrt e (λ three. omega (arith, free, three))
            (is_reserved free refl))
    ]

-- A step of a put moves a slot along, where the slots that it has reserved are marked.
pub put_step-Moves :
    (key val : ℕ) (b : Bucket) (p : Put) (j : ℕ)
    → ((i : ℕ) → reserved p ≡ some i → map_at b.snapshot.map i ≡ map_insrt)
    → Moves (map_at b.snapshot.map j) (map_at (put_step key val b p).1.snapshot.map j)
unfolding put_step search_result give_up go_on
put_step-Moves key val b (retry e) j own = is_kept refl
put_step-Moves key val b (searching none s (result v)) j own = elim (Bool-cases (v == 0)) [
  | inl e ↦ rw e (is_kept refl)
  | inr e ↦ rw e (is_kept refl)
]
put_step-Moves key val b (searching (some i) s (result v)) j own = elim (Bool-cases (v == 0)) [
  | inl e ↦ rw e (is_kept refl)
  | inr e ↦ rw e (
      set-Moves b.snapshot.map i j map_invld (λ three. omega (arith, own i refl, three))
        (is_given_up (own i refl) refl))
]
put_step-Moves key val b (searching e s (Search.read_val i)) j own = is_kept refl
put_step-Moves key val b (searching e s (Search.read_map i v)) j own = is_kept refl
put_step-Moves key val b (searching e s (Search.read_key i v)) j own = is_kept refl
put_step-Moves key val b (searching e s (Search.read_again i v)) j own = is_kept refl
put_step-Moves key val b (reserve s) j own = reserve_at-Moves b s _ j refl
put_step-Moves key val b (write_val i s1) j own = is_kept refl
put_step-Moves key val b (write_key i s1) j own = is_kept refl
put_step-Moves key val b (publish i s1) j own = elim (Bool-cases (same b.snapshot s1)) [
  | inr e ↦ rw e (is_kept refl)
  | inl e ↦
      let mine : map_at s1.map i ≡ map_insrt =
        ap (λ ms. map_at ms i) (sym (same-map b.snapshot s1 e)) ∙ own i refl in
      rw e (
        cas-Moves b s1 i j map_valid e (λ three. omega (arith, mine, three))
          (is_published mine refl))
]
put_step-Moves key val b (returned r) j own = is_kept refl

-- A step of a remove moves a slot along.
pub remove_step-Moves :
    (key : ℕ) (b : Bucket) (p : Remove) (j : ℕ)
    → Seen p
    → Moves (map_at b.snapshot.map j) (map_at (remove_step key b p).1.snapshot.map j)
unfolding remove_step Seen
remove_step-Moves key b restart j seen = is_kept refl
remove_step-Moves key b (check_key i s) j seen = elim (Bool-cases (ltb i key_buckt)) [
  | inl e ↦ rw e (is_kept refl)
  | inr e ↦ rw e (is_kept refl)
]
remove_step-Moves key b (take_val i s) j seen = is_kept refl
remove_step-Moves key b (unlink i s v) j seen = elim (Bool-cases (same b.snapshot s)) [
  | inr e ↦ rw e (is_kept refl)
  | inl e ↦
      rw e (
        cas-Moves b s i j map_invld e (λ three. omega (arith, seen, three)) (is_unlinked seen refl))
]
remove_step-Moves key b (removed v) j seen = is_kept refl
