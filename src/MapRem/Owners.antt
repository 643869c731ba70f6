-- ===== src/MapRem/Owners.antt =====
-- Which slots a call of `MapRem` owns: the ones it has marked MAP_INSRT or MAP_REMOV.
use clht.Prelude.{
  some_injective, ℕ, ◌==◌, ◌≡◌, ◌≢◌, ◌⊎◌, refl, sym, ◌∙◌, ap, Option, none, some, get_or,
  Bool-cases, inl, inr, ==→eq, arith,
}
use clht.Lf.Snapshot.{map_invld, Snapshot, snap_get_empty_index, same}
use clht.Lf.Bucket.{
  Bucket, Put, retry, searching, reserve, write_val, write_key, publish, returned, Search, result,
}
use clht.Lf.Bucket.Reserved.{reserved}
use clht.MapRem.{
  map_insrt, map_valid, map_remov, state, give_up, go_on, reserve_at, search_result, put_step,
  Remove, look, check_map, check_key, check_val, block, check_again, take_val, clear, restore,
  removed, remove_step, Call, idle, getting, putting, removing, call_step,
}
use clht.MapRem.Local.{PutKnows, RemoveKnows, Knows, blocked, owns}
use clht.MapRem.Slots.{same-byte, byte-snap_get_empty_index}

-- a byte that some call has marked: neither MAP_INVLD nor MAP_VALID
abbrev pub IsMarked : ℕ → Type 0
IsMarked m = (m ≢ map_invld) × (m ≢ map_valid)

insrt-IsMarked :
    (b : Bucket) (i j : ℕ) → state b i ≡ map_insrt → some i ≡ some j → IsMarked (state b j)
insrt-IsMarked b i j m e =
    let here : state b j ≡ map_insrt = ap (state b) (sym (some_injective e)) ∙ m in
    (λ f. omega (arith, f, here), λ f. omega (arith, f, here))

remov-IsMarked :
    (b : Bucket) (i j : ℕ) → state b i ≡ map_remov → some i ≡ some j → IsMarked (state b j)
remov-IsMarked b i j m e =
    let here : state b j ≡ map_remov = ap (state b) (sym (some_injective e)) ∙ m in
    (λ f. omega (arith, f, here), λ f. omega (arith, f, here))

put-IsMarked :
    (k v : ℕ) (b : Bucket) (p : Put) (j : ℕ)
    → PutKnows k v b p
    → reserved p ≡ some j
    → IsMarked (state b j)
unfolding PutKnows
put-IsMarked k v b (retry none) j x h = absurd (ground arith)
put-IsMarked k v b (retry (some i)) j x h = insrt-IsMarked b i j x.0 h
put-IsMarked k v b (searching none s p) j x h = absurd (ground arith)
put-IsMarked k v b (searching (some i) s p) j x h = insrt-IsMarked b i j x.0 h
put-IsMarked k v b (reserve s) j x h = absurd (ground arith)
put-IsMarked k v b (write_val i s1) j x h = insrt-IsMarked b i j x h
put-IsMarked k v b (write_key i s1) j x h = insrt-IsMarked b i j x.0 h
put-IsMarked k v b (publish i s1) j x h = insrt-IsMarked b i j x.0 h
put-IsMarked k v b (returned r) j x h = absurd (ground arith)

remove-IsMarked :
    (k : ℕ) (b : Bucket) (p : Remove) (j : ℕ)
    → RemoveKnows k b p
    → blocked p ≡ some j
    → IsMarked (state b j)
unfolding RemoveKnows
remove-IsMarked k b (look i) j x h = absurd (ground arith)
remove-IsMarked k b (check_map i v) j x h = absurd (ground arith)
remove-IsMarked k b (check_key i v) j x h = absurd (ground arith)
remove-IsMarked k b (check_val i v) j x h = absurd (ground arith)
remove-IsMarked k b (block i) j x h = absurd (ground arith)
remove-IsMarked k b (check_again i) j x h = remov-IsMarked b i j x h
remove-IsMarked k b (take_val i) j x h = remov-IsMarked b i j x.0 h
remove-IsMarked k b (clear i v) j x h = remov-IsMarked b i j x.0 h
remove-IsMarked k b (restore i) j x h = remov-IsMarked b i j x h
remove-IsMarked k b (removed v) j x h = absurd (ground arith)

-- A slot that a call owns is marked.
pub owned-IsMarked :
    (b : Bucket) (c : Call) (j : ℕ) → Knows b c → owns c ≡ some j → IsMarked (state b j)
unfolding Knows
owned-IsMarked b idle j x h = absurd (ground arith)
owned-IsMarked b (getting k p) j x h = absurd (ground arith)
owned-IsMarked b (putting k v p) j x h = put-IsMarked k v b p j x h
owned-IsMarked b (removing k p) j x h = remove-IsMarked k b p j x h

reserve_at-owns :
    (b : Bucket) (s : Snapshot) (o : Option ℕ) (j : ℕ)
    → snap_get_empty_index s ≡ o
    → reserved (reserve_at b s o).0 ≡ some j
    → state b j ≡ map_invld
unfolding reserve_at
reserve_at-owns b s none j found h = absurd (ground arith)
reserve_at-owns b s (some i) j found h = elim (Bool-cases (same b.snapshot s)) [
  | inr e ↦ let never : none ≡ some j = rw e at h in absurd (ground arith)
  | inl e ↦
      let here : some i ≡ some j = rw e at h in
      ap (state b) (sym (some_injective here))
      ∙ same-byte b s i e
      ∙ byte-snap_get_empty_index s i found
]

-- a byte that no call has marked
abbrev pub Unmarked : ℕ → Type 0
Unmarked m = (m ≡ map_invld) ⊎ (m ≡ map_valid)

put_step-owns :
    (k v : ℕ) (b : Bucket) (p : Put) (j : ℕ)
    → reserved (put_step k v b p).0 ≡ some j
    → (reserved p ≡ some j) ⊎ Unmarked (state b j)
unfolding put_step search_result give_up go_on
put_step-owns k v b (retry e) j h = inl h
put_step-owns k v b (searching none s (result r)) j h = elim (Bool-cases (r == 0)) [
  | inl e ↦ let never : none ≡ some j = rw e at h in inl never
  | inr e ↦ let never : none ≡ some j = rw e at h in inl never
]
put_step-owns k v b (searching (some i) s (result r)) j h = elim (Bool-cases (r == 0)) [
  | inl e ↦ let held : some i ≡ some j = rw e at h in inl held
  | inr e ↦ let never : none ≡ some j = rw e at h in absurd (ground arith)
]
put_step-owns k v b (searching e s (Search.read_val i)) j h = inl h
put_step-owns k v b (searching e s (Search.read_map i r)) j h = inl h
put_step-owns k v b (searching e s (Search.read_key i r)) j h = inl h
put_step-owns k v b (searching e s (Search.read_again i r)) j h = inl h
put_step-owns k v b (reserve s) j h = inr (inl (reserve_at-owns b s _ j refl h))
put_step-owns k v b (write_val i s1) j h = inl h
put_step-owns k v b (write_key i s1) j h = inl h
put_step-owns k v b (publish i s1) j h = elim (Bool-cases (same b.snapshot s1)) [
  | inl e ↦ let never : none ≡ some j = rw e at h in absurd (ground arith)
  | inr e ↦ let held : some i ≡ some j = rw e at h in inl held
]
put_step-owns k v b (returned r) j h = inl h

remove_step-owns :
    (k : ℕ) (b : Bucket) (p : Remove) (j : ℕ)
    → blocked (remove_step k b p).0 ≡ some j
    → (blocked p ≡ some j) ⊎ Unmarked (state b j)
unfolding remove_step
remove_step-owns k b (look i) j h = absurd (ground arith)
remove_step-owns k b (check_map i v) j h = absurd (ground arith)
remove_step-owns k b (check_key i v) j h = absurd (ground arith)
remove_step-owns k b (check_val i v) j h = absurd (ground arith)
remove_step-owns k b (block i) j h = elim (Bool-cases (state b i == map_valid)) [
  | inr e ↦ let never : none ≡ some j = rw e at h in absurd (ground arith)
  | inl e ↦
      let here : some i ≡ some j = rw e at h in
      inr (inr (ap (state b) (sym (some_injective here)) ∙ ==→eq (state b i) map_valid e))
]
remove_step-owns k b (check_again i) j h = elim (Bool-cases (get_or b.key i 0 == k)) [
  | inl e ↦ let held : some i ≡ some j = rw e at h in inl held
  | inr e ↦ let held : some i ≡ some j = rw e at h in inl held
]
remove_step-owns k b (take_val i) j h = inl h
remove_step-owns k b (clear i v) j h = absurd (ground arith)
remove_step-owns k b (restore i) j h = absurd (ground arith)
remove_step-owns k b (removed v) j h = absurd (ground arith)

-- A slot that a call comes to own was not marked.
pub call_step-owns :
    (b : Bucket) (c : Call) (j : ℕ)
    → owns (call_step b c).0 ≡ some j
    → (owns c ≡ some j) ⊎ Unmarked (state b j)
unfolding call_step
call_step-owns b idle j h = inl h
call_step-owns b (getting k p) j h = inl h
call_step-owns b (putting k v p) j h = put_step-owns k v b p j h
call_step-owns b (removing k p) j h = remove_step-owns k b p j h
