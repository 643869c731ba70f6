-- ===== src/Lf/Snapshot/Laws.antt =====
-- Equal words, free slots and stores into the map.
use clht.Prelude.{
  ℕ, zero, suc, ◌+◌, ◌==◌, ◌≡◌, ◌≢◌, refl, ◌∙◌, true, some, List, [], ◌∷◌, set, Bool-cases, inl,
  inr, arith, ap,
}
use clht.Lf.Snapshot.{
  map_invld, Snapshot, map_at, snap_get_empty_index, empty_index, same, same_map,
}

same_map-eq : (ms ns : List ℕ) → same_map ms ns ≡ true → ms ≡ ns
unfolding same_map
same_map-eq [] [] e = refl
same_map-eq [] (n ∷ ns) e = absurd (ground arith)
same_map-eq (m ∷ ms) [] e = absurd (ground arith)
same_map-eq (m ∷ ms) (n ∷ ns) e =
    let head : m ≡ n = ground arith in
    let rest = same_map-eq ms ns (ground arith) in rw (head, rest)

-- a compare-and-swap that succeeds has read the map that is there
pub same-map : (s t : Snapshot) → same s t ≡ true → s.map ≡ t.map
unfolding same
same-map s t e = same_map-eq s.map t.map (ground arith)

map_at-empty_index :
    (i j : ℕ) (ms : List ℕ)
    → empty_index i ms ≡ some j
    → (k : ℕ) × (j ≡ i + k) × (map_at ms k ≡ map_invld)
unfolding empty_index
map_at-empty_index i j [] e = absurd (ground arith)
map_at-empty_index i j (m ∷ ms) e = elim (Bool-cases (m == map_invld)) [
  | inl p ↦ (0, ground arith, ground arith)
  | inr p ↦
      let (k, at, free) = map_at-empty_index (suc i) j ms (ground arith) in
      (suc k, omega arith, free)
]

-- the index that is found is that of a free slot
pub map_at-snap_get_empty_index :
    (s : Snapshot) (i : ℕ) → snap_get_empty_index s ≡ some i → map_at s.map i ≡ map_invld
unfolding snap_get_empty_index
map_at-snap_get_empty_index s i e =
    let (k, at, free) = map_at-empty_index 0 i s.map e in
    let here : i ≡ k = omega (arith, at) in ap (map_at s.map) here ∙ free

pub map_at-set : (ms : List ℕ) (i v : ℕ) → map_at ms i ≢ 3 → map_at (set ms i v) i ≡ v
map_at-set [] i v ne = absurd (ne refl)
map_at-set (m ∷ ms) zero v ne = refl
map_at-set (m ∷ ms) (suc i) v ne = map_at-set ms i v ne
