-- ===== src/Gc/Versions.antt =====
-- The versions that threads use, and the least of them.
use clht.Prelude.{
  ℕ, ◌≤◌, ◌≡◌, ◌⊎◌, inl, inr, refl, sym, ltb, if◌then◌else◌, List, [], ◌∷◌, arith, Bool-cases,
}
use clht.Gc.{Ts, Handle, min_version, min_version_used}

abbrev pub All {ℓ κ} : {A : Type ℓ} → (A → Type κ) → List A → Type κ
All P [] = Unit
All P (x ∷ xs) = P x × All P xs

abbrev pub Any {ℓ} : {A : Type ℓ} → (A → Type 0) → List A → Type 0
Any P [] = ⊥
Any P (x ∷ xs) = P x ⊎ Any P xs

min_version-le :
    (m : ℕ) (ts : List Ts) → (min_version m ts ≤ m) × All (λ t. min_version m ts ≤ t.version) ts
unfolding min_version
min_version-le m [] = (omega arith, tt)
min_version-le m (t ∷ ts) =
    let least = if ltb t.version m then t.version else m in
    let rest = min_version-le least ts in
    let below : (least ≤ m) × (least ≤ t.version) = ground arith in
    (omega (arith, rest.0, below), (omega (arith, rest.0, below), rest.1))

abbrev Reached : ℕ → List Ts → ℕ → Type 0
Reached m ts n = (n ≡ m) ⊎ Any (λ t. t.version ≡ n) ts

Reached-more :
    (t : Ts) (m n : ℕ) (ts : List Ts)
    → Reached (if ltb t.version m then t.version else m) ts n
    → Reached m (t ∷ ts) n
Reached-more t m n ts (inr h) = inr (inr h)
Reached-more t m n ts (inl h) = elim (Bool-cases (ltb t.version m)) [
  | inl e ↦ inr (inl (sym (rw e at h)))
  | inr e ↦ inl (rw e at h)
]

min_version-Reached : (m : ℕ) (ts : List Ts) → Reached m ts (min_version m ts)
unfolding min_version
min_version-Reached m [] = inl refl
min_version-Reached m (t ∷ ts) =
    let least = if ltb t.version m then t.version else m in
    Reached-more t m (min_version least ts) ts (min_version-Reached least ts)

-- `clht_gc_min_version_used` returns the least of the current table's version and the versions that
-- the threads use: it is at most each of them, and it is one of them.
pub min_version_used_lem :
    (h : Handle)
    → (min_version_used h ≤ h.ht.version)
      × All (λ t. min_version_used h ≤ t.version) h.version_list
      × ((min_version_used h ≡ h.ht.version)
          ⊎ Any (λ t. t.version ≡ min_version_used h) h.version_list)
unfolding min_version_used
min_version_used_lem h =
    let low = min_version-le h.ht.version h.version_list in
    (low.0, low.1, min_version-Reached h.ht.version h.version_list)
