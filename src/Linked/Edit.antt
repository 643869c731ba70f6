-- ===== src/Linked/Edit.antt =====
-- A table of `Linked` in which a free slot has got a new key, and a window has grown to hold it.
use mathlib.Core.Path.{subst}
use clht.Prelude.{
  ℕ, suc, ◌+◌, ◌≤◌, ◌≡◌, ◌≢◌, refl, sym, ap, ◌∙◌, ◌==◌, if◌then◌else◌, none, some, List, length,
  get_elem?, set, Bool-cases, ==→eq, ==→ne, ne→==, eq→==, Option-cases, inl, inr, arith,
}
use clht.Slots.{find}
use clht.Slots.Laws.{find-set, count-eq-zero}
use clht.LbRes.Bucket.{lock_free}
use clht.Linked.{max_expansions_hard, Bucket, Hashtable, hash_of}
use clht.Linked.Window.{bucket_at, bound_at, look-alike, look-none, look-longer, look-only}
use clht.Linked.Locking.{lock_at, Alike}
use clht.Linked.Valid.{hops_at, IsValid, view}

-- The array u is t with (k, v) in slot p.1 of bucket p.0, and `hops` of bucket i set to n.
pub record Edited (t : List Bucket) (i n : ℕ) (p : ℕ × ℕ) (k v : ℕ) (u : List Bucket) : Type 0 where
  pub size : length u ≡ length t
  pub unlocked : (m : ℕ) → lock_at u m ≡ lock_free
  pub here : (bucket_at u p.0).slots ≡ set (bucket_at t p.0).slots p.1 (k, v)
  pub there : (m : ℕ) → m ≢ p.0 → (bucket_at u m).slots ≡ (bucket_at t m).slots
  pub hops_here : (bucket_at u i).hops ≡ n
  pub hops_there : (m : ℕ) → m ≢ i → (bucket_at u m).hops ≡ (bucket_at t m).hops

-- A key that is not in its window is nowhere.
pub bound_at-none :
    (ht : Hashtable) (k m : ℕ)
    → IsValid ht
    → k ≢ 0
    → view ht k ≡ none
    → bound_at k ht.table m ≡ none
unfolding view
bound_at-none ht k m valid nonzero gone = elim (Option-cases (bound_at k ht.table m)) [
  | inl e ↦ e
  | inr (w, e) ↦
      let (low, high) = valid.windowed k m nonzero (λ z. absurd (ground arith)) in
      look-none (suc (hops_at ht (hash_of ht k))) k ht.table (hash_of ht k) m gone low
        (omega (arith, high))
]

module _ (ht : Hashtable) (k v : ℕ) (valid : IsValid ht) (nonzero : k ≢ 0)
    (gone : view ht k ≡ none) where
  abbrev bin : ℕ
  bin = hash_of ht k

  module _ (u : List Bucket) (n old : ℕ) (p : ℕ × ℕ) (x : Edited ht.table bin n p k v u)
      (empty : get_elem? (bucket_at ht.table p.0).slots p.1 ≡ some (0, old)) (low : bin ≤ p.0)
      (high : p.0 ≤ bin + n) (grown : hops_at ht bin ≤ n) (limit : n ≤ max_expansions_hard) where
    abbrev edited : Hashtable
    edited = record ht { table = u }

    bound_at-slot :
        (q : ℕ) → q ≢ 0 → bound_at q u p.0 ≡ (if k == q then some v else bound_at q ht.table p.0)
    bound_at-slot q nz =
        ap (find q) x.here
        ∙ find-set q (bucket_at ht.table p.0).slots p.1 old k v nz empty (
            count-eq-zero k (bucket_at ht.table p.0).slots
              (bound_at-none ht k p.0 valid nonzero gone))

    bound_at-key : bound_at k u p.0 ≡ some v
    bound_at-key = bound_at-slot k nonzero ∙ rw (eq→== k k refl) refl

    bound_at-other : (q m : ℕ) → q ≢ 0 → q ≢ k → bound_at q u m ≡ bound_at q ht.table m
    bound_at-other q m nz ne = elim (Bool-cases (m == p.0)) [
      | inl e ↦
          subst (λ w. bound_at q u w ≡ bound_at q ht.table w) (sym (==→eq m p.0 e))
            (bound_at-slot q nz ∙ rw (ne→== k q (λ z. ne (sym z))) refl)
      | inr e ↦ ap (find q) (x.there m (==→ne m p.0 e))
    ]

    bound_at-elsewhere : (m : ℕ) → m ≢ p.0 → bound_at k u m ≡ none
    bound_at-elsewhere m ne = ap (find k) (x.there m ne) ∙ bound_at-none ht k m valid nonzero gone

    hops-le : (m : ℕ) → hops_at ht m ≤ hops_at edited m
    hops-le m = elim (Bool-cases (m == bin)) [
      | inl e ↦
          subst (λ w. hops_at ht w ≤ hops_at edited w) (sym (==→eq m bin e))
            (omega (arith, grown, x.hops_here))
      | inr e ↦ omega (arith, x.hops_there m (==→ne m bin e))
    ]

    hops-limit : (m : ℕ) → hops_at edited m ≤ max_expansions_hard
    hops-limit m = elim (Bool-cases (m == bin)) [
      | inl e ↦
          subst (λ w. hops_at edited w ≤ max_expansions_hard) (sym (==→eq m bin e))
            (omega (arith, limit, x.hops_here))
      | inr e ↦ omega (arith, x.hops_there m (==→ne m bin e), valid.bounded m)
    ]

    windowed_after :
        (q m : ℕ)
        → q ≢ 0
        → bound_at q u m ≢ none
        → (hash_of ht q ≤ m) × (m ≤ hash_of ht q + hops_at edited (hash_of ht q))
    windowed_after q m nz some_value = elim (Bool-cases (q == k)) [
      | inr e ↦
          let same = bound_at-other q m nz (==→ne q k e) in
          let (a, b) = valid.windowed q m nz (λ z. some_value (same ∙ z)) in
          (a, omega (arith, b, hops-le (hash_of ht q)))
      | inl e ↦
          let key = ==→eq q k e in
          elim (Bool-cases (m == p.0)) [
            | inr f ↦
                absurd
                  (some_value (ap (λ w. bound_at w u m) key ∙ bound_at-elsewhere m (==→ne m p.0 f)))
            | inl f ↦
                let at_p = ==→eq m p.0 f in
                subst (λ w. (hash_of ht w ≤ m) × (m ≤ hash_of ht w + hops_at edited (hash_of ht w)))
                  (sym key) (omega (arith, at_p, low), omega (arith, at_p, high, x.hops_here))
          ]
    ]

    pub edited-IsValid : IsValid edited
    unfolding hash_of
    edited-IsValid = record {
      sized = x.size ∙ valid.sized;
      masked = valid.masked;
      free = x.unlocked;
      bounded = hops-limit;
      windowed = windowed_after;
    }

    pub view-key : view edited k ≡ some v
    unfolding view hash_of
    view-key =
        look-only (suc (hops_at edited bin)) k v u bin p.0 bound_at-elsewhere bound_at-key low
          (omega (arith, high, x.hops_here))

    pub view-other : (q : ℕ) → q ≢ 0 → q ≢ k → view edited q ≡ view ht q
    unfolding view hash_of
    view-other q nz ne =
        let home = hash_of ht q in
        look-alike (suc (hops_at edited home)) q ht.table u home (λ m. bound_at-other q m nz ne)
        ∙ look-longer (suc (hops_at ht home)) (suc (hops_at edited home)) q ht.table home
            (omega (arith, hops-le home))
            (λ m l. elim (Option-cases (bound_at q ht.table m)) [
              | inl e ↦ e
              | inr (w, e) ↦
                  let (a, b) = valid.windowed q m nz (λ z. absurd (ground arith)) in
                  absurd (omega (arith, b, l))
            ])

-- An array with the same slots and windows stands for the same map.
module _ (ht : Hashtable) (valid : IsValid ht) (u : List Bucket) (x : Alike ht.table u) where
  abbrev unlocked : Hashtable
  unlocked = record ht { table = u }

  pub Alike-IsValid : ((m : ℕ) → lock_at u m ≡ lock_free) → IsValid unlocked
  unfolding hash_of
  Alike-IsValid free = record {
    sized = x.size ∙ valid.sized;
    masked = valid.masked;
    free = free;
    bounded = λ m. omega (arith, x.hops m, valid.bounded m);
    windowed = λ k m nz b.
        let (low, high) = valid.windowed k m nz (λ z. b (ap (find k) (x.slots m) ∙ z)) in
        (low, omega (arith, high, x.hops (hash_of ht k)));
  }

  pub Alike-view : (k : ℕ) → view unlocked k ≡ view ht k
  unfolding view hash_of
  Alike-view k = rw (x.hops (hash_of ht k)) (
      look-alike (suc (hops_at ht (hash_of ht k))) k ht.table u (hash_of ht k)
        (λ m. ap (find k) (x.slots m)))
