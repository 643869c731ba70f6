-- ===== src/LbRes/Resize/Sizes.antt =====
-- The factor by which `ht_status` grows a table.
use native.Mathlib.Nat.{pow-suc, mul-le-mul_left, div-add-mod}
use clht.Prelude.{
  ℕ, zero, suc, ◌*◌, ◌/◌, ◌^◌, ◌-◌, ◌<◌, ◌≤◌, ◌≡◌, refl, ltb, bit_or, Bool-cases, inl, inr, arith,
}
use clht.Words.{bit_or-ge, bit_or-lt}
use clht.LbRes.Resize.{pow2roundup, as_int, increase}

-- one line of `pow2roundup`: `x |= x >> k`
abbrev smear : ℕ → ℕ → ℕ
smear x k = bit_or x (x / 2 ^ k)

smear-lt : (x s k : ℕ) → x < 2 ^ k → smear x s < 2 ^ k
smear-lt x s k h = bit_or-lt x (x / 2 ^ s) k h (grind arith)

abbrev smeared : ℕ → ℕ
smeared x = smear (smear (smear (smear (smear (smear x 1) 2) 4) 8) 16) 32

smeared-ge : (x : ℕ) → x ≤ smeared x
smeared-ge x =
    let a = smear x 1 in
    let b = smear a 2 in
    let c = smear b 4 in
    let d = smear c 8 in
    let e = smear d 16 in
    omega (
      arith,
      bit_or-ge x (x / 2 ^ 1),
      bit_or-ge a (a / 2 ^ 2),
      bit_or-ge b (b / 2 ^ 4),
      bit_or-ge c (c / 2 ^ 8),
      bit_or-ge d (d / 2 ^ 16),
      bit_or-ge e (e / 2 ^ 32),
    )

smeared-lt : (x k : ℕ) → x < 2 ^ k → smeared x < 2 ^ k
smeared-lt x k h =
    smear-lt _ 32 k
      (smear-lt _ 16 k (smear-lt _ 8 k (smear-lt _ 4 k (smear-lt _ 2 k (smear-lt x 1 k h)))))

-- the highest power of two in a number
record Log (y : ℕ) : Type 0 where
  exponent : ℕ
  low : 2 ^ exponent ≤ y
  high : y < 2 ^ suc exponent

log : (k y : ℕ) → 0 < y → y < 2 ^ k → Log y
log zero y p h = absurd (omega arith)
log (suc k) y p h = elim (Bool-cases (ltb y (2 ^ k))) [
  | inl e ↦ log k y p (ground arith)
  | inr e ↦ record { exponent = k; low = ground arith; high = h }
]

pow2roundup-ge : (x : ℕ) → x < 2 ^ 32 → x ≤ pow2roundup x
unfolding pow2roundup
pow2roundup-ge zero h = omega arith
pow2roundup-ge (suc x) h = omega (arith, smeared-ge x, smeared-lt x 32 (omega arith))

pow2roundup_pos : (x : ℕ) → x < 2 ^ 32 → 0 < pow2roundup x
unfolding pow2roundup
pow2roundup_pos zero h = omega arith
pow2roundup_pos (suc x) h = omega (arith, smeared-lt x 32 (omega arith))

pow2roundup-le : (x : ℕ) → 1 < x → x < 2 ^ 32 → pow2roundup x ≤ 2 * (x - 1)
unfolding pow2roundup
pow2roundup-le zero p h = absurd (omega arith)
pow2roundup-le (suc x) p h =
    let l = log 32 x (omega arith) (omega arith) in
    omega (
      arith,
      l.low,
      pow-suc 2 l.exponent,
      smeared-lt x (suc l.exponent) l.high,
      smeared-lt x 32 (omega arith),
    )

pow2roundup_one : (x : ℕ) → x ≤ 1 → pow2roundup x ≡ 1
unfolding pow2roundup
pow2roundup_one zero h = refl
pow2roundup_one (suc zero) h = refl
pow2roundup_one (suc (suc x)) h = absurd (omega arith)

-- A power that an `int` holds is kept.
as_int-small : (x : ℕ) → x < 2 ^ 31 → as_int x ≡ x
as_int-small x h = ground arith

pow2roundup-as_int : (x : ℕ) → x < 2 ^ 30 → as_int (pow2roundup x) ≡ pow2roundup x
pow2roundup-as_int x h = elim (Bool-cases (ltb 1 x)) [
  | inl e ↦
      as_int-small (pow2roundup x)
        (omega (arith, pow2roundup-le x (ground arith) (omega (arith, h))))
  | inr e ↦ as_int-small (pow2roundup x) (omega (arith, pow2roundup_one x (ground arith)))
]

-- the quotient that `ht_status` rounds up
abbrev pub ratio : ℕ → ℕ → ℕ
ratio n size = 100 * size / (n * 3) / 40

ratio-le : (n size : ℕ) → 0 < n → ratio n size * n * 120 ≤ 100 * size
ratio-le n size h =
    let q = 100 * size / (n * 3) in
    let r = q / 40 in
    let outer : n * 3 * q ≤ 100 * size = omega (arith, div-add-mod (100 * size) (n * 3)) in
    let inner : 40 * r ≤ q = omega arith in
    let scaled : n * 3 * (40 * r) ≤ n * 3 * q = mul-le-mul_left (n * 3) inner in
    omega (arith, outer, scaled)

-- A table at least doubles.
pub increase-ge : (n size : ℕ) → ratio n size < 2 ^ 30 → 2 ≤ increase n size
unfolding increase
increase-ge n size h =
    rw (pow2roundup-as_int (ratio n size) h)
      (ground (arith, pow2roundup_pos (ratio n size) (omega (arith, h))))

increase-one : (n size : ℕ) → ratio n size ≤ 1 → increase n size ≡ 2
unfolding increase
increase-one n size h = rw (pow2roundup_one (ratio n size) h) refl

increase-le_ratio :
    (n size : ℕ) → 1 < ratio n size → ratio n size < 2 ^ 30 → increase n size ≤ 2 * ratio n size
unfolding increase
increase-le_ratio n size p h =
    rw (pow2roundup-as_int (ratio n size) h)
      (ground (arith, pow2roundup-le (ratio n size) p (omega (arith, h))))

ratio-lt : (n size : ℕ) → 0 < n → size < 2 ^ 30 → ratio n size < 2 ^ 30
ratio-lt n size h small =
    let r = ratio n size in
    let once : r * 1 ≤ r * n = mul-le-mul_left r h in omega (arith, ratio-le n size h, once)

-- Of a table of at least one and fewer than 2 ^ 31 buckets, and fewer than 2 ^ 30 bindings, the size
-- that `ht_status` asks for is at least twice the old one, and below 2 ^ 32: the factor is not negative
-- as an `int`.
pub increase_bounds :
    (n size : ℕ)
    → 0 < n
    → n < 2 ^ 31
    → size < 2 ^ 30
    → (2 * n ≤ increase n size * n) × (increase n size * n < 2 ^ 32)
increase_bounds n size h few small =
    let r = ratio n size in
    let r_lt = ratio-lt n size h small in
    let twice : n * 2 ≤ n * increase n size = mul-le-mul_left n (increase-ge n size r_lt) in
    elim (Bool-cases (ltb 1 r)) [
      | inl e ↦
          let above : n * increase n size ≤ n * (2 * r) =
            mul-le-mul_left n (increase-le_ratio n size (ground arith) r_lt) in
          (omega arith, omega (arith, above, ratio-le n size h))
      | inr e ↦ (omega arith, rw (increase-one n size (ground arith)) (omega arith))
    ]
