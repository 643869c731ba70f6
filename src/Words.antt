-- ===== src/Words.antt =====
-- Masks and shifts on machine words: what the tables use of `&` and `|`.
use Prim.Native.Nat.{digits, bit_and-bitwise, bit_or-bitwise}
use native.Mathlib.Nat.{
  mod-lt, mod-eq_of_lt, mul-add-mod_self_left, div-add-mod, pow-suc, zero-mod, zero-add,
  mul-le-mul_left,
}
use clht.Prelude.{
  ℕ, zero, suc, ◌+◌, ◌-◌, ◌*◌, ◌/◌, ◌%◌, ◌^◌, ◌≤◌, ◌<◌, bit_and, bit_or, min, max, ◌≡◌, sym, ◌∙◌,
  ap, arith,
}

abbrev and_digits : ℕ → ℕ → ℕ → ℕ
and_digits n a b = digits (λ b. zero) min n a b

abbrev or_digits : ℕ → ℕ → ℕ → ℕ
or_digits n a b = digits (λ b. b) max n a b

and_digits-le : (n a b : ℕ) → and_digits n a b ≤ b
and_digits-le zero zero b = omega arith
and_digits-le zero (suc a) b = omega arith
and_digits-le (suc n) zero b = omega arith
and_digits-le (suc n) (suc a) b = omega (arith, and_digits-le n (suc a / 2) (b / 2))

-- A mask bounds its result: `key & (num_buckets - 1)` is an index of the table, whatever the size.
pub bit_and-le : (a b : ℕ) → bit_and a b ≤ b
bit_and-le a b = omega (arith, bit_and-bitwise a b, and_digits-le a a b)

pub pow_pos : (k : ℕ) → 0 < 2 ^ k
pow_pos zero = omega arith
pow_pos (suc k) = omega (arith, pow-suc 2 k, pow_pos k)

double_mod : (a m : ℕ) → 0 < m → a / 2 % m * 2 + a % 2 ≡ a % (2 * m)
double_mod a m h =
    let q = a / 2 / m in
    let r = a / 2 % m in
    let low : r < m = mod-lt (a / 2) h in
    let parts : a ≡ 2 * m * q + (r * 2 + a % 2) = omega (arith, div-add-mod (a / 2) m) in
    sym (
      ap (λ t. t % (2 * m)) parts
      ∙ mul-add-mod_self_left (2 * m) q (r * 2 + a % 2)
      ∙ mod-eq_of_lt (omega arith))

and_digits_mask : (n a k : ℕ) → a ≤ n → and_digits n a (2 ^ k - 1) ≡ a % 2 ^ k
and_digits_mask n a zero h = omega (arith, and_digits-le n a 0)
and_digits_mask zero zero (suc k) h = sym (zero-mod (2 ^ suc k))
and_digits_mask zero (suc a) (suc k) h = absurd (omega arith)
and_digits_mask (suc n) zero (suc k) h = sym (zero-mod (2 ^ suc k))
and_digits_mask (suc n) (suc a) (suc k) h =
    let half : (2 ^ suc k - 1) / 2 ≡ 2 ^ k - 1 = omega (arith, pow-suc 2 k, pow_pos k) in
    let odd : (2 ^ suc k - 1) % 2 ≡ 1 = omega (arith, pow-suc 2 k, pow_pos k) in
    let twice : 2 ^ suc k ≡ 2 * 2 ^ k = omega (arith, pow-suc 2 k) in
    rw (half, odd, and_digits_mask n (suc a / 2) k (omega arith), twice)
      (omega (arith, double_mod (suc a) (2 ^ k) (pow_pos k)))

-- With a power of two for its size, a table spreads the keys by their low bits.
pub bit_and_mask : (a k : ℕ) → bit_and a (2 ^ k - 1) ≡ a % 2 ^ k
bit_and_mask a k = bit_and-bitwise a (2 ^ k - 1) ∙ and_digits_mask a a k (omega arith)

pub pow_split : (k j : ℕ) → 2 ^ (k + j) ≡ 2 ^ k * 2 ^ j
pow_split zero j = rw zero-add (omega arith)
pow_split (suc k) j =
    let e : suc k + j ≡ suc (k + j) = omega arith in
    rw (e, pow-suc 2 (k + j), pow-suc 2 k, pow_split k j) (grind arith)

pub pow-le : (k j : ℕ) → k ≤ j → 2 ^ k ≤ 2 ^ j
pow-le k j h =
    let e : j ≡ k + (j - k) = omega arith in
    let once : 2 ^ k * 1 ≤ 2 ^ k * 2 ^ (j - k) = mul-le-mul_left (2 ^ k) (pow_pos (j - k)) in
    rw e (omega (arith, pow_split k (j - k), once))

mod_low : (a k j : ℕ) → a % 2 ^ (k + j) % 2 ^ k ≡ a % 2 ^ k
mod_low a k j =
    let q = a / 2 ^ (k + j) in
    let r = a % 2 ^ (k + j) in
    let parts : a ≡ 2 ^ k * (2 ^ j * q) + r =
      sym (div-add-mod a (2 ^ (k + j))) ∙ rw (pow_split k j) (grind arith) in
    sym (ap (λ t. t % 2 ^ k) parts ∙ mul-add-mod_self_left (2 ^ k) (2 ^ j * q) r)

-- Keys that share a bucket of a table share one in a table with fewer bits in its mask.
pub bit_and_mask-low :
    (a b k j : ℕ)
    → bit_and a (2 ^ (k + j) - 1) ≡ bit_and b (2 ^ (k + j) - 1)
    → bit_and a (2 ^ k - 1) ≡ bit_and b (2 ^ k - 1)
bit_and_mask-low a b k j h =
    let low : a % 2 ^ (k + j) ≡ b % 2 ^ (k + j) =
      sym (bit_and_mask a (k + j)) ∙ h ∙ bit_and_mask b (k + j) in
    bit_and_mask a k
    ∙ sym (mod_low a k j)
    ∙ ap (λ t. t % 2 ^ k) low
    ∙ mod_low b k j
    ∙ sym (bit_and_mask b k)

or_digits-ge : (n a b : ℕ) → a ≤ n → a ≤ or_digits n a b
or_digits-ge n zero b h = omega arith
or_digits-ge zero (suc a) b h = absurd (omega arith)
or_digits-ge (suc n) (suc a) b h = omega (arith, or_digits-ge n (suc a / 2) (b / 2) (omega arith))

pub bit_or-ge : (a b : ℕ) → a ≤ bit_or a b
bit_or-ge a b = omega (arith, bit_or-bitwise a b, or_digits-ge a a b (omega arith))

or_digits-lt : (n a b k : ℕ) → a ≤ n → a < 2 ^ k → b < 2 ^ k → or_digits n a b < 2 ^ k
or_digits-lt zero a b k h p q = q
or_digits-lt (suc n) zero b k h p q = q
or_digits-lt (suc n) (suc a) b zero h p q = absurd (omega arith)
or_digits-lt (suc n) (suc a) b (suc k) h p q = omega (
  arith,
  pow-suc 2 k,
  or_digits-lt n (suc a / 2) (b / 2) k (omega arith) (omega (arith, pow-suc 2 k))
      (omega (arith, pow-suc 2 k)),
)

pub bit_or-lt : (a b k : ℕ) → a < 2 ^ k → b < 2 ^ k → bit_or a b < 2 ^ k
bit_or-lt a b k p q = omega (arith, bit_or-bitwise a b, or_digits-lt a a b k (omega arith) p q)
