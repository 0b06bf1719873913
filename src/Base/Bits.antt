-- ===== src/Base/Bits.antt =====
-- `|` of a number below `2 ^ k` and a multiple of `2 ^ k` is their sum, in both orders.
use Prim.Native.Nat.{
  ℕ, zero, suc, ◌+◌, ◌*◌, ◌/◌, ◌^◌, ◌≤◌, ◌<◌, max, bit_or, bit_or-bitwise, digits,
}
use mathlib.Core.Path.{◌≡◌, refl, ap, ◌∙◌}
use native.Mathlib.Omega.{arith}
use native.Mathlib.Nat.{pow-suc}

abbrev or_digits : ℕ → ℕ → ℕ → ℕ
or_digits n a b = digits (λ y. y) max n a b

pub mul-pow-suc : (q k : ℕ) → q * 2 ^ suc k ≡ 2 * (q * 2 ^ k)
mul-pow-suc q k = omega (arith, ap (λ (t : ℕ). q * t) (pow-suc 2 k))

or_digits_low : (n k a b q : ℕ) → a ≤ n → a < 2 ^ k → b ≡ q * 2 ^ k → or_digits n a b ≡ a + b
or_digits_low zero k zero b q p h e = omega arith
or_digits_low zero k (suc a) b q p h e = absurd (omega arith)
or_digits_low (suc n) k zero b q p h e = omega arith
or_digits_low (suc n) zero (suc a) b q p h e = absurd (omega arith)
or_digits_low (suc n) (suc k) (suc a) b q p h e = omega (
  arith,
  mul-pow-suc q k,
  pow-suc 2 k,
  or_digits_low n k (suc a / 2) (b / 2) q (omega arith) (omega (arith, pow-suc 2 k))
      (omega (arith, mul-pow-suc q k)),
)

pub bit_or_low : (k a q : ℕ) → a < 2 ^ k → bit_or a (q * 2 ^ k) ≡ a + q * 2 ^ k
bit_or_low k a q h =
    bit_or-bitwise a (q * 2 ^ k) ∙ or_digits_low a k a (q * 2 ^ k) q (omega arith) h refl

or_digits-zero : (n a : ℕ) → a ≤ n → or_digits n a 0 ≡ a
or_digits-zero zero zero h = refl
or_digits-zero zero (suc a) h = absurd (omega arith)
or_digits-zero (suc n) zero h = refl
or_digits-zero (suc n) (suc a) h = omega (arith, or_digits-zero n (suc a / 2) (omega arith))

or_digits_high : (n k a r q : ℕ) → a ≤ n → r < 2 ^ k → a ≡ q * 2 ^ k → or_digits n a r ≡ a + r
or_digits_high n zero a zero q p h e = omega (arith, or_digits-zero n a p)
or_digits_high n zero a (suc r) q p h e = absurd (omega arith)
or_digits_high zero (suc k) zero r q p h e = omega arith
or_digits_high zero (suc k) (suc a) r q p h e = absurd (omega arith)
or_digits_high (suc n) (suc k) zero r q p h e = omega arith
or_digits_high (suc n) (suc k) (suc a) r q p h e = omega (
  arith,
  mul-pow-suc q k,
  pow-suc 2 k,
  or_digits_high n k (suc a / 2) (r / 2) q (omega arith) (omega (arith, pow-suc 2 k))
      (omega (arith, mul-pow-suc q k)),
)

pub bit_or_high : (k q r : ℕ) → r < 2 ^ k → bit_or (q * 2 ^ k) r ≡ q * 2 ^ k + r
bit_or_high k q r h =
    bit_or-bitwise (q * 2 ^ k) r ∙ or_digits_high (q * 2 ^ k) k (q * 2 ^ k) r q (omega arith) h refl
