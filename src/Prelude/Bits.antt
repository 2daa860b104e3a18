-- ===== src/Prelude/Bits.antt =====
-- The `|` of C on numbers whose bits do not overlap.
use Prim.Native.Nat.{
  ℕ, zero, suc, max, digits, bit_or, bit_or-bitwise, ◌+◌, ◌*◌, ◌/◌, ◌%◌, ◌^◌, ◌≤◌, ◌<◌,
}
use mathlib.Core.Path.{◌≡◌, refl, sym, ◌∙◌}
use native.Mathlib.Nat.{mul_assoc, pow-suc}
use native.Mathlib.Omega.{arith}

digits_shifted :
    (k n a b : ℕ) → a ≤ n → a < 2 ^ k → digits (λ b. b) max n a (b * 2 ^ k) ≡ a + b * 2 ^ k
digits_shifted k zero zero b le small = omega arith
digits_shifted k zero (suc a) b le small = absurd (omega arith)
digits_shifted k (suc n) zero b le small = omega arith
digits_shifted zero (suc n) (suc a) b le small = absurd (omega arith)
digits_shifted (suc k) (suc n) (suc a) b le small =
    let twice : b * 2 ^ suc k ≡ b * 2 ^ k * 2 = rw (pow-suc 2 k) (sym (mul_assoc b (2 ^ k) 2)) in
    let half : b * 2 ^ suc k / 2 ≡ b * 2 ^ k = omega arith in
    let even : b * 2 ^ suc k % 2 ≡ 0 = omega arith in
    let later = digits_shifted k n (suc a / 2) b (omega arith) (omega arith) in
    rw (half, even, later) (omega arith)

-- The lower `k` bits and those from bit `k` on.
pub bit_or-shifted : (k a b : ℕ) → a < 2 ^ k → bit_or a (b * 2 ^ k) ≡ a + b * 2 ^ k
bit_or-shifted k a b small =
    (λ i. bit_or-bitwise a (b * 2 ^ k) i) ∙ digits_shifted k a a b (omega arith) small

module _ (z : ℕ → ℕ) (f : ℕ → ℕ → ℕ) where
  -- Any count of digits that is large enough gives the same.
  digits_enough : (m n a b : ℕ) → a ≤ m → a ≤ n → digits z f m a b ≡ digits z f n a b
  digits_enough zero zero a b p q = refl
  digits_enough zero (suc n) zero b p q = refl
  digits_enough zero (suc n) (suc a) b p q = absurd (omega arith)
  digits_enough (suc m) zero zero b p q = refl
  digits_enough (suc m) zero (suc a) b p q = absurd (omega arith)
  digits_enough (suc m) (suc n) zero b p q = refl
  digits_enough (suc m) (suc n) (suc a) b p q =
      rw (digits_enough m n (suc a / 2) (b / 2) (omega arith) (omega arith))

-- The lowest digit, and the others.
bit_or_digit : (a b : ℕ) → bit_or a b ≡ bit_or (a / 2) (b / 2) * 2 + max (a % 2) (b % 2)
bit_or_digit zero b = simp bit_or-bitwise (omega arith)
bit_or_digit (suc a) b = simp bit_or-bitwise (
    omega (
      arith,
      digits_enough (λ y. y) max a (suc a / 2) (suc a / 2) (b / 2) (omega arith) (omega arith),
    ))

times_twice : (t k : ℕ) → t * 2 ^ suc k ≡ t * 2 ^ k * 2
times_twice t k = rw (pow-suc 2 k) (sym (mul_assoc t (2 ^ k) 2))

-- Where the second number has none of the lower `k` bits, these are those of the first.
pub bit_or-above :
    (k a x y : ℕ) → a < 2 ^ k → bit_or (a + x * 2 ^ k) (y * 2 ^ k) ≡ a + bit_or x y * 2 ^ k
bit_or-above zero a x y small =
    let none_below : a ≡ 0 = omega arith in
    let left : a + x * 2 ^ 0 ≡ x = omega arith in
    let right : y * 2 ^ 0 ≡ y = omega arith in rw (left, right) (omega arith)
bit_or-above (suc k) a x y small =
    let ex = times_twice x k in
    let ey = times_twice y k in
    let er = times_twice (bit_or x y) k in
    let left : (a + x * 2 ^ suc k) / 2 ≡ a / 2 + x * 2 ^ k = omega arith in
    let right : y * 2 ^ suc k / 2 ≡ y * 2 ^ k = omega arith in
    let low : (a + x * 2 ^ suc k) % 2 ≡ a % 2 = omega arith in
    let even : y * 2 ^ suc k % 2 ≡ 0 = omega arith in
    let small' : a / 2 < 2 ^ k = omega (arith, pow-suc 2 k) in
    bit_or_digit (a + x * 2 ^ suc k) (y * 2 ^ suc k)
    ∙ rw (left, right, low, even, bit_or-above k (a / 2) x y small') (omega (arith, er))
