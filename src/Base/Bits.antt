-- ===== src/Base/Bits.antt =====
-- `bit_and` and `bit_or` at variables: masks of low digits, and fields that lie beside one another.
use Prim.Native.Nat.{
  ℕ, zero, suc, ◌+◌, ◌*◌, ◌/◌, ◌%◌, ◌^◌, ◌≤◌, ◌<◌, min, max, bit_and, bit_or, digits,
  bit_and-bitwise, bit_or-bitwise,
}
use mathlib.Core.Path.{◌≡◌, refl, ap, ◌∙◌}
use native.Mathlib.Omega.{arith}

-- More rounds than the first number has digits change nothing.
digits-rounds :
    (z : ℕ → ℕ) (f : ℕ → ℕ → ℕ) (n m a b : ℕ) → a ≤ n → a ≤ m → digits z f n a b ≡ digits z f m a b
digits-rounds z f zero zero a b p q = refl
digits-rounds z f zero (suc m) zero b p q = refl
digits-rounds z f zero (suc m) (suc a) b p q = absurd (omega arith)
digits-rounds z f (suc n) zero zero b p q = refl
digits-rounds z f (suc n) zero (suc a) b p q = absurd (omega arith)
digits-rounds z f (suc n) (suc m) zero b p q = refl
digits-rounds z f (suc n) (suc m) (suc a) b p q =
    ap (λ d. d * 2 + f (suc a % 2) (b % 2))
      (digits-rounds z f n m (suc a / 2) (b / 2) (omega arith) (omega arith))

-- The lowest digit of each operation.
bit_and-lowest : (a b : ℕ) → bit_and a b ≡ bit_and (a / 2) (b / 2) * 2 + min (a % 2) (b % 2)
bit_and-lowest zero b = omega (arith, bit_and-bitwise 0 b, bit_and-bitwise 0 (b / 2))
bit_and-lowest (suc a) b = omega (
  arith,
  bit_and-bitwise (suc a) b,
  bit_and-bitwise (suc a / 2) (b / 2),
  digits-rounds (λ b. zero) min a (suc a / 2) (suc a / 2) (b / 2) (omega arith) (omega arith),
)

bit_or-lowest : (a b : ℕ) → bit_or a b ≡ bit_or (a / 2) (b / 2) * 2 + max (a % 2) (b % 2)
bit_or-lowest zero b = omega (arith, bit_or-bitwise 0 b, bit_or-bitwise 0 (b / 2))
bit_or-lowest (suc a) b = omega (
  arith,
  bit_or-bitwise (suc a) b,
  bit_or-bitwise (suc a / 2) (b / 2),
  digits-rounds (λ b. b) max a (suc a / 2) (suc a / 2) (b / 2) (omega arith) (omega arith),
)

-- `k` digits: the numbers below the bound, the mask of ones, and a number moved up by them.
abbrev bound : ℕ → ℕ
bound zero = 1
bound (suc k) = bound k * 2

abbrev ones : ℕ → ℕ
ones zero = 0
ones (suc k) = ones k * 2 + 1

abbrev up : ℕ → ℕ → ℕ
up zero a = a
up (suc k) a = up k a * 2

bit_and-zero : (n a : ℕ) → a ≤ n → bit_and a 0 ≡ 0
bit_and-zero n zero l = bit_and-bitwise 0 0
bit_and-zero zero (suc a) l = absurd (omega arith)
bit_and-zero (suc n) (suc a) l =
    omega (arith, bit_and-lowest (suc a) 0, bit_and-zero n (suc a / 2) (omega arith))

bit_or-zero : (n a : ℕ) → a ≤ n → bit_or a 0 ≡ a
bit_or-zero n zero l = bit_or-bitwise 0 0
bit_or-zero zero (suc a) l = absurd (omega arith)
bit_or-zero (suc n) (suc a) l =
    omega (arith, bit_or-lowest (suc a) 0, bit_or-zero n (suc a / 2) (omega arith))

-- A mask leaves a number that it covers.
bit_and-ones : (k a : ℕ) → a < bound k → bit_and a (ones k) ≡ a
bit_and-ones zero a l = omega (arith, bit_and-zero a a (omega arith))
bit_and-ones (suc k) a l = omega (
  arith,
  bit_and-lowest a (ones k * 2 + 1),
  ap (bit_and (a / 2)) {x = (ones k * 2 + 1) / 2} {y = ones k} (omega arith),
  bit_and-ones k (a / 2) (omega arith),
)

-- A mask that is moved up with the number.
bit_and-up : (k a b : ℕ) → bit_and (up k a) (up k b) ≡ up k (bit_and a b)
bit_and-up zero a b = refl
bit_and-up (suc k) a b = omega (
  arith,
  bit_and-lowest (up k a * 2) (up k b * 2),
  ap (λ n. bit_and n (up k b * 2 / 2)) {x = up k a * 2 / 2} {y = up k a} (omega arith),
  ap (bit_and (up k a)) {x = up k b * 2 / 2} {y = up k b} (omega arith),
  bit_and-up k a b,
)

-- Two fields beside one another.
bit_or-up : (k a b : ℕ) → b < bound k → bit_or (up k a) b ≡ up k a + b
bit_or-up zero a b l =
    omega (arith, bit_or-zero a a (omega arith), ap (bit_or a) {x = b} {y = 0} (omega arith))
bit_or-up (suc k) a b l = omega (
  arith,
  bit_or-lowest (up k a * 2) b,
  ap (λ n. bit_or n (b / 2)) {x = up k a * 2 / 2} {y = up k a} (omega arith),
  bit_or-up k a (b / 2) (omega arith),
)

-- A mask of 16 ones leaves a number of 16 bits, a mask of 16 ones moved up by 16 such a number moved up,
-- and the two are added where they are joined.
pub bit_and-low : (a : ℕ) → a < 2 ^ 16 → bit_and a 65535 ≡ a
bit_and-low a l = bit_and-ones 16 a l

pub bit_and-high : (a : ℕ) → a < 2 ^ 16 → bit_and (a * 2 ^ 16) 4294901760 ≡ a * 2 ^ 16
bit_and-high a l =
    ap (λ n. bit_and n 4294901760) {x = a * 2 ^ 16} {y = up 16 a} (omega arith)
    ∙ bit_and-up 16 a 65535
    ∙ omega (arith, bit_and-low a l)

pub bit_or-fields : (a b : ℕ) → b < 2 ^ 16 → bit_or (a * 2 ^ 16) b ≡ a * 2 ^ 16 + b
bit_or-fields a b l =
    ap (λ n. bit_or n b) {x = a * 2 ^ 16} {y = up 16 a} (omega arith)
    ∙ bit_or-up 16 a b l
    ∙ omega arith
