-- ===== src/Base/Int.antt =====
-- The C type `int` as an integer over the native numbers, and the kernel's error numbers.
use Prim.Native.Nat.{ℕ, zero, suc, ◌-◌, ◌%◌, ◌^◌}
use mathlib.Core.Bool.{Bool, true, false}
use mathlib.Core.Path.{◌≡◌, refl}

-- `negsuc n` is -(n + 1).
pub data ℤ : Type 0 where
  pos : ℕ → ℤ
  negsuc : ℕ → ℤ

-- `ret != 0`
abbrev pub ne_zero : ℤ → Bool
ne_zero (pos zero) = false
ne_zero (pos (suc n)) = true
ne_zero (negsuc n) = true

-- `ret < 0`
abbrev pub lt_zero : ℤ → Bool
lt_zero (pos n) = false
lt_zero (negsuc n) = true

-- `ret <= 0`
abbrev pub le_zero : ℤ → Bool
le_zero (pos zero) = true
le_zero (pos (suc n)) = false
le_zero (negsuc n) = true

-- The value of an `int` converted to an unsigned type of 16 or 32 bits.
abbrev pub to_u16 : ℤ → ℕ
to_u16 (pos n) = n % 2 ^ 16
to_u16 (negsuc n) = 2 ^ 16 - 1 - n % 2 ^ 16

abbrev pub to_u32 : ℤ → ℕ
to_u32 (pos n) = n % 2 ^ 32
to_u32 (negsuc n) = 2 ^ 32 - 1 - n % 2 ^ 32

abbrev pub eio : ℤ
eio = negsuc 4

abbrev pub enomem : ℤ
enomem = negsuc 11

abbrev pub efault : ℤ
efault = negsuc 13

abbrev pub ebusy : ℤ
ebusy = negsuc 15

abbrev pub enodev : ℤ
enodev = negsuc 18

abbrev pub einval : ℤ
einval = negsuc 21

abbrev pub eaddrnotavail : ℤ
eaddrnotavail = negsuc 98

pub ne_zero-false : (z : ℤ) → ne_zero z ≡ false → z ≡ pos 0
ne_zero-false (pos zero) e = refl
ne_zero-false (pos (suc n)) e = cc e
ne_zero-false (negsuc n) e = cc e
