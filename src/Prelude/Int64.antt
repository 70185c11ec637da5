-- ===== src/Prelude/Int64.antt =====
-- Arithmetic of Go's `int` and `int64`: the value on the integers, wrapped around to 64 bits.
use Prim.Native.Nat.{ℕ, zero, suc, ◌+◌, ◌-◌, ◌*◌, ◌/◌, ◌%◌, ◌<◌}
use mathlib.Core.Path.{◌≡◌}
use mathlib.Core.Bool.{Bool, true, false}
use native.Mathlib.Omega.{arith}
use gremlins.Prelude.Signed.{ℤ, pos, negsuc}
use gremlins.Prelude.Tests.{ltb, if◌then◌else◌}

-- 2 ^ 63 and 2 ^ 64.
abbrev pub half : ℕ
half = 9223372036854775808

abbrev modulus : ℕ
modulus = 18446744073709551616

-- The integer of a pattern of 64 bits.
of_bits : ℕ → ℤ
of_bits n = if ltb n half then pos n else negsuc (modulus - 1 - n)

unfoldable pub wrap : ℤ → ℤ
unfolding of_bits
wrap (pos n) = of_bits (n % modulus)
wrap (negsuc n) = of_bits (modulus - 1 - n % modulus)

-- A value that fits is as it was.
pub wrap-pos : (n : ℕ) → n < half → wrap (pos n) ≡ pos n
unfolding wrap
wrap-pos n h = ground arith

pub wrap-negsuc : (n : ℕ) → n < half → wrap (negsuc n) ≡ negsuc n
unfolding wrap
wrap-negsuc n h = ground arith

abbrev pub is_zero : ℤ → Bool
is_zero (pos zero) = true
is_zero _ = false

unfoldable pub minus : ℕ → ℤ
minus zero = pos zero
minus (suc n) = negsuc n

unfoldable pub add : ℤ → ℤ → ℤ
unfolding wrap
add (pos a) (pos b) = wrap (pos (a + b))
add (pos a) (negsuc b) = wrap (if ltb b a then pos (a - suc b) else negsuc (b - a))
add (negsuc a) (pos b) = wrap (if ltb a b then pos (b - suc a) else negsuc (a - b))
add (negsuc a) (negsuc b) = wrap (negsuc (suc (a + b)))

unfoldable pub mul : ℤ → ℤ → ℤ
unfolding wrap minus
mul (pos a) (pos b) = wrap (pos (a * b))
mul (pos a) (negsuc b) = wrap (minus (a * suc b))
mul (negsuc a) (pos b) = wrap (minus (suc a * b))
mul (negsuc a) (negsuc b) = wrap (pos (suc a * suc b))

-- The division of Go, which rounds towards 0.
unfoldable pub quot : ℤ → ℤ → ℤ
unfolding wrap minus
quot (pos a) (pos b) = wrap (pos (a / b))
quot (pos a) (negsuc b) = wrap (minus (a / suc b))
quot (negsuc a) (pos b) = wrap (minus (suc a / b))
quot (negsuc a) (negsuc b) = wrap (pos (suc a / suc b))
