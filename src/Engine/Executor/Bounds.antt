-- ===== src/Engine/Executor/Bounds.antt =====
-- The time and the number of CPUs that the tests of a mutant are given.
use native.Mathlib.Nat.{div_self}
use gremlins.Prelude.{
  ℕ, zero, suc, ◌-◌, ◌*◌, ◌≤◌, ◌<◌, ◌≡◌, ◌⊎◌, refl, sym, ℤ, pos, negsuc, Bool, true, false, Text,
  ltb, if◌then◌else◌, arith,
}
use gremlins.Prelude.Int64.{half, mul, quot, minus, wrap-pos, wrap-negsuc, is_zero}
use gremlins.GoModule.{GoModule}
use gremlins.Engine.Executor.{second, new_executor_dealer, default_timeout_coefficient}

-- The time that is multiplied, and by how much; the sign is that of the coefficient.
abbrev pub base : ℕ → ℕ
base elapsed = if ltb elapsed second then second else elapsed

abbrev pub factor : ℤ → ℕ
factor (pos zero) = 5
factor (pos (suc n)) = suc n
factor (negsuc n) = suc n

-- The time of a test run, by the sign of the coefficient.
abbrev pub Timed : ℕ → ℤ → ℤ → Type 0
Timed elapsed (pos n) time =
    (k : ℕ) × (time ≡ pos k) × (k ≡ base elapsed * factor (pos n)) × (second ≤ k) × (elapsed ≤ k)
Timed elapsed (negsuc n) time = (k : ℕ) × (time ≡ negsuc k) × (suc k ≡ base elapsed * suc n)

le-mul : (a b c : ℕ) → a ≤ b → a ≤ b * suc c
le-mul a b c h = grind arith

mul-pos : (a b : ℕ) → a * b < half → mul (pos a) (pos b) ≡ pos (a * b)
unfolding mul
mul-pos a b h = wrap-pos (a * b) h

mul-negsuc : (a b k : ℕ) → suc k ≡ a * suc b → k < half → mul (pos a) (negsuc b) ≡ negsuc k
unfolding mul minus
mul-negsuc a b k e h = rw (sym e) (wrap-negsuc k h)

quot_self : (a : ℤ) → is_zero a ≡ false → quot a a ≡ pos 1
unfolding quot
quot_self (pos zero) h = cc
quot_self (pos (suc n)) h = rw (div_self {n = suc n} (omega arith)) (wrap-pos 1 (omega arith))
quot_self (negsuc n) h = rw (div_self {n = suc n} (omega arith)) (wrap-pos 1 (omega arith))

time-pos :
    (elapsed n : ℕ)
    → base elapsed * suc n < half
    → Timed elapsed (pos (suc n)) (mul (pos (base elapsed)) (pos (suc n)))
time-pos elapsed n h = (
  base elapsed * suc n,
  mul-pos (base elapsed) (suc n) h,
  refl,
  le-mul second (base elapsed) n (ground arith),
  le-mul elapsed (base elapsed) n (ground arith),
)

time-zero :
    (elapsed : ℕ)
    → base elapsed * 5 < half
    → Timed elapsed (pos 0) (mul (pos (base elapsed)) default_timeout_coefficient)
time-zero elapsed h = time-pos elapsed 4 h

time-negsuc :
    (elapsed n : ℕ)
    → base elapsed * suc n < half
    → Timed elapsed (negsuc n) (mul (pos (base elapsed)) (negsuc n))
time-negsuc elapsed n h =
    let e : suc (base elapsed * suc n - 1) ≡ base elapsed * suc n =
      omega (arith, le-mul second (base elapsed) n (ground arith)) in
    (base elapsed * suc n - 1, mul-negsuc (base elapsed) n _ e (omega (arith, e, h)), e)

-- Where the product fits into 64 bits: with a coefficient that is not negative, a test run is given
-- the time of the coverage run, or a second if that is more, times the coefficient, or times 5 if the
-- coefficient is 0, so that it is never less than a second, nor than the coverage run took; with a
-- negative one the time is negative, and as far from 0. The number of CPUs is the configured one, or
-- 1 in integration mode.
pub new_executor_dealer_lem :
    (mod_ : GoModule) (elapsed : ℕ) (tags : Text) (dry integration : Bool) (cpu coefficient : ℤ)
    → base elapsed * factor coefficient < half
    → let s = new_executor_dealer mod_ elapsed tags dry integration cpu coefficient in
      Timed elapsed coefficient s.test_execution_time
      × (((s.test_cpu ≡ cpu) × ((integration ≡ false) ⊎ (is_zero cpu ≡ true)))
          ⊎ ((s.test_cpu ≡ pos 1) × (integration ≡ true)))
unfolding new_executor_dealer
new_executor_dealer_lem mod_ elapsed tags dry integration cpu (pos zero) h =
    (time-zero elapsed h, ground (arith, quot_self cpu))
new_executor_dealer_lem mod_ elapsed tags dry integration cpu (pos (suc n)) h =
    (time-pos elapsed n h, ground (arith, quot_self cpu))
new_executor_dealer_lem mod_ elapsed tags dry integration cpu (negsuc n) h =
    (time-negsuc elapsed n h, ground (arith, quot_self cpu))
