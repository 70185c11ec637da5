-- ===== src/Report/Float.antt =====
-- The type `float64`, of which antt has no counterpart: the operations that the report uses are
-- parameters. `FloatLaws` states what IEEE 754 gives for the values that occur: sums of counters,
-- their quotients, and thresholds that are no NaN.
use gremlins.Prelude.{ℕ, ◌*◌, ◌≤◌, ◌<◌, ◌≡◌, Bool, true, false, ℤ, pos}

pub record Float64 : Type 1 where
  pub F : Type 0
  pub of_int : ℤ → F
  pub div : F → F → F
  pub mul : F → F → F
  pub lt : F → F → Bool
  pub le : F → F → Bool
  pub eq : F → F → Bool

-- A quotient of two counters, the first no greater than the second, is between 0 and 1; its product
-- with 100 is between 0 and 100. Rounding is monotonic and exact at these ends.
pub record FloatLaws (f : Float64) : Type 0 where
  pub div_nonneg :
      (a b : ℕ)
      → 0 < b
      → f.le (f.of_int (pos 0)) (f.div (f.of_int (pos a)) (f.of_int (pos b))) ≡ true
  pub div_le_one :
      (a b : ℕ)
      → 0 < b
      → a ≤ b
      → f.le (f.div (f.of_int (pos a)) (f.of_int (pos b))) (f.of_int (pos 1)) ≡ true
  pub mul_mono_hundred :
      (x y : f.F)
      → f.le x y ≡ true
      → f.le (f.mul x (f.of_int (pos 100))) (f.mul y (f.of_int (pos 100))) ≡ true
  pub mul_int :
      (a b : ℕ)
      → a ≤ 1
      → b ≤ 100
      → f.mul (f.of_int (pos a)) (f.of_int (pos b)) ≡ f.of_int (pos (a * b))
  pub le_refl_int : (a : ℕ) → a ≤ 100 → f.le (f.of_int (pos a)) (f.of_int (pos a)) ≡ true
  pub lt_int : (a b : ℕ) → a < b → b ≤ 100 → f.lt (f.of_int (pos a)) (f.of_int (pos b)) ≡ true
  pub eq_int : (a b : ℕ) → a < b → b ≤ 100 → f.eq (f.of_int (pos b)) (f.of_int (pos a)) ≡ false
  pub zero_le_hundred : f.le (f.of_int (pos 0)) (f.of_int (pos 100)) ≡ true
