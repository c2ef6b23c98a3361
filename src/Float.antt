-- ===== src/Float.antt =====
-- Python's `float`, and the few functions of `numpy`, `math` and `datetime` on floats that the
-- program calls. They are not code of the repository, so they are an interface: the operations
-- here, and in `IsOrdered` the laws that some theorems assume. A carrier that meets `IsOrdered` has
-- no NaN and one zero. `Float.Ticks` is such a carrier, ten-thousandths, on which the models run.
pub mod Ticks
use iron_spyder.Prelude.{ℕ, ◌≡◌, ◌⊎◌, ◌↔◌, Option, Bool, true, false, not, arith, if◌then◌else◌}
use iron_spyder.Prelude.Int.{ℤ, pos, ◌≤ℤ◌, neg_ℤ}

pub record Float (W : Type 0) : Type 0 where
  pub nought : W
  -- The literal with the digits `n`, the last `k` of them behind the point: 0.35 is `decimal 35 2`.
  pub decimal : ℕ → ℕ → W
  -- The conversion of an `int` where it meets a float.
  pub of_int : ℤ → W
  pub plus : W → W → W
  pub minus : W → W → W
  pub times : W → W → W
  -- `/`, for a divisor that the program has tested.
  pub over : W → W → W
  pub negate : W → W
  pub absolute : W → W
  pub lt : W → W → Bool
  pub le : W → W → Bool
  pub eq : W → W → Bool
  -- `math.isfinite`
  pub is_finite : W → Bool
  -- `int(a // b)`
  pub floor_div : W → W → ℤ
  -- `numpy.clip`, whose arguments are the value, the lower and the upper end.
  pub clip : W → W → W → W
  -- `numpy.log1p`
  pub log1p : W → W
  -- `timedelta(minutes=x)`, in microseconds; `none` is the exception for what has no such value.
  pub of_minutes : W → Option ℤ

module _ {W : Type 0} ⦃f : Float W⦄ where
  open f use {nought, lt, le, over, of_int, decimal}

  -- The builtins `max` and `min` of two values: the first one, unless the second is beyond it.
  abbrev pub max2 : W → W → W
  max2 a b = if lt a b then b else a

  abbrev pub min2 : W → W → W
  min2 a b = if lt b a then b else a

  -- `delta.total_seconds() / 60.0` of a `timedelta` in microseconds.
  abbrev pub to_minutes : ℤ → W
  to_minutes us = over (over (of_int us) (decimal 1_000_000 0)) (decimal 60 0)

pub record IsOrdered {W : Type 0} (f : Float W) : Type 0 where
  pub le_refl : (a : W) → f.le a a ≡ true
  pub le_trans : (a b c : W) → f.le a b ≡ true → f.le b c ≡ true → f.le a c ≡ true
  pub le_total : (a b : W) → (f.le a b ≡ true) ⊎ (f.le b a ≡ true)
  pub lt-eq-not-le : (a b : W) → f.lt a b ≡ not (f.le b a)
  pub eq_iff : (a b : W) → (f.eq a b ≡ true) ↔ (a ≡ b)
  -- Rounding is monotone.
  pub plus_mono :
      (a b c d : W) → f.le a b ≡ true → f.le c d ≡ true → f.le (f.plus a c) (f.plus b d) ≡ true
  pub minus_mono :
      (a b c d : W) → f.le a b ≡ true → f.le d c ≡ true → f.le (f.minus a c) (f.minus b d) ≡ true
  pub times_mono :
      (a b c : W)
      → f.le f.nought c ≡ true
      → f.le a b ≡ true
      → f.le (f.times a c) (f.times b c) ≡ true
  pub times_one : (a : W) → f.times (f.decimal 1 0) a ≡ a
  pub negate_anti : (a b : W) → f.le a b ≡ true → f.le (f.negate b) (f.negate a) ≡ true
  pub of_int_mono : (a b : ℤ) → a ≤ℤ b → f.le (f.of_int a) (f.of_int b) ≡ true
  pub of_int_nought : f.of_int (pos 0) ≡ f.nought
  pub plus_nought : (a : W) → f.plus a f.nought ≡ a
  pub minus_nought : (a : W) → f.minus a f.nought ≡ a
  -- Negation is exact.
  pub negate_nought : f.negate f.nought ≡ f.nought
  pub negate-plus : (a b : W) → f.negate (f.plus a b) ≡ f.plus (f.negate a) (f.negate b)
  pub negate-times : (a b : W) → f.negate (f.times a b) ≡ f.times (f.negate a) b
  pub negate-of_int : (a : ℤ) → f.negate (f.of_int a) ≡ f.of_int (neg_ℤ a)
  -- The floor of a quotient, times the divisor, is at most the dividend.
  pub floor_div-le :
      (a b : W) → f.lt f.nought b ≡ true → f.le (f.times (f.of_int (f.floor_div a b)) b) a ≡ true

module _ {W : Type 0} ⦃f : Float W⦄ (laws : IsOrdered f) where
  open f use {nought, lt, le}
  open laws use {le_refl, le_trans, le_total, lt-eq-not-le}

  pub le_of_not_lt : (a b : W) → lt a b ≡ false → le b a ≡ true
  le_of_not_lt a b h = ground (arith, lt-eq-not-le a b)

  pub le_of_lt : (a b : W) → lt a b ≡ true → le a b ≡ true
  le_of_lt a b h = ground (arith, lt-eq-not-le a b, le_total a b)

  pub min2_bounds : (a b : W) → (le (min2 a b) a ≡ true) × (le (min2 a b) b ≡ true)
  min2_bounds a b = ground (arith, le_refl a, le_refl b, le_of_not_lt b a, le_of_lt b a)

  pub max2_bounds : (a b : W) → (le a (max2 a b) ≡ true) × (le b (max2 a b) ≡ true)
  max2_bounds a b = ground (arith, le_refl a, le_refl b, le_of_not_lt a b, le_of_lt a b)
