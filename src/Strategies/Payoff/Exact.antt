-- ===== src/Strategies/Payoff/Exact.antt =====
-- Arithmetic without rounding: every number is a whole multiple of a smallest unit, and the operations
-- that a payoff is made of are exact on these multiples.
use iron_spyder.Prelude.{ℕ, suc, ◌*◌, ◌/◌, ◌≤◌, ◌≡◌, refl, arith, true}
use iron_spyder.Prelude.Int.{ℤ, pos, negsuc, ◌+ℤ◌, ◌-ℤ◌, ◌*ℤ◌, ◌≤ℤ◌, ltb_ℤ, leb_ℤ, eqb_ℤ_iff}
use iron_spyder.Float.{Float}
use iron_spyder.Float.Ticks.{ticks, scale}

pub record IsExact {W : Type 0} (f : Float W) : Type 0 where
  pub units : W → ℤ
  pub units-nought : units f.nought ≡ pos 0
  pub units-plus : (a b : W) → units (f.plus a b) ≡ units a +ℤ units b
  pub units-minus : (a b : W) → units (f.minus a b) ≡ units a -ℤ units b
  pub units-negate : (a : W) → units (f.negate a) ≡ pos 0 -ℤ units a
  -- A whole multiple.
  pub units-times : (n : ℤ) (a : W) → units (f.times (f.of_int n) a) ≡ n *ℤ units a
  -- What a whole number is worth, at least one unit each.
  pub one : ℕ
  pub one_pos : 1 ≤ one
  pub units-of_int : (n : ℤ) → units (f.of_int n) ≡ n *ℤ pos one
  pub units-decimal : (n k : ℕ) → pos 0 ≤ℤ units (f.decimal n k)
  pub le_units : (a b : W) → f.le a b ≡ leb_ℤ (units a) (units b)
  pub lt_units : (a b : W) → f.lt a b ≡ ltb_ℤ (units a) (units b)
  pub eq_units : (a b : W) → f.eq a b ≡ true → units a ≡ units b

whole_part : (n a : ℕ) → n * scale * a / scale ≡ n * a
whole_part n a = let e : n * scale * a ≡ n * a * scale = omega arith in omega arith

times_whole_ticks : (n a : ℤ) → ticks.times (ticks.of_int n) a ≡ n *ℤ a
unfolding ◌*ℤ◌ ◌+ℤ◌ ◌-ℤ◌
times_whole_ticks (pos n) (pos a) = ground (arith, whole_part n a)
times_whole_ticks (pos n) (negsuc a) = ground (arith, whole_part n (suc a))
times_whole_ticks (negsuc n) (pos a) = ground (arith, whole_part (suc n) a)
times_whole_ticks (negsuc n) (negsuc a) = ground (arith, whole_part (suc n) (suc a))

of_int_ticks : (n : ℤ) → ticks.of_int n ≡ n *ℤ pos scale
unfolding ◌*ℤ◌ ◌+ℤ◌ ◌-ℤ◌
of_int_ticks (pos n) = ground arith
of_int_ticks (negsuc n) = ground arith

pub Ticks-IsExact : IsExact ticks
unfolding ◌+ℤ◌ ◌-ℤ◌
Ticks-IsExact = record {
  units = λ a. a;
  units-nought = refl;
  units-plus = λ a b. refl;
  units-minus = λ a b. refl;
  units-negate = λ a. ground arith;
  units-times = times_whole_ticks;
  one = scale;
  one_pos = omega arith;
  units-of_int = of_int_ticks;
  units-decimal = λ n k. omega arith;
  le_units = λ a b. refl;
  lt_units = λ a b. refl;
  eq_units = λ a b h. ground (arith, eqb_ℤ_iff a b);
}
