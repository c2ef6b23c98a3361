-- ===== src/Float/Ticks.antt =====
-- A carrier for `Float` that meets `IsOrdered`: whole ten-thousandths, signed. Products and
-- quotients are cut towards zero.
use iron_spyder.Prelude.{
  zero, ℕ, suc, ◌+◌, ◌-◌, ◌*◌, ◌/◌, ◌^◌, ◌≤◌, ◌≡◌, true, some, arith, if◌then◌else◌,
}
use iron_spyder.Prelude.Int.{
  ℤ, pos, negsuc, pos_part, neg_part, sub_ℕ, ◌+ℤ◌, ◌-ℤ◌, ltb_ℤ, leb_ℤ, eqb_ℤ, eqb_ℤ_iff, neg_ℤ,
  magnitude,
}
use iron_spyder.Float.{Float, IsOrdered}

abbrev pub scale : ℕ
scale = 10_000

abbrev pub Ticks : Type 0
Ticks = ℤ

-- A non-negative part each: the product of a sign and two sizes.
abbrev signed_times : ℤ → ℤ → ℤ
signed_times a b =
    sub_ℕ ((pos_part a * pos_part b + neg_part a * neg_part b) / scale)
      ((pos_part a * neg_part b + neg_part a * pos_part b) / scale)

abbrev signed_over : ℤ → ℤ → ℤ
signed_over a b =
    let q = magnitude a * scale / magnitude b in
    if ltb_ℤ a (pos 0)
    then (if ltb_ℤ b (pos 0) then pos q else neg_ℤ (pos q))
    else (if ltb_ℤ b (pos 0) then neg_ℤ (pos q) else pos q)

abbrev floor_over : ℤ → ℤ → ℤ
floor_over (pos a) b = pos (a / pos_part b)
floor_over (negsuc a) b = neg_ℤ (pos ((suc a + magnitude b - 1) / magnitude b))

abbrev of_whole : ℤ → ℤ
of_whole (pos a) = pos (a * scale)
of_whole (negsuc a) = neg_ℤ (pos (suc a * scale))

abbrev clip_ticks : ℤ → ℤ → ℤ → ℤ
clip_ticks x lo hi = if ltb_ℤ x lo then lo else (if ltb_ℤ hi x then hi else x)

instance abbrev pub ticks : Float Ticks
unfolding ◌+ℤ◌ ◌-ℤ◌
ticks = record {
  nought = pos 0;
  decimal = λ n k. pos (n * scale / 10 ^ k);
  of_int = of_whole;
  plus = ◌+ℤ◌;
  minus = ◌-ℤ◌;
  times = signed_times;
  over = signed_over;
  negate = neg_ℤ;
  absolute = λ a. pos (magnitude a);
  lt = ltb_ℤ;
  le = leb_ℤ;
  eq = eqb_ℤ;
  is_finite = λ _. true;
  floor_div = floor_over;
  clip = clip_ticks;
  log1p = λ a. a;
  of_minutes = λ a. some (sub_ℕ (pos_part a * 6000) (neg_part a * 6000));
}

mul_mono : (a b c : ℕ) → a ≤ b → a * c ≤ b * c
mul_mono a b c h = grind arith

times_mono_ticks :
    (a b c : ℤ)
    → leb_ℤ (pos 0) c ≡ true
    → leb_ℤ a b ≡ true
    → leb_ℤ (signed_times a c) (signed_times b c) ≡ true
times_mono_ticks (pos a) (pos b) (pos c) h k = ground (arith, mul_mono a b c)
times_mono_ticks (pos a) (negsuc b) (pos c) h k = ground arith
times_mono_ticks (negsuc a) (pos b) (pos c) h k = ground arith
times_mono_ticks (negsuc a) (negsuc b) (pos c) h k = ground (arith, mul_mono b a c)
times_mono_ticks _ _ (negsuc c) h k = ground arith

negate-times_ticks : (a b : ℤ) → neg_ℤ (signed_times a b) ≡ signed_times (neg_ℤ a) b
negate-times_ticks a b = ground arith

times_one_ticks : (a : ℤ) → signed_times (pos scale) a ≡ a
times_one_ticks (pos a) = ground arith
times_one_ticks (negsuc a) = ground arith

div_mul-le : (a b : ℕ) → a / b * scale * b / scale ≤ a
div_mul-le a b =
    let e : a / b * scale * b ≡ a / b * b * scale = omega arith in
    let h : a / b * b ≤ a = omega arith in omega arith

le-ceil_mul : (a b : ℕ) → a + 1 ≤ (a + 1 + suc b - 1) / suc b * scale * suc b / scale
le-ceil_mul a b =
    let q = (a + 1 + suc b - 1) / suc b in
    let e : q * scale * suc b ≡ q * suc b * scale = omega arith in
    let h : a + 1 ≤ q * suc b = omega arith in omega arith

floor_over-le :
    (a b : ℤ) → ltb_ℤ (pos 0) b ≡ true → leb_ℤ (signed_times (of_whole (floor_over a b)) b) a ≡ true
floor_over-le a (negsuc b) k = ground arith
floor_over-le (negsuc a) (pos zero) k = ground arith
floor_over-le (negsuc a) (pos (suc b)) k = ground (arith, le-ceil_mul a b)
floor_over-le (pos a) (pos b) k = ground (arith, div_mul-le a b)

pub Ticks-IsOrdered : IsOrdered ticks
unfolding ◌+ℤ◌ ◌-ℤ◌
Ticks-IsOrdered = record {
  le_refl = λ a. ground arith;
  le_trans = λ a b c h k. ground arith;
  le_total = λ a b. ground arith;
  lt-eq-not-le = λ a b. ground arith;
  eq_iff = eqb_ℤ_iff;
  plus_mono = λ a b c d h k. ground arith;
  minus_mono = λ a b c d h k. ground arith;
  times_mono = times_mono_ticks;
  times_one = times_one_ticks;
  negate_anti = λ a b h. ground arith;
  of_int_mono = λ a b h. ground arith;
  of_int_nought = ground arith;
  plus_nought = λ a. ground arith;
  minus_nought = λ a. ground arith;
  negate_nought = ground arith;
  negate-plus = λ a b. ground arith;
  negate-times = negate-times_ticks;
  negate-of_int = λ a. ground arith;
  floor_div-le = floor_over-le;
}
