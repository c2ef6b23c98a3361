-- ===== src/Prelude/Int/Products.antt =====
-- Products of integers: the ring laws and the signs, for arguments about slopes.
use iron_spyder.Prelude.{ℕ, ◌+◌, ◌*◌, ◌≡◌, ap, ◌∙◌, arith}
use iron_spyder.Prelude.Int.{
  ℤ, pos, negsuc, pos_part, neg_part, ◌+ℤ◌, ◌-ℤ◌, ◌*ℤ◌, ◌≤ℤ◌, int_laws, eq_of_parts, +ℤ_parts,
  -ℤ_parts, parts_of,
}

pub *ℤ_parts :
    (a b : ℤ)
    → pos_part (a *ℤ b) + (pos_part a * neg_part b + neg_part a * pos_part b)
      ≡ neg_part (a *ℤ b) + (pos_part a * pos_part b + neg_part a * neg_part b)
unfolding ◌*ℤ◌
*ℤ_parts a b = ground arith

-- An equation of sums, times a number.
scaled_parts :
    (k p b c n x y : ℕ) → p + b + c ≡ n + x + y → k * p + k * b + k * c ≡ k * n + k * x + k * y
scaled_parts k p b c n x y h = let e = ap (λ t. k * t) h in omega (arith, e)

pub *ℤ_distrib : (a b c : ℤ) → a *ℤ (b +ℤ c) ≡ a *ℤ b +ℤ a *ℤ c
*ℤ_distrib a b c = eq_of_parts _ _ (
    omega (
      arith,
      *ℤ_parts a (b +ℤ c),
      *ℤ_parts a b,
      *ℤ_parts a c,
      +ℤ_parts (a *ℤ b) (a *ℤ c),
      scaled_parts (pos_part a) _ _ _ _ _ _ (+ℤ_parts b c),
      scaled_parts (neg_part a) _ _ _ _ _ _ (+ℤ_parts b c),
    ))

pub *ℤ_comm : (a b : ℤ) → a *ℤ b ≡ b *ℤ a
*ℤ_comm a b = eq_of_parts _ _ (omega (arith, *ℤ_parts a b, *ℤ_parts b a))

pub +ℤ-*ℤ : (a b c : ℤ) → (a +ℤ b) *ℤ c ≡ a *ℤ c +ℤ b *ℤ c
+ℤ-*ℤ a b c = rw (*ℤ_comm (a +ℤ b) c, *ℤ_comm a c, *ℤ_comm b c) (*ℤ_distrib c a b)

pub *ℤ_nonneg : (a b : ℤ) → pos 0 ≤ℤ a → pos 0 ≤ℤ b → pos 0 ≤ℤ a *ℤ b
unfolding ◌*ℤ◌
*ℤ_nonneg (pos a) (pos b) h k = ground arith
*ℤ_nonneg (pos a) (negsuc b) h k = ground arith
*ℤ_nonneg (negsuc a) b h k = ground arith

pub *ℤ_nonpos : (a b : ℤ) → a ≤ℤ pos 0 → pos 0 ≤ℤ b → a *ℤ b ≤ℤ pos 0
unfolding ◌*ℤ◌
*ℤ_nonpos (pos a) (pos b) h k = ground arith
*ℤ_nonpos (negsuc a) (pos b) h k = ground arith
*ℤ_nonpos a (negsuc b) h k = ground arith

pub *ℤ_zero : (a : ℤ) → a *ℤ pos 0 ≡ pos 0
*ℤ_zero a = eq_of_parts _ _ (omega (arith, *ℤ_parts a (pos 0)))

pub *ℤ_one : (a : ℤ) → a *ℤ pos 1 ≡ a
*ℤ_one a = eq_of_parts _ _ (omega (arith, *ℤ_parts a (pos 1)))

pub *ℤ_minus_one : (a : ℤ) → a *ℤ negsuc 0 ≡ pos 0 -ℤ a
*ℤ_minus_one a = eq_of_parts _ _ (omega (arith, *ℤ_parts a (negsuc 0), -ℤ_parts (pos 0) a))

pub *ℤ_mono : (c x y : ℤ) → pos 0 ≤ℤ c → x ≤ℤ y → c *ℤ x ≤ℤ c *ℤ y
*ℤ_mono c x y h k =
    let way : y ≡ x +ℤ (y -ℤ x) = omega int_laws in
    let e = ap (λ t. c *ℤ t) way ∙ *ℤ_distrib c x (y -ℤ x) in
    omega (int_laws, parts_of e, *ℤ_nonneg c (y -ℤ x) h (omega int_laws))

pub *ℤ_anti : (c x y : ℤ) → c ≤ℤ pos 0 → x ≤ℤ y → c *ℤ y ≤ℤ c *ℤ x
*ℤ_anti c x y h k =
    let way : y ≡ x +ℤ (y -ℤ x) = omega int_laws in
    let e = ap (λ t. c *ℤ t) way ∙ *ℤ_distrib c x (y -ℤ x) in
    omega (int_laws, parts_of e, *ℤ_nonpos c (y -ℤ x) h (omega int_laws))
