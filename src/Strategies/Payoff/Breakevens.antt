-- ===== src/Strategies/Payoff/Breakevens.antt =====
-- `breakevens`, and the probability that is summed between them.
use iron_spyder.Prelude.{
  Bool, true, false, ◌&&◌, Option, none, some, List, [], ◌∷◌, ◌++◌, when, if◌then◌else◌,
}
use iron_spyder.Float.{Float, max2, min2}
use iron_spyder.Domain.Strategy.{Strategy}
use iron_spyder.Strategies.Payoff.{terminal_payoff, evaluation_spots, last_of}

-- What `sign_at` returns.
pub data Sign : Type 0 where
  positive negative flat : Sign

abbrev pub sign_differs : Sign → Sign → Bool
sign_differs Sign.positive Sign.positive = false
sign_differs Sign.negative Sign.negative = false
sign_differs Sign.flat Sign.flat = false
sign_differs _ _ = true

module _ {W : Type 0} ⦃f : Float W⦄ where
  open f use {nought, decimal, plus, minus, times, over, negate, absolute, lt, le}

  unfoldable pub sign_at : Strategy W → W → Sign
  sign_at s at =
      let value = terminal_payoff s at in
      if lt (decimal 1 9) value
      then Sign.positive
      else (if lt value (negate (decimal 1 9)) then Sign.negative else Sign.flat)

  abbrev pub halfway : W → W → W
  halfway a b = times (decimal 5 1) (plus a b)

  -- Whether the sign differs across a kink at `x0`, between `x1` and the point before, if there is one.
  unfoldable pub crosses : Strategy W → Option W → W → W → Bool
  unfolding sign_at
  crosses s none x0 x1 = false
  crosses s (some before) x0 x1 =
      sign_differs (sign_at s (halfway before x0)) (sign_at s (halfway x0 x1))

  -- The loop over neighbouring points, from the point `x0`.
  unfoldable pub roots_from : Strategy W → Option W → W → List W → List W
  unfolding crosses
  roots_from s before x0 [] = []
  roots_from s before x0 (x1 ∷ xs) =
      let v0 = terminal_payoff s x0 in
      let v1 = terminal_payoff s x1 in
      let rest = roots_from s (some x0) x1 xs in
      if lt (times v0 v1) nought
      then plus x0 (over (times (minus x1 x0) (negate v0)) (minus v1 v0)) ∷ rest
      else when (le (absolute v0) (decimal 1 9) && crosses s before x0 x1) x0 ++ rest

  abbrev pub roots_of : Strategy W → List W → List W
  roots_of s [] = []
  roots_of s (x ∷ xs) = roots_from s none x xs

  -- `sorted`, which is stable.
  unfoldable pub insert_root : W → List W → List W
  insert_root x [] = x ∷ []
  insert_root x (y ∷ ys) = if lt y x then y ∷ insert_root x ys else x ∷ y ∷ ys

  unfoldable pub sort_roots : List W → List W
  unfolding insert_root
  sort_roots [] = []
  sort_roots (x ∷ xs) = insert_root x (sort_roots xs)

  -- A root is kept only at a distance from the one kept before.
  unfoldable pub spread_from : W → List W → List W
  spread_from kept [] = []
  spread_from kept (x ∷ xs) =
      if lt (decimal 1 9) (absolute (minus x kept))
      then x ∷ spread_from x xs
      else spread_from kept xs

  unfoldable pub deduped : List W → List W
  unfolding spread_from
  deduped [] = []
  deduped (x ∷ xs) = x ∷ spread_from x xs

  unfoldable pub breakevens_of : Strategy W → Option W → List W
  breakevens_of s far_bound = deduped (sort_roots (roots_of s (evaluation_spots s far_bound)))

  -- The loop over the intervals, from the edge `lo`.
  unfoldable pub profit_mass : (W → W) → Strategy W → W → W → List W → W
  profit_mass cdf s total lo [] = total
  profit_mass cdf s total lo (hi ∷ his) =
      let mass =
        if lt lo hi && lt nought (terminal_payoff s (halfway lo hi))
        then plus total (minus (cdf hi) (cdf lo))
        else total in
      profit_mass cdf s mass hi his

  unfoldable pub probability_of_profit : (W → W) → Strategy W → Option W → W
  unfolding profit_mass
  probability_of_profit cdf s far_bound =
      let end = last_of nought (evaluation_spots s far_bound) in
      let total = profit_mass cdf s nought nought (breakevens_of s far_bound ++ (end ∷ [])) in
      min2 (decimal 1 0) (max2 nought total)
