-- ===== src/Strategies/Payoff/Worst.antt =====
-- The running minimum is below the payoff at every checkpoint and point.
use iron_spyder.Prelude.{
  All, ℕ, ◌≡◌, sym, ◌∙◌, ◌⊎◌, inl, inr, true, false, none, some, List, [], ◌∷◌, arith, Bool-cases,
}
use iron_spyder.Prelude.Int.{ℤ, ◌≤ℤ◌, ltb_ℤ}
use iron_spyder.Float.{Float}
use iron_spyder.Domain.Strategy.{Strategy}
use iron_spyder.Strategies.Payoff.{Worst, payoff_at, worse, worst_at, worst_over}
use iron_spyder.Strategies.Payoff.Exact.{IsExact}

-- Membership of a checkpoint.
abbrev pub IsCheckpoint : ℕ → List ℕ → Type 0
IsCheckpoint t [] = ⊥
IsCheckpoint t (u ∷ us) = (t ≡ u) ⊎ IsCheckpoint t us

module _ {W : Type 0} ⦃f : Float W⦄ (ex : IsExact f) where
  open f use {nought, decimal, plus, negate, lt, le, eq}
  open ex use {
    units, units-nought, units-plus, units-minus, units-negate, lt_units, le_units, one, one_pos,
    units-of_int,
  }

  -- The worst payoff is at most a value.
  abbrev pub AtMost : Worst W → ℤ → Type 0
  AtMost none v = ⊥
  AtMost (some w) v = units w.0 ≤ℤ v

  worse-AtMost :
      (value at : W) (t : ℕ) (w : Worst W)
      → AtMost (worse value at t w) (units value)
        × ((v : ℤ) → AtMost w v → AtMost (worse value at t w) v)
  unfolding worse
  worse-AtMost value at t none = (omega arith, λ v h. absurd h)
  worse-AtMost value at t (some w) = elim (Bool-cases (lt value w.0)) [
    | inl less ↦
        let below : ltb_ℤ (units value) (units w.0) ≡ true = sym (lt_units value w.0) ∙ less in
        rw less (omega arith, λ v h. ground arith)
    | inr more ↦
        let above : ltb_ℤ (units value) (units w.0) ≡ false = sym (lt_units value w.0) ∙ more in
        rw more (ground arith, λ v h. h)
  ]

  module _ (s : Strategy W) where
    abbrev pub payoff_units : ℕ → W → ℤ
    payoff_units t at = units (payoff_at s at t true)

    worst_at-AtMost :
        (t : ℕ) (ats : List W) (w : Worst W)
        → All (λ at. AtMost (worst_at s t ats w) (payoff_units t at)) ats
          × ((v : ℤ) → AtMost w v → AtMost (worst_at s t ats w) v)
    unfolding worst_at
    worst_at-AtMost t [] w = (tt, λ v h. h)
    worst_at-AtMost t (at ∷ ats) w =
        let (own, kept) = worse-AtMost (payoff_at s at t true) at t w in
        let (rest, passed) = worst_at-AtMost t ats (worse (payoff_at s at t true) at t w) in
        ((passed _ own, rest), λ v h. passed v (kept v h))

    All-map : (P Q : W → Type 0) (xs : List W) → ((x : W) → P x → Q x) → All P xs → All Q xs
    All-map P Q [] g h = tt
    All-map P Q (x ∷ xs) g (h, hs) = (g x h, All-map P Q xs g hs)

    worst_over-kept :
        (ts : List ℕ) (ats : List W) (w : Worst W) (v : ℤ)
        → AtMost w v
        → AtMost (worst_over s ts ats w) v
    unfolding worst_over
    worst_over-kept [] ats w v h = h
    worst_over-kept (t ∷ ts) ats w v h =
        worst_over-kept ts ats (worst_at s t ats w) v ((worst_at-AtMost t ats w).1 v h)

    pub worst_over-AtMost :
        (ts : List ℕ) (ats : List W) (w : Worst W) (t : ℕ)
        → IsCheckpoint t ts
        → All (λ at. AtMost (worst_over s ts ats w) (payoff_units t at)) ats
    unfolding worst_over
    worst_over-AtMost [] ats w t h = absurd h
    worst_over-AtMost (u ∷ ts) ats w t (inl here) = rw here (
        All-map _ _ ats (λ at. worst_over-kept ts ats (worst_at s u ats w) (payoff_units u at))
          (worst_at-AtMost u ats w).0)
    worst_over-AtMost (u ∷ ts) ats w t (inr later) =
        worst_over-AtMost ts ats (worst_at s u ats w) t later
