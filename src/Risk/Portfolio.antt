-- ===== src/Risk/Portfolio.antt =====
-- spy_der/risk/engine.py, `PortfolioState`: the positions and the risk that the open ones carry.
use iron_spyder.Prelude.{
  ℕ, Bool, false, ◌&&◌, ◌||◌, List, [], ◌∷◌, ◌++◌, length, ◌==◌, if◌then◌else◌,
}
use iron_spyder.Float.{Float}
use iron_spyder.Domain.Strategy.{OptionLeg}
use iron_spyder.Domain.Execution.{Position, is_open, total_max_loss}

-- `PortfolioState.positions`
abbrev pub Portfolio : Type 0 → Type 0
Portfolio W = List (Position W)

module _ {W : Type 0} where
  unfoldable pub open_positions : Portfolio W → Portfolio W
  open_positions [] = []
  open_positions (p ∷ ps) = if is_open p then p ∷ open_positions ps else open_positions ps

  abbrev pub open_count : Portfolio W → ℕ
  open_count ps = length (open_positions ps)

  unfoldable pub expires_at : ℕ → List (OptionLeg W) → Bool
  expires_at t [] = false
  expires_at t (leg ∷ legs) = (leg.expiry == t) || expires_at t legs

  -- `PortfolioState.close`
  unfoldable pub replace_position : ℕ → Position W → Portfolio W → Portfolio W
  replace_position id closed [] = []
  replace_position id closed (p ∷ ps) =
      (if p.position_id == id then closed else p) ∷ replace_position id closed ps

  abbrev pub add_position : Position W → Portfolio W → Portfolio W
  add_position p ps = ps ++ (p ∷ [])

module _ {W : Type 0} ⦃f : Float W⦄ where
  open f use {nought, plus}

  unfoldable pub open_risk_from : W → Portfolio W → W
  open_risk_from acc [] = acc
  open_risk_from acc (p ∷ ps) =
      open_risk_from (if is_open p then plus acc (total_max_loss p) else acc) ps

  unfoldable pub total_open_risk : Portfolio W → W
  unfolding open_risk_from
  total_open_risk = open_risk_from nought

  unfoldable pub expiration_risk_from : ℕ → W → Portfolio W → W
  unfolding expires_at
  expiration_risk_from t acc [] = acc
  expiration_risk_from t acc (p ∷ ps) =
      expiration_risk_from t
        (if is_open p && expires_at t p.strategy.legs then plus acc (total_max_loss p) else acc) ps

  unfoldable pub risk_for_expiration : ℕ → Portfolio W → W
  unfolding expiration_risk_from
  risk_for_expiration t = expiration_risk_from t nought
