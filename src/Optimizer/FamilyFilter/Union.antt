-- ===== src/Optimizer/FamilyFilter/Union.antt =====
-- The eligible families are the union of those of the probable states.
use iron_spyder.Prelude.{
  ◌≡◌, ◌↔◌, ◌⊎◌, inl, inr, refl, Bool, true, false, All, List, [], ◌∷◌, ◌++◌, if◌then◌else◌,
  is_empty, arith,
}
use iron_spyder.Float.{Float}
use iron_spyder.Domain.Enums.{MarketState, StrategyFamily, no_trade_states}
use iron_spyder.Optimizer.FamilyFilter.{state_families, is_no_trade_state, eligible_families}

abbrev pub IsAmong : {A : Type 0} → A → List A → Type 0
IsAmong x [] = ⊥
IsAmong x (y ∷ ys) = (x ≡ y) ⊎ IsAmong x ys

IsAmong-append :
    (x : StrategyFamily) (xs ys : List StrategyFamily)
    → IsAmong x (xs ++ ys) ↔ (IsAmong x xs ⊎ IsAmong x ys)
IsAmong-append x [] ys = (λ h. inr h, λ h. elim h [ inl none ↦ absurd none | inr later ↦ later ])
IsAmong-append x (y ∷ xs) ys =
    let (split, join) = IsAmong-append x xs ys in
    (
      λ h. elim h [
        | inl here ↦ inl (inl here)
        | inr later ↦ elim (split later) [ inl a ↦ inl (inr a) | inr b ↦ inr b ]
      ],
      λ h. elim h [
        | inl a ↦ elim a [ inl here ↦ inl here | inr later ↦ inr (join (inl later)) ]
        | inr b ↦ inr (join (inr b))
      ],
    )

-- The families of a state as far as it is probable.
IsAmong-if :
    (x : StrategyFamily) (b : Bool) (xs : List StrategyFamily)
    → IsAmong x (if b then xs else []) ↔ ((b ≡ true) × IsAmong x xs)
IsAmong-if x true xs = (λ h. (refl, h), λ (_, h). h)
IsAmong-if x false xs = (λ h. absurd h, λ (off, _). cc)

empty-append :
    (xs ys : List StrategyFamily)
    → (is_empty (xs ++ ys) ≡ true) ↔ ((is_empty xs ≡ true) × (is_empty ys ≡ true))
empty-append [] ys = (λ h. (refl, h), λ (_, h). h)
empty-append (x ∷ xs) ys = (λ h. cc, λ (off, _). cc)

-- The states without families are those of `NO_TRADE_STATES`.
is_no_trade_state_iff :
    (state : MarketState) → (is_no_trade_state state ≡ true) ↔ IsAmong state no_trade_states
unfolding is_no_trade_state
is_no_trade_state_iff MarketState.transition = (λ h. inl refl, λ h. refl)
is_no_trade_state_iff MarketState.unstable = (λ h. inr (inl refl), λ h. refl)
is_no_trade_state_iff MarketState.strong_pin = (λ h. cc, λ h. ground arith)
is_no_trade_state_iff MarketState.broad_range = (λ h. cc, λ h. ground arith)
is_no_trade_state_iff MarketState.bull_grind = (λ h. cc, λ h. ground arith)
is_no_trade_state_iff MarketState.bear_grind = (λ h. cc, λ h. ground arith)
is_no_trade_state_iff MarketState.bull_breakout = (λ h. cc, λ h. ground arith)
is_no_trade_state_iff MarketState.bear_breakdown = (λ h. cc, λ h. ground arith)
is_no_trade_state_iff MarketState.vol_expansion = (λ h. cc, λ h. ground arith)
is_no_trade_state_iff MarketState.vol_contraction = (λ h. cc, λ h. ground arith)
is_no_trade_state_iff MarketState.directional_range = (λ h. cc, λ h. ground arith)

module _ {W : Type 0} ⦃f : Float W⦄ where
  open f use {le}

  -- A state that reaches the threshold has the family.
  abbrev pub IsBacked : StrategyFamily → W → List (MarketState × W) → Type 0
  IsBacked x threshold [] = ⊥
  IsBacked x threshold ((state, probability) ∷ items) =
      ((le threshold probability ≡ true) × IsAmong x (state_families state))
      ⊎ IsBacked x threshold items

  -- A family is eligible exactly if a state whose probability reaches the threshold has it.
  pub eligible_families_iff :
      (x : StrategyFamily) (threshold : W) (items : List (MarketState × W))
      → IsAmong x (eligible_families threshold items) ↔ IsBacked x threshold items
  unfolding eligible_families
  eligible_families_iff x threshold [] = (λ h. h, λ h. h)
  eligible_families_iff x threshold ((state, probability) ∷ items) =
      let (split, join) =
        IsAmong-append x (if le threshold probability then state_families state else [])
          (eligible_families threshold items) in
      let (probable, admit) = IsAmong-if x (le threshold probability) (state_families state) in
      let (back, forth) = eligible_families_iff x threshold items in
      (
        λ h. elim (split h) [ inl own ↦ inl (probable own) | inr later ↦ inr (back later) ],
        λ h. join (elim h [ inl own ↦ inl (admit own) | inr later ↦ inr (forth later) ]),
      )

  -- A state whose probability reaches the threshold is a no-trade state.
  abbrev pub IsIdle : W → MarketState × W → Type 0
  IsIdle threshold (state, probability) =
      le threshold probability ≡ true → IsAmong state no_trade_states

  idle_lem :
      (threshold probability : W) (state : MarketState) (b : Bool)
      → le threshold probability ≡ b
      → (is_empty (if b then state_families state else []) ≡ true)
        ↔ (le threshold probability ≡ true → IsAmong state no_trade_states)
  unfolding is_no_trade_state
  idle_lem threshold probability state true e =
      let (own, back) = is_no_trade_state_iff state in (λ h _. own h, λ h. back (h e))
  idle_lem threshold probability state false e = (λ h probable. cc, λ h. refl)

  -- No family is eligible exactly if every state whose probability reaches the threshold is one of
  -- `NO_TRADE_STATES`.
  pub eligible_families-empty_iff :
      (threshold : W) (items : List (MarketState × W))
      → (is_empty (eligible_families threshold items) ≡ true) ↔ All (IsIdle threshold) items
  unfolding eligible_families
  eligible_families-empty_iff threshold [] = (λ h. tt, λ h. refl)
  eligible_families-empty_iff threshold ((state, probability) ∷ items) =
      let (split, join) =
        empty-append (if le threshold probability then state_families state else [])
          (eligible_families threshold items) in
      let (idle, unused) = idle_lem threshold probability state (le threshold probability) refl in
      let (back, forth) = eligible_families-empty_iff threshold items in
      (λ h. (idle (split h).0, back (split h).1), λ (own, rest). join (unused own, forth rest))
