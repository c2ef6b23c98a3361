-- ===== src/Risk/Session.antt =====
-- The accounting of a session over any sequence of its calls.
mod Tests
use iron_spyder.Prelude.{
  ℕ, ◌+◌, ◌≤◌, ◌≡◌, refl, ◌⊎◌, inl, inr, Bool, true, false, Option, none, some, List, [], ◌∷◌, ◌++◌,
  length, length-append, ◌-◌, arith, ltb, if◌then◌else◌, Bool-cases,
}
use iron_spyder.Float.{Float, IsOrdered, max2, max2_bounds}
use iron_spyder.Risk.Limits.{
  drop_first, SessionState, is_day, max_samples, roll_to, record_trade, record_slippage,
}

-- One call of a method of `SessionState`.
pub data SessionCall (W : Type 0) : Type 0 where
  roll : ℕ → W → SessionCall W
  trade slippage : W → W → SessionCall W

module _ {W : Type 0} ⦃f : Float W⦄ where
  open f use {le}

  abbrev after_call : SessionCall W → SessionState W → SessionState W
  after_call (SessionCall.roll day equity) s = roll_to day equity s
  after_call (SessionCall.trade pnl equity) s = record_trade pnl equity s
  after_call (SessionCall.slippage expected realized) s = record_slippage expected realized s

  pub after_calls : List (SessionCall W) → SessionState W → SessionState W
  after_calls [] s = s
  after_calls (c ∷ cs) s = after_calls cs (after_call c s)

  -- The equities that trades report are no higher than the peak.
  abbrev pub Peaks : W → List (SessionCall W) → Type 0
  Peaks peak [] = Unit
  Peaks peak (SessionCall.trade pnl equity ∷ cs) = (le equity peak ≡ true) × Peaks peak cs
  Peaks peak (_ ∷ cs) = Peaks peak cs

  drop_first-length : (xs : List (W × W)) → length (drop_first xs) ≡ length xs - 1
  drop_first-length [] = omega arith
  drop_first-length (x ∷ xs) = omega arith

  record_slippage-le :
      (e r : W) (s : SessionState W)
      → length s.slippage_samples ≤ max_samples
      → length (record_slippage e r s).slippage_samples ≤ max_samples
  unfolding record_slippage
  record_slippage-le e r s h =
      let grown = s.slippage_samples ++ ((e, r) ∷ []) in
      ground (arith, drop_first-length grown, length-append s.slippage_samples ((e, r) ∷ []))

  after_call-le :
      (c : SessionCall W) (s : SessionState W)
      → length s.slippage_samples ≤ max_samples
      → length (after_call c s).slippage_samples ≤ max_samples
  unfolding roll_to record_trade
  after_call-le (SessionCall.roll day equity) s h = elim (Bool-cases (is_day s.trading_day day)) [
    | inl same ↦ rw same h
    | inr other ↦ rw other h
  ]
  after_call-le (SessionCall.trade pnl equity) s h = h
  after_call-le (SessionCall.slippage e r) s h = record_slippage-le e r s h

  after_calls-le :
      (cs : List (SessionCall W)) (s : SessionState W)
      → length s.slippage_samples ≤ max_samples
      → length (after_calls cs s).slippage_samples ≤ max_samples
  unfolding after_calls
  after_calls-le [] s h = h
  after_calls-le (c ∷ cs) s h = after_calls-le cs (after_call c s) (after_call-le c s h)

module _ {W : Type 0} ⦃f : Float W⦄ (laws : IsOrdered f) where
  open f use {le}
  open laws use {le_refl, le_trans}

  roll_to-peak :
      (day : ℕ) (equity : W) (s : SessionState W)
      → le s.peak_equity (roll_to day equity s).peak_equity ≡ true
  unfolding roll_to
  roll_to-peak day equity s = elim (Bool-cases (is_day s.trading_day day)) [
    | inl same ↦ rw same (le_refl s.peak_equity)
    | inr other ↦ rw other (max2_bounds laws s.peak_equity equity).0
  ]

  after_calls-peak :
      (cs : List (SessionCall W)) (s : SessionState W)
      → (le s.peak_equity (after_calls cs s).peak_equity ≡ true)
        × Peaks (after_calls cs s).peak_equity cs
  unfolding after_calls record_trade record_slippage
  after_calls-peak [] s = (le_refl s.peak_equity, tt)
  after_calls-peak (SessionCall.roll day equity ∷ cs) s =
      let (up, peaks) = after_calls-peak cs (roll_to day equity s) in
      (le_trans _ _ _ (roll_to-peak day equity s) up, peaks)
  after_calls-peak (SessionCall.trade pnl equity ∷ cs) s =
      let (up, peaks) = after_calls-peak cs (record_trade pnl equity s) in
      let (old, new) = max2_bounds laws s.peak_equity equity in
      (le_trans _ _ _ old up, (le_trans _ _ _ new up, peaks))
  after_calls-peak (SessionCall.slippage e r ∷ cs) s = after_calls-peak cs (record_slippage e r s)

  -- From a session with no more than 200 slippage samples, after any sequence of its calls: it has no
  -- more than 200 samples, its peak equity is no lower than it was, and no lower than the equity that any
  -- trade of the sequence reported.
  pub after_calls-Peaks :
      (cs : List (SessionCall W)) (s : SessionState W)
      → length s.slippage_samples ≤ max_samples
      → (length (after_calls cs s).slippage_samples ≤ max_samples)
        × (le s.peak_equity (after_calls cs s).peak_equity ≡ true)
        × Peaks (after_calls cs s).peak_equity cs
  after_calls-Peaks cs s h =
      let (up, peaks) = after_calls-peak cs s in (after_calls-le cs s h, up, peaks)
