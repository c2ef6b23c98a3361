-- ===== src/Backtest/WalkForward/Windows.antt =====
-- Which folds `rolling_windows` returns.
use mathlib.Core.Option.{some-injective}
use iron_spyder.Prelude.{
  zero, ℕ, suc, ◌+◌, ◌-◌, ◌*◌, ◌≤◌, ◌<◌, ◌≡◌, refl, inl, inr, false, ◌||◌, Option, none, some, List,
  [], ◌∷◌, arith, leb, if◌then◌else◌, Bool-cases, false-of_or,
}
use iron_spyder.Prelude.Int.{ℤ, pos, negsuc, pos_part, leb_ℤ}
use iron_spyder.Backtest.WalkForward.{Window, Durations, fold_at, windows_from, rolling_windows}

-- `xs[k]`
pub nth : {A : Type 0} → ℕ → List A → Option A
nth k [] = none
nth zero (x ∷ xs) = some x
nth (suc k) (x ∷ xs) = nth k xs

-- The fold of a number, if it ends in time.
abbrev pub fold_number : Durations → ℕ → ℕ → ℕ → ℕ → Option Window
fold_number d stop index cursor k =
    if leb (cursor + k * d.step + d.train + d.validate + d.test) stop
    then some (fold_at d (index + k) (cursor + k * d.step))
    else none

nth-windows_from :
    (fuel : ℕ) (d : Durations) (stop index cursor k : ℕ)
    → stop < cursor + fuel
    → 1 ≤ d.step
    → nth k (windows_from fuel d stop index cursor) ≡ fold_number d stop index cursor k
unfolding nth windows_from
nth-windows_from zero d stop index cursor k h step =
    let late : leb (cursor + k * d.step + d.train + d.validate + d.test) stop ≡ false =
      ground arith in
    rw late refl
nth-windows_from (suc fuel) d stop index cursor zero h step =
    let at : cursor + 0 * d.step ≡ cursor = omega arith in
    let number : index + 0 ≡ index = omega arith in
    elim (Bool-cases (leb (cursor + d.train + d.validate + d.test) stop)) [
      | inl fits ↦ rw (at, number, fits) refl
      | inr over ↦ rw (at, number, over) refl
    ]
nth-windows_from (suc fuel) d stop index cursor (suc k) h step =
    let at : cursor + suc k * d.step ≡ cursor + d.step + k * d.step = omega arith in
    let number : index + suc k ≡ index + 1 + k = omega arith in
    elim (Bool-cases (leb (cursor + d.train + d.validate + d.test) stop)) [
      | inl fits ↦
          rw (at, number, fits)
            (nth-windows_from fuel d stop (index + 1) (cursor + d.step) k (omega arith) step)
      | inr over ↦
          let late : leb (cursor + d.step + k * d.step + d.train + d.validate + d.test) stop
              ≡ false =
            ground arith in
          rw (at, number, over, late) refl
    ]

-- The durations are positive and the folds are those of `fold_number`, from `start` on and in order.
pub record IsRolled (start stop : ℕ) (train validate test step : ℤ) (ws : List Window)
    : Type 0 where
  pub durations : Durations
  pub train_eq : train ≡ pos durations.train
  pub validate_eq : validate ≡ pos durations.validate
  pub test_eq : test ≡ pos durations.test
  pub step_eq : step ≡ pos durations.step
  pub folds : (k : ℕ) → nth k ws ≡ fold_number durations stop 0 start k

above_zero : (x : ℤ) → leb_ℤ x (pos 0) ≡ false → (x ≡ pos (pos_part x)) × (1 ≤ pos_part x)
above_zero (pos n) h = (refl, ground arith)
above_zero (negsuc n) h = ground arith

-- If `rolling_windows` does not raise, the four durations are positive, and fold number k is the one that
-- starts k steps after `start`, just as long as its test range ends by `stop`: no fold is left out and
-- none is made up.
pub rolling_windows-IsRolled :
    (start stop : ℕ) (train validate test step : ℤ) (ws : List Window)
    → rolling_windows start stop train validate test step ≡ some ws
    → IsRolled start stop train validate test step ws
unfolding rolling_windows
rolling_windows-IsRolled start stop train validate test step ws h =
    elim (Bool-cases (
      leb_ℤ train (pos 0)
      || (leb_ℤ validate (pos 0) || (leb_ℤ test (pos 0) || leb_ℤ step (pos 0))))) [
        | inl bad ↦ cc (rw bad at h)
        | inr good ↦
            let (p1, r1) = false-of_or _ _ good in
            let (p2, r2) = false-of_or _ _ r1 in
            let (p3, p4) = false-of_or _ _ r2 in
            let d : Durations = record {
              train = pos_part train;
              validate = pos_part validate;
              test = pos_part test;
              step = pos_part step;
            } in
            record {
              durations = d;
              train_eq = (above_zero train p1).0;
              validate_eq = (above_zero validate p2).0;
              test_eq = (above_zero test p3).0;
              step_eq = (above_zero step p4).0;
              folds = λ k. rw (← some-injective _ _ (rw good at h)) (
                  nth-windows_from (suc (stop - start)) d stop 0 start k (omega arith)
                    (above_zero step p4).1);
            }
      ]
