-- ===== src/Backtest/WalkForward.antt =====
-- spy_der/backtest/walk_forward.py: rolling folds, and the indices that survive purging. Instants are
-- microseconds; a `timedelta` is signed, and `none` is the `ValueError` for one that may not be.
mod Tests
pub mod Windows
pub mod Purging
use iron_spyder.Prelude.{
  zero, ℕ, suc, ◌+◌, ◌-◌, Bool, true, false, not, ◌&&◌, ◌||◌, Option, none, some, List, [], ◌∷◌,
  ltb, leb, if◌then◌else◌,
}
use iron_spyder.Prelude.Int.{ℤ, pos, pos_part, ltb_ℤ, leb_ℤ}

pub record Window : Type 0 where
  pub index : ℕ
  pub train_start : ℕ
  pub train_end : ℕ
  pub validate_start : ℕ
  pub validate_end : ℕ
  pub test_start : ℕ
  pub test_end : ℕ

-- The four durations, once they are known to be positive.
pub record Durations : Type 0 where
  pub train : ℕ
  pub validate : ℕ
  pub test : ℕ
  pub step : ℕ

-- The fold that starts at `cursor`.
abbrev pub fold_at : Durations → ℕ → ℕ → Window
fold_at d index cursor = record {
  index = index;
  train_start = cursor;
  train_end = cursor + d.train;
  validate_start = cursor + d.train;
  validate_end = cursor + d.train + d.validate;
  test_start = cursor + d.train + d.validate;
  test_end = cursor + d.train + d.validate + d.test;
}

-- The `while` loop, for at most as many rounds as the first argument says.
unfoldable pub windows_from : ℕ → Durations → ℕ → ℕ → ℕ → List Window
windows_from zero d stop index cursor = []
windows_from (suc fuel) d stop index cursor =
    let rest = windows_from fuel d stop (index + 1) (cursor + d.step) in
    if leb (cursor + d.train + d.validate + d.test) stop then fold_at d index cursor ∷ rest else []

-- The cursor moves on by at least a microsecond a round, so that one round more than there are
-- microseconds from `start` to `stop` is enough.
unfoldable pub rolling_windows : ℕ → ℕ → ℤ → ℤ → ℤ → ℤ → Option (List Window)
unfolding windows_from
rolling_windows start stop train validate test step =
    if leb_ℤ train (pos 0) || (leb_ℤ validate (pos 0) || (leb_ℤ test (pos 0) || leb_ℤ step (pos 0)))
    then none
    else some (
        windows_from (suc (stop - start))
          (record {
            train = pos_part train;
            validate = pos_part validate;
            test = pos_part test;
            step = pos_part step;
          })
          stop 0 start)

-- Whether an observation survives: inside the training range, its label not resolving inside the test
-- range, and outside the embargo behind it.
unfoldable pub survives : ℕ × ℕ → ℕ × ℕ → ℕ → ℕ → ℕ → Bool
survives (train_start, train_end) (test_start, test_end) horizon embargo ts =
    leb train_start ts
    && (ltb ts train_end
        && not (
            ltb ts test_end && ltb test_start (ts + horizon)
            || leb test_end ts && ltb ts (test_end + embargo)))

-- `enumerate(timestamps)` from an index on, with the indices that pass a test kept.
unfoldable pub indices_from : (ℕ → Bool) → ℕ → List ℕ → List ℕ
indices_from p i [] = []
indices_from p i (ts ∷ timestamps) =
    if p ts then i ∷ indices_from p (suc i) timestamps else indices_from p (suc i) timestamps

unfoldable pub purge_indices : List ℕ → ℕ × ℕ → ℕ × ℕ → ℤ → ℤ → Option (List ℕ)
unfolding survives indices_from
purge_indices timestamps train_range test_range label_horizon embargo =
    if ltb_ℤ label_horizon (pos 0) || ltb_ℤ embargo (pos 0)
    then none
    else some (
        indices_from (survives train_range test_range (pos_part label_horizon) (pos_part embargo)) 0
          timestamps)

unfoldable pub split_indices : List ℕ → Window → ℤ → ℤ → Option (List ℕ × (List ℕ × List ℕ))
unfolding purge_indices
split_indices timestamps w label_horizon embargo =
    let test_range : ℕ × ℕ = (w.test_start, w.test_end) in
    let train =
      purge_indices timestamps (w.train_start, w.train_end) test_range label_horizon embargo in
    let validate =
      purge_indices timestamps (w.validate_start, w.validate_end) test_range label_horizon
        embargo in
    let test = indices_from (λ ts. leb w.test_start ts && ltb ts w.test_end) 0 timestamps in
    elim train [
      | none ↦ none
      | some kept ↦ elim validate [ none ↦ none | some held ↦ some (kept, (held, test)) ]
    ]
