-- ===== src/Backtest/WalkForward/Tests.antt =====
-- Folds and purging on small numbers.
use iron_spyder.Prelude.{ℕ, ◌≡◌, refl, arith, some, List, [], ◌∷◌}
use iron_spyder.Prelude.Int.{pos}
use iron_spyder.Backtest.WalkForward.{
  Window, Durations, fold_at, windows_from, rolling_windows, indices_from, purge_indices,
  split_indices,
}
use iron_spyder.Backtest.WalkForward.Windows.{IsRolled, rolling_windows-IsRolled}
use iron_spyder.Backtest.WalkForward.Purging.{resolved, split_indices_fold}

abbrev durations : Durations
durations = record { train = 6; validate = 2; test = 2; step = 2 }

abbrev three : List Window
three = fold_at durations 0 1 ∷ fold_at durations 1 3 ∷ fold_at durations 2 5 ∷ []

rolling_windows-IsRolled_example : IsRolled 1 15 (pos 6) (pos 2) (pos 2) (pos 2) three
unfolding rolling_windows windows_from
rolling_windows-IsRolled_example =
    rolling_windows-IsRolled 1 15 (pos 6) (pos 2) (pos 2) (pos 2) three refl

abbrev observed : List ℕ
observed = 1 ∷ 5 ∷ 6 ∷ 7 ∷ 8 ∷ 9 ∷ 10 ∷ 11 ∷ []

-- A horizon of 3 loses the last training observations and all that are held for validation.
split_indices-observed :
    split_indices observed (fold_at durations 0 1) (pos 3) (pos 1)
    ≡ some (0 ∷ 1 ∷ 2 ∷ [], ([], 5 ∷ 6 ∷ []))
unfolding split_indices purge_indices indices_from
split_indices-observed = refl

split_indices_fold_example :
    split_indices observed (fold_at durations 0 1) (pos 3) (pos 1)
    ≡ some (
      indices_from (resolved 1 7 3 9) 0 observed,
      (indices_from (resolved 7 9 3 9) 0 observed, indices_from (resolved 9 11 0 11) 0 observed),
    )
split_indices_fold_example = split_indices_fold observed durations 0 1 3 1 (omega arith)
