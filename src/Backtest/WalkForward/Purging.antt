-- ===== src/Backtest/WalkForward/Purging.antt =====
-- What purging keeps of a fold.
use iron_spyder.Prelude.{
  ℕ, suc, ◌+◌, ◌≤◌, ◌<◌, ◌≡◌, refl, ap, Bool, false, ◌&&◌, ◌||◌, some, List, [], ◌∷◌, arith, ltb,
  leb,
}
use iron_spyder.Prelude.Int.{pos, ltb_ℤ}
use iron_spyder.Backtest.WalkForward.{
  Durations, fold_at, survives, indices_from, purge_indices, split_indices,
}

-- Observed in a range, with a label that resolves by a given instant.
abbrev pub resolved : ℕ → ℕ → ℕ → ℕ → ℕ → Bool
resolved start stop horizon deadline ts =
    leb start ts && (ltb ts stop && leb (ts + horizon) deadline)

indices_from-eq :
    (p q : ℕ → Bool) (i : ℕ) (timestamps : List ℕ)
    → ((ts : ℕ) → p ts ≡ q ts)
    → indices_from p i timestamps ≡ indices_from q i timestamps
unfolding indices_from
indices_from-eq p q i [] h = refl
indices_from-eq p q i (ts ∷ timestamps) h = rw (h ts, indices_from-eq p q (suc i) timestamps h) refl

-- An observation of a range before the test range survives just when its label resolves by the start of
-- the test range; the embargo does not matter.
survives_before :
    (start stop test_start test_end horizon embargo ts : ℕ)
    → stop ≤ test_start
    → test_start < test_end
    → survives (start, stop) (test_start, test_end) horizon embargo ts
      ≡ resolved start stop horizon test_start ts
unfolding survives
survives_before start stop test_start test_end horizon embargo ts h k = ground arith

purge_indices_before :
    (timestamps : List ℕ) (start stop test_start test_end horizon embargo : ℕ)
    → stop ≤ test_start
    → test_start < test_end
    → purge_indices timestamps (start, stop) (test_start, test_end) (pos horizon) (pos embargo)
      ≡ some (indices_from (resolved start stop horizon test_start) 0 timestamps)
unfolding purge_indices
purge_indices_before timestamps start stop test_start test_end horizon embargo h k =
    let guard : ltb_ℤ (pos horizon) (pos 0) || ltb_ℤ (pos embargo) (pos 0) ≡ false = ground arith in
    rw guard (
      ap some (
        indices_from-eq _ _ 0 timestamps
          (λ ts. survives_before start stop test_start test_end horizon embargo ts h k)))

-- On a fold of `rolling_windows`, with a test range that is not empty and no negative horizon or embargo:
-- `split_indices` returns the indices of exactly those training and validation observations whose labels
-- resolve by the start of the test range, and of exactly those test observations that lie in the test
-- range, whatever the embargo is.
pub split_indices_fold :
    (timestamps : List ℕ) (d : Durations) (index cursor horizon embargo : ℕ)
    → 1 ≤ d.test
    → let w = fold_at d index cursor in
      split_indices timestamps w (pos horizon) (pos embargo)
      ≡ some (
        indices_from (resolved w.train_start w.train_end horizon w.test_start) 0 timestamps,
        (
          indices_from (resolved w.validate_start w.validate_end horizon w.test_start) 0 timestamps,
          indices_from (resolved w.test_start w.test_end 0 w.test_end) 0 timestamps,
        ),
      )
unfolding split_indices
split_indices_fold timestamps d index cursor horizon embargo h =
    let w = fold_at d index cursor in
    rw
      (
        split_indices,
        purge_indices_before timestamps w.train_start w.train_end w.test_start w.test_end horizon
            embargo (omega arith) (omega arith),
        purge_indices_before timestamps w.validate_start w.validate_end w.test_start w.test_end
            horizon embargo (omega arith) (omega arith),
        indices_from-eq (λ ts. leb w.test_start ts && ltb ts w.test_end)
            (resolved w.test_start w.test_end 0 w.test_end) 0 timestamps (λ ts. ground arith),
      )
      refl
