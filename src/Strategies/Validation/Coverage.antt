-- ===== src/Strategies/Validation/Coverage.antt =====
-- The expiry suffix-coverage rule: the check at the expiries that occur decides it at every instant.
use iron_spyder.Prelude.{
  ℕ, ◌≤◌, ◌≡◌, refl, ◌↔◌, ◌⊎◌, inl, inr, List, [], ◌∷◌, ◌++◌, Option, none, some, arith, ltb, leb,
  if◌then◌else◌, append-nil_left, append-nil_right, append-both_nil, Option-cases,
}
use iron_spyder.Prelude.Int.{pos, ◌≤ℤ◌}
use iron_spyder.Domain.Enums.{OptionRight}
use iron_spyder.Domain.Strategy.{insert_once, expiries, OptionLeg, Strategy}
use iron_spyder.Strategies.Validation.{
  legs_of, suffix_sum, uncovered_at, coverage_for, coverage_violations,
}

-- Membership by recursion.
abbrev Listed : ℕ → List ℕ → Type 0
Listed x [] = ⊥
Listed x (y ∷ ys) = (x ≡ y) ⊎ Listed x ys

Listed-insert_once_self : (x : ℕ) (ys : List ℕ) → Listed x (insert_once x ys)
unfolding insert_once
Listed-insert_once_self x [] = inl refl
Listed-insert_once_self x (y ∷ ys) = ground (arith, Listed-insert_once_self x ys)

Listed-insert_once : (z x : ℕ) (ys : List ℕ) → Listed z ys → Listed z (insert_once x ys)
unfolding insert_once
Listed-insert_once z x [] h = absurd h
Listed-insert_once z x (y ∷ ys) h = ground (arith, Listed-insert_once z x ys)

module _ {W : Type 0} where
  -- The earliest expiry from `t` on.
  first_from : ℕ → List (OptionLeg W) → Option ℕ
  first_from t [] = none
  first_from t (leg ∷ legs) =
      let rest = first_from t legs in
      if leb t leg.expiry
      then elim rest [
        | none ↦ some leg.expiry
        | some e ↦ some (if ltb leg.expiry e then leg.expiry else e)
      ]
      else rest

  suffix_sum-none :
      (t s : ℕ) (legs : List (OptionLeg W))
      → t ≤ s
      → first_from t legs ≡ none
      → suffix_sum s legs ≡ pos 0
  unfolding first_from suffix_sum
  suffix_sum-none t s [] le h = refl
  suffix_sum-none t s (leg ∷ legs) le h = ground (arith, suffix_sum-none t s legs)

  -- No leg expires between `t` and the earliest expiry from `t` on.
  suffix_sum-first_from :
      (t s e : ℕ) (legs : List (OptionLeg W))
      → t ≤ s
      → s ≤ e
      → first_from t legs ≡ some e
      → suffix_sum t legs ≡ suffix_sum s legs
  unfolding first_from suffix_sum
  suffix_sum-first_from t s e [] lo hi h = refl
  suffix_sum-first_from t s e (leg ∷ legs) lo hi h = elim (Option-cases (first_from t legs)) [
    | inl last ↦ ground (arith, suffix_sum-none t t legs, suffix_sum-none t s legs)
    | inr (e', more) ↦ ground (arith, suffix_sum-first_from t s e' legs)
  ]

  first_from-le : (t e : ℕ) (legs : List (OptionLeg W)) → first_from t legs ≡ some e → t ≤ e
  unfolding first_from
  first_from-le t e [] h = cc
  first_from-le t e (leg ∷ legs) h = elim (Option-cases (first_from t legs)) [
    | inl last ↦ ground arith
    | inr (e', more) ↦ ground (arith, first_from-le t e' legs)
  ]

  Listed-first_from :
      (t e : ℕ) (legs : List (OptionLeg W)) → first_from t legs ≡ some e → Listed e (expiries legs)
  unfolding first_from expiries
  Listed-first_from t e [] h = cc
  Listed-first_from t e (leg ∷ legs) h = elim (Option-cases (first_from t legs)) [
    | inl last ↦ ground (arith, Listed-insert_once_self leg.expiry (expiries legs))
    | inr (e', more) ↦ ground (
      arith,
      Listed-insert_once_self leg.expiry (expiries legs),
      Listed-insert_once e' leg.expiry (expiries legs),
      Listed-first_from t e' legs,
    )
  ]

  uncovered_at-nil :
      (r : OptionRight) (legs : List (OptionLeg W)) (ts : List ℕ)
      → uncovered_at r legs ts ≡ []
      → (t : ℕ) → Listed t ts
      → pos 0 ≤ℤ suffix_sum t legs
  unfolding uncovered_at
  uncovered_at-nil r legs [] h t m = absurd m
  uncovered_at-nil r legs (u ∷ ts) h t (inl e) = rw e (ground arith)
  uncovered_at-nil r legs (u ∷ ts) h t (inr m) =
      uncovered_at-nil r legs ts (append-nil_right _ _ h) t m

  uncovered_at-nil_of :
      (r : OptionRight) (legs : List (OptionLeg W)) (ts : List ℕ)
      → ((t : ℕ) → pos 0 ≤ℤ suffix_sum t legs)
      → uncovered_at r legs ts ≡ []
  unfolding uncovered_at
  uncovered_at-nil_of r legs [] h = refl
  uncovered_at-nil_of r legs (u ∷ ts) h = ground (arith, h u, uncovered_at-nil_of r legs ts h)

  coverage_for-nil :
      (r : OptionRight) (legs : List (OptionLeg W))
      → coverage_for r legs ≡ []
      → (t : ℕ) → pos 0 ≤ℤ suffix_sum t (legs_of r legs)
  unfolding coverage_for
  coverage_for-nil r legs h t = elim (Option-cases (first_from t (legs_of r legs))) [
    | inl last ↦ rw (suffix_sum-none t t _ (omega arith) last) (omega arith)
    | inr (e, more) ↦
        rw (suffix_sum-first_from t e e _ (first_from-le t e _ more) (omega arith) more)
          (uncovered_at-nil r _ _ h e (Listed-first_from t e _ more))
  ]

  -- No violation is reported exactly when, for each right and at every instant, an expiry of the
  -- structure or not, the quantities of the legs of that right that expire at it or later have a sum
  -- that is not negative.
  pub coverage_violations-nil_iff :
      (s : Strategy W)
      → (coverage_violations s ≡ [])
        ↔ ((r : OptionRight) (t : ℕ) → pos 0 ≤ℤ suffix_sum t (legs_of r s.legs))
  unfolding coverage_violations
  coverage_violations-nil_iff s = (
    λ h r t. coverage_for-nil r s.legs (own r h) t,
    λ h.
        append-both_nil _ _ (uncovered_at-nil_of OptionRight.call _ _ (h OptionRight.call))
          (uncovered_at-nil_of OptionRight.put _ _ (h OptionRight.put)),
  )
    where
      own :
          (r : OptionRight)
          → coverage_for OptionRight.call s.legs ++ coverage_for OptionRight.put s.legs ≡ []
          → coverage_for r s.legs ≡ []
      own OptionRight.call h = append-nil_left _ _ h
      own OptionRight.put h = append-nil_right _ _ h
