-- ===== src/Monitoring/Health/Severity.antt =====
-- The response of a report is the most severe of its findings.
use mathlib.Core.Path.{subst}
use iron_spyder.Prelude.{
  ◌≤◌, ◌≡◌, ◌↔◌, ◌⊎◌, inl, inr, refl, sym, ap, ◌∙◌, Bool, true, false, All, Option, List, [], ◌∷◌,
  ◌++◌, ltb, ◌==◌, if◌then◌else◌, arith, Bool-cases,
}
use iron_spyder.Domain.Enums.{KillSwitchReason}
use iron_spyder.Monitoring.Health.{
  reason_for, to_reasons, health_reasons, Response, severity, HealthFinding, HealthReport,
  report_is_healthy, worst_from, response_of,
}

-- The response is asked for by a finding.
abbrev pub IsAsked : {W : Type 0} → Response → HealthReport W → Type 0
IsAsked r [] = ⊥
IsAsked r (x ∷ xs) = (r ≡ x.response) ⊎ IsAsked r xs

to_reasons_lem :
    (r : Response) (reason : Option KillSwitchReason)
    → (to_reasons r reason ≡ []) ⊎ (r ≡ Response.lockout)
to_reasons_lem Response.lockout reason = inr refl
to_reasons_lem Response.nothing reason = inl refl
to_reasons_lem Response.reduce_size reason = inl refl
to_reasons_lem Response.disable_complex reason = inl refl
to_reasons_lem Response.revert_to_baseline reason = inl refl
to_reasons_lem Response.paper_only reason = inl refl

lockout_lem : (r : Response) → 5 ≤ severity r → r ≡ Response.lockout
lockout_lem Response.lockout h = refl
lockout_lem Response.nothing h = absurd (omega (arith, h))
lockout_lem Response.reduce_size h = absurd (omega (arith, h))
lockout_lem Response.disable_complex h = absurd (omega (arith, h))
lockout_lem Response.revert_to_baseline h = absurd (omega (arith, h))
lockout_lem Response.paper_only h = absurd (omega (arith, h))

module _ {W : Type 0} where
  -- What the walk over findings from a response ends with.
  abbrev IsWorst : Response → HealthReport W → Response → Type 0
  IsWorst worst xs r =
      (severity worst ≤ severity r)
      × All (λ x. severity x.response ≤ severity r) xs
      × ((r ≡ worst) ⊎ IsAsked r xs)

  worst_from-picked :
      (worst : Response) (x : HealthFinding W) (xs : HealthReport W) (b : Bool)
      → ltb (severity worst) (severity x.response) ≡ b
      → worst_from worst (x ∷ xs) ≡ worst_from (if b then x.response else worst) xs
  unfolding worst_from
  worst_from-picked worst x xs b h = ap (λ c. worst_from (if c then x.response else worst) xs) h

  worst_from-IsWorst :
      (worst : Response) (xs : HealthReport W) → IsWorst worst xs (worst_from worst xs)
  unfolding worst_from
  worst_from-IsWorst worst [] = (omega arith, tt, inl refl)
  worst_from-IsWorst worst (x ∷ xs) =
      elim (Bool-cases (ltb (severity worst) (severity x.response))) [
        | inl worse ↦
            let (grown, all, origin) = worst_from-IsWorst x.response xs in
            subst (λ r. IsWorst worst (x ∷ xs) r) (sym (worst_from-picked worst x xs true worse))
              (ground (arith, grown), (grown, all), inr origin)
        | inr milder ↦
            let (grown, all, origin) = worst_from-IsWorst worst xs in
            subst (λ r. IsWorst worst (x ∷ xs) r) (sym (worst_from-picked worst x xs false milder))
              (
                grown,
                (ground (arith, grown), all),
                elim origin [ inl own ↦ inl own | inr asked ↦ inr (inr asked) ],
              )
      ]

  healthy_lem :
      (xs : HealthReport W) → (report_is_healthy xs ≡ true) ↔ All (λ x. severity x.response ≡ 0) xs
  unfolding report_is_healthy
  healthy_lem [] = (λ h. tt, λ h. refl)
  healthy_lem (x ∷ xs) = elim (Bool-cases (severity x.response == 0)) [
    | inl calm ↦ (
      λ h. (ground arith, (healthy_lem xs).0 (rw calm at h)),
      λ (own, all). rw calm ((healthy_lem xs).1 all),
    )
    | inr active ↦ (λ h. cc (rw active at h), λ (own, all). absurd (ground arith))
  ]

  calm_lem :
      (xs : HealthReport W) (r : Response)
      → All (λ x. severity x.response ≡ 0) xs
      → (r ≡ Response.nothing) ⊎ IsAsked r xs
      → severity r ≡ 0
  calm_lem [] r calm (inl own) = ap severity own
  calm_lem [] r calm (inr asked) = absurd asked
  calm_lem (x ∷ xs) r (own, calm) (inl same) = ap severity same
  calm_lem (x ∷ xs) r (own, calm) (inr (inl here)) = ap severity here ∙ own
  calm_lem (x ∷ xs) r (own, calm) (inr (inr later)) = calm_lem xs r calm (inr later)

  none_above :
      (xs : HealthReport W) (r : Response)
      → severity r ≡ 0
      → All (λ x. severity x.response ≤ severity r) xs
      → All (λ x. severity x.response ≡ 0) xs
  none_above [] r h all = tt
  none_above (x ∷ xs) r h (low, all) = (omega (arith, h, low), none_above xs r h all)

  -- The response of a report is at least as severe as that of each finding, and that of one of them or
  -- nothing; and it is nothing exactly if the report is healthy.
  pub response_of-severity :
      (xs : HealthReport W)
      → All (λ x. severity x.response ≤ severity (response_of xs)) xs
        × ((response_of xs ≡ Response.nothing) ⊎ IsAsked (response_of xs) xs)
        × ((report_is_healthy xs ≡ true) ↔ (severity (response_of xs) ≡ 0))
  unfolding response_of
  response_of-severity xs =
      let (_, all, origin) = worst_from-IsWorst Response.nothing xs in
      (
        all,
        origin,
        (
          (λ h. calm_lem xs (response_of xs) ((healthy_lem xs).0 h) origin),
          λ h. (healthy_lem xs).1 (none_above xs (response_of xs) h all),
        ),
      )

  reasons_lem :
      (reason : KillSwitchReason) (reasons : List KillSwitchReason) (xs : HealthReport W)
      (r : Response)
      → health_reasons xs ≡ reason ∷ reasons
      → All (λ x. severity x.response ≤ severity r) xs
      → 5 ≤ severity r
  unfolding health_reasons
  reasons_lem reason reasons [] r h all = cc
  reasons_lem reason reasons (x ∷ xs) r h (own, all) =
      elim (to_reasons_lem x.response (reason_for x.check)) [
        | inl nothing_here ↦
            reasons_lem reason reasons xs r
              (sym (ap (λ c. c ++ health_reasons xs) nothing_here) ∙ h) all
        | inr locked ↦ subst (λ c. severity c ≤ severity r) locked own
      ]

  -- A report that gives a reason for the kill switch calls for a full lockout.
  pub health_reasons-lockout :
      (reason : KillSwitchReason) (reasons : List KillSwitchReason) (xs : HealthReport W)
      → health_reasons xs ≡ reason ∷ reasons
      → response_of xs ≡ Response.lockout
  health_reasons-lockout reason reasons xs h =
      lockout_lem (response_of xs)
        (reasons_lem reason reasons xs (response_of xs) h (response_of-severity xs).0)
