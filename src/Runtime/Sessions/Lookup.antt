-- ===== src/Runtime/Sessions/Lookup.antt =====
-- The session in progress, and the next one.
use mathlib.Core.Option.{some-injective, none-ne-some}
use mathlib.Core.Path.{subst}
use iron_spyder.Prelude.{
  ℕ, zero, suc, ◌+◌, ◌-◌, ◌<◌, ◌≤◌, ◌≡◌, refl, sym, ap, ◌∙◌, ◌↔◌, inl, inr, true, Option, none,
  some, List, [], ◌∷◌, ltb, arith, Bool-cases, Option-cases,
}
use iron_spyder.Runtime.Calendar.{is_trading_day, is_early_close}
use iron_spyder.Runtime.Sessions.{
  Zone, Session, contains, session_for, session_among, current_session, next_from, next_session,
  regular_open, regular_close, early_close,
}

-- What the zone database promises of an exchange day: the opening comes before the close, and the date of
-- an instant between them is that day.
pub record IsZone (z : Zone) : Type 0 where
  pub opens_first : (day : ℕ) → z.combine day regular_open < z.combine day early_close
  pub closes_last : (day : ℕ) → z.combine day early_close ≤ z.combine day regular_close
  pub same_day :
      (day moment : ℕ)
      → z.combine day regular_open ≤ moment
      → moment < z.combine day regular_close
      → z.eastern_day moment ≡ day

-- A moment lies in the session of a day.
abbrev pub InSession : Zone → ℕ → Session → Type 0
InSession z moment s = (session_for z s.day ≡ some s) × (s.open_at ≤ moment) × (moment < s.close_at)

session_for-day : (z : Zone) (day : ℕ) (s : Session) → session_for z day ≡ some s → s.day ≡ day
unfolding session_for
session_for-day z day s h = elim (Bool-cases (is_trading_day day)) [
  | inl trading ↦ sym (ap day_of (rw (trading, session_for) at h))
  | inr closed ↦ cc (rw (closed, session_for) at h)
]
  where
    day_of : Option Session → ℕ
    day_of none = day
    day_of (some t) = t.day

session_among-InSession :
    (z : Zone) (moment : ℕ) (days : List ℕ) (s : Session)
    → session_among z moment days ≡ some s
    → InSession z moment s
unfolding session_among
session_among-InSession z moment [] s h = cc
session_among-InSession z moment (day ∷ days) s h = elim (Option-cases (session_for z day)) [
  | inl closed ↦ session_among-InSession z moment days s (rw (closed, session_among) at h)
  | inr (t, trading) ↦ elim (Bool-cases (contains t moment)) [
    | inl inside ↦
        let e : t ≡ s = some-injective _ _ (rw (trading, inside, session_among) at h) in
        let own = ap (session_for z) (session_for-day z day t trading) ∙ trading in
        subst (λ u. InSession z moment u) e (own, ground arith, ground arith)
    | inr outside ↦
        session_among-InSession z moment days s (rw (trading, outside, session_among) at h)
  ]
]

session_among_first :
    (z : Zone) (moment : ℕ) (s : Session) (days : List ℕ)
    → session_for z s.day ≡ some s
    → s.open_at ≤ moment
    → moment < s.close_at
    → session_among z moment (s.day ∷ days) ≡ some s
unfolding session_among
session_among_first z moment s days trading low high =
    let inside : contains s moment ≡ true = ground arith in rw (trading, inside, session_among) refl

session_bounds :
    (z : Zone) (s : Session)
    → IsZone z
    → session_for z s.day ≡ some s
    → (z.combine s.day regular_open ≤ s.open_at) × (s.close_at ≤ z.combine s.day regular_close)
unfolding session_for
session_bounds z s zone h = elim (Bool-cases (is_trading_day s.day)) [
  | inr closed ↦ cc (rw (closed, session_for) at h)
  | inl trading ↦
      let e = some-injective _ _ (rw (trading, session_for) at h) in
      let opening = ap (λ (t : Session). t.open_at) e in
      let closing = ap (λ (t : Session). t.close_at) e in
      elim (Bool-cases (is_early_close s.day)) [
        | inl early ↦
            let closing' : z.combine s.day early_close ≡ s.close_at = rw early at closing in
            (omega (arith, opening), omega (arith, closing', zone.closes_last s.day))
        | inr regular ↦
            let closing' : z.combine s.day regular_close ≡ s.close_at = rw regular at closing in
            (omega (arith, opening), omega (arith, closing'))
      ]
]

-- A session is in progress exactly if it is that of its day, has opened and has not closed: neither the
-- date of the moment nor the choice of candidates matters, for a zone database as promised.
pub current_session_iff :
    (z : Zone) (moment : ℕ) (s : Session)
    → IsZone z
    → (current_session z moment ≡ some s) ↔ InSession z moment s
unfolding current_session
current_session_iff z moment s zone = (
  session_among-InSession z moment _ s,
  λ (trading, low, high).
      let (opening, closing) = session_bounds z s zone trading in
      let day : z.eastern_day moment ≡ s.day =
        zone.same_day s.day moment (omega (arith, opening, low)) (omega (arith, closing, high)) in
      ap (λ d. session_among z moment (d ∷ (d - 1) ∷ [])) day
      ∙ session_among_first z moment s ((s.day - 1) ∷ []) trading low high,
)

-- What the loop of `next_session` has found: nothing before `n` days have passed, or the first session.
abbrev pub IsNext : Zone → ℕ → ℕ → ℕ → Option Session → Type 0
IsNext z moment day n none =
    (k : ℕ) (t : Session) → k < n → session_for z (day + k) ≡ some t → t.open_at ≤ moment
IsNext z moment day n (some s) =
    (k : ℕ) × (k < n)
    × (session_for z (day + k) ≡ some s)
    × (moment < s.open_at)
    × ((j : ℕ) (t : Session) → j < k → session_for z (day + j) ≡ some t → t.open_at ≤ moment)

-- A day that opens no later than the moment, if it opens at all.
abbrev Passes : Zone → ℕ → ℕ → Type 0
Passes z moment day = (t : Session) → session_for z day ≡ some t → t.open_at ≤ moment

later_lem :
    (z : Zone) (moment day m : ℕ)
    → Passes z moment day
    → ((k : ℕ) (t : Session) → k < m → session_for z (day + 1 + k) ≡ some t → t.open_at ≤ moment)
    → (k : ℕ) (t : Session) → k < suc m
    → session_for z (day + k) ≡ some t
    → t.open_at ≤ moment
later_lem z moment day m own rest zero t low e =
    let here : day + 0 ≡ day = omega arith in own t (ap (session_for z) (sym here) ∙ e)
later_lem z moment day m own rest (suc k) t low e =
    let there : day + suc k ≡ day + 1 + k = omega arith in
    rest k t (omega (arith, low)) (ap (session_for z) (sym there) ∙ e)

IsNext-later :
    (z : Zone) (moment day n : ℕ) (r : Option Session)
    → Passes z moment day
    → IsNext z moment (day + 1) n r
    → IsNext z moment day (suc n) r
IsNext-later z moment day n none own h = later_lem z moment day n own h
IsNext-later z moment day n (some s) own (k, low, e, after, before) =
    let there : day + suc k ≡ day + 1 + k = omega arith in
    (
      suc k,
      omega (arith, low),
      ap (session_for z) there ∙ e,
      after,
      λ j t small. later_lem z moment day k own before j t small,
    )

next_from-IsNext : (z : Zone) (moment n day : ℕ) → IsNext z moment day n (next_from z moment n day)
unfolding next_from
next_from-IsNext z moment zero day = λ k t low. absurd (omega arith)
next_from-IsNext z moment (suc n) day =
    let rest = next_from-IsNext z moment n (day + 1) in
    elim (Option-cases (session_for z day)) [
      | inl closed ↦
          rw (closed, IsNext, next_from)
            (IsNext-later z moment day n _ (λ t e. absurd (none-ne-some _ (sym closed ∙ e))) rest)
      | inr (s, trading) ↦ elim (Bool-cases (ltb moment s.open_at)) [
        | inl after ↦
            let here : day + 0 ≡ day = omega arith in
            rw (trading, after, IsNext, next_from)
              (
                0,
                omega arith,
                ap (session_for z) here ∙ trading,
                ground arith,
                λ j t low. absurd (omega arith),
              )
        | inr before ↦
            rw (trading, before, IsNext, next_from)
              (IsNext-later z moment day n _
                (λ t e.
                  (let same : s ≡ t = some-injective _ _ (sym trading ∙ e) in
                    subst (λ (u : Session). u.open_at ≤ moment) same (ground arith)))
                rest)
      ]
    ]

-- `next_session` returns the first session, of the days from the date of the moment on and for
-- `limit_days` more, that opens after the moment; none only if no session of these days does.
pub next_session-IsNext :
    (z : Zone) (moment limit_days : ℕ)
    → IsNext z moment (z.eastern_day moment) (limit_days + 1) (next_session z moment limit_days)
unfolding next_session
next_session-IsNext z moment limit_days =
    next_from-IsNext z moment (limit_days + 1) (z.eastern_day moment)
