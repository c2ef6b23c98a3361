-- ===== src/Runtime/Sessions/Decisions.antt =====
-- The decision times are complete.
use iron_spyder.Prelude.{
  ℕ, zero, suc, ◌+◌, ◌-◌, ◌*◌, ◌<◌, ◌≤◌, ◌≡◌, refl, ◌↔◌, ◌⊎◌, inl, inr, true, some, List, [], ◌∷◌,
  ltb, arith, Bool-cases,
}
use iron_spyder.Prelude.Int.{pos}
use iron_spyder.Runtime.Sessions.{Session, times_from, decision_times}

abbrev pub IsListed : ℕ → List ℕ → Type 0
IsListed t [] = ⊥
IsListed t (u ∷ us) = (t ≡ u) ⊎ IsListed t us

-- A whole number of intervals after the opening, and before the close.
abbrev pub IsDue : ℕ → ℕ → ℕ → ℕ → Type 0
IsDue interval close moment t = (k : ℕ) × (t ≡ moment + k * interval) × (t < close)

times_from-IsDue :
    (n interval close moment t : ℕ)
    → IsListed t (times_from n interval close moment)
    → IsDue interval close moment t
unfolding times_from
times_from-IsDue zero interval close moment t h = absurd h
times_from-IsDue (suc n) interval close moment t h = elim (Bool-cases (ltb moment close)) [
  | inl before ↦ elim (rw (before, IsListed, times_from) at h) [
    | inl here ↦ (0, omega (arith, here), ground arith)
    | inr later ↦
        let (k, e, low) = times_from-IsDue n interval close (moment + interval) t later in
        (suc k, omega (arith, e), low)
  ]
  | inr after ↦ absurd (rw (after, IsListed, times_from) at h)
]

IsDue-times_from :
    (n interval close moment k t : ℕ)
    → 1 ≤ interval
    → close - moment ≤ n
    → t ≡ moment + k * interval
    → t < close
    → IsListed t (times_from n interval close moment)
unfolding times_from
IsDue-times_from zero interval close moment k t some_time fuel e low = absurd (omega arith)
IsDue-times_from (suc n) interval close moment zero t some_time fuel e low =
    let before : ltb moment close ≡ true = ground arith in
    rw (before, IsListed) (inl (omega (arith, e)))
IsDue-times_from (suc n) interval close moment (suc k) t some_time fuel e low =
    let before : ltb moment close ≡ true = ground arith in
    rw (before, IsListed)
      (inr (
        IsDue-times_from n interval close (moment + interval) k t some_time (omega arith)
          (omega (arith, e)) low))

-- For an interval of at least a microsecond the loop of `decision_times` ends, and what it returns are the
-- instants of the session that are a whole number of intervals after the opening and before the close,
-- all of them.
pub decision_times_complete :
    (s : Session) (n : ℕ)
    → 1 ≤ n
    → (times : List ℕ) × (decision_times s (pos n) ≡ some times)
      × ((t : ℕ) → IsListed t times ↔ IsDue n s.close_at s.open_at t)
unfolding decision_times
decision_times_complete s zero some_time = absurd (omega arith)
decision_times_complete s (suc n) some_time = (
  times_from (s.close_at - s.open_at) (suc n) s.close_at s.open_at,
  refl,
  λ t. (
    times_from-IsDue (s.close_at - s.open_at) (suc n) s.close_at s.open_at t,
    λ (k, e, low).
        IsDue-times_from (s.close_at - s.open_at) (suc n) s.close_at s.open_at k t some_time
          (omega arith) e low,
  ),
)
