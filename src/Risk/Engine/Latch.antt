-- ===== src/Risk/Engine/Latch.antt =====
-- The veto: what an approval implies, and that a latched kill switch never approves.
use iron_spyder.Prelude.{
  All, All-append, ◌≢◌, ◌≡◌, ◌∙◌, ◌==◌, refl, inl, inr, Bool, true, false, Option, none, some, List,
  [], ◌∷◌, ◌++◌, map, append-nil_left, arith, Bool-cases, Option-cases,
}
use iron_spyder.Float.{Float}
use iron_spyder.Domain.Enums.{KillSwitchReason, rank}
use iron_spyder.Domain.Market.{MarketSnapshot, ForecastBundle}
use iron_spyder.Domain.Strategy.{StrategyCandidate}
use iron_spyder.Domain.Execution.{RiskDecision, BrokerState}
use iron_spyder.Risk.Limits.{
  Active, Detail, SessionState, find_reason, remove_reason, reset, same_reason, trip, sort_reasons,
  insert_reason,
}
use iron_spyder.Risk.Sizing.{SizingResult}
use iron_spyder.Risk.Portfolio.{Portfolio}
use iron_spyder.Risk.Engine.Checks.{
  Veto, RiskEngine, trip_when, update_kill_switches, kill_switch_reasons,
}
use iron_spyder.Risk.Engine.{
  refreshed, evaluate, sizing_for, verdict, decide_on, general_reasons, all_reasons,
}

-- A reason that is active stays so, with the detail that it was first tripped with.
abbrev pub Latched : KillSwitchReason → Detail → Active → Type 0
Latched r d a = find_reason r a ≡ some d

find_reason-append :
    (r : KillSwitchReason) (d : Detail) (a b : Active)
    → find_reason r a ≡ some d
    → find_reason r (a ++ b) ≡ some d
unfolding find_reason
find_reason-append r d [] b h = cc
find_reason-append r d ((q, x) ∷ a) b h = ground (arith, find_reason-append r d a b)

find_reason-remove :
    (r q : KillSwitchReason) (a : Active)
    → same_reason q r ≡ false
    → find_reason r (remove_reason q a) ≡ find_reason r a
unfolding find_reason remove_reason same_reason
find_reason-remove r q [] h = refl
find_reason-remove r q ((p, d) ∷ a) h = elim (Bool-cases (rank p == rank q)) [
  | inl own ↦
      let other : (rank p == rank r) ≡ false = ground (arith, own, h) in rw (own, other) refl
  | inr kept ↦ elim (Bool-cases (rank p == rank r)) [
    | inl found ↦ rw (kept, found) refl
    | inr later ↦ rw (kept, later) (find_reason-remove r q a h)
  ]
]

trip-Latched :
    (r : KillSwitchReason) (d : Detail) (q : KillSwitchReason) (x : Option Detail) (a : Active)
    → Latched r d a
    → Latched r d (trip q x a)
unfolding trip
trip-Latched r d q x a h = elim (Option-cases (find_reason q a)) [
  | inl new ↦ rw (new, trip) (find_reason-append r d a _ h)
  | inr (y, old) ↦ rw (old, trip) h
]

trip_when-Latched :
    (c : Bool) (r : KillSwitchReason) (d : Detail) (q : KillSwitchReason) (x : Option Detail)
    (a : Active)
    → Latched r d a
    → Latched r d (trip_when c q x a)
unfolding trip_when
trip_when-Latched true r d q x a h = trip-Latched r d q x a h
trip_when-Latched false r d q x a h = h

insert_reason-ne_nil : (e : KillSwitchReason × Detail) (a : Active) → ¬ (insert_reason e a ≡ [])
unfolding insert_reason
insert_reason-ne_nil e [] h = cc
insert_reason-ne_nil e (x ∷ a) h = ground arith

-- No reason is given for the kill switch only if none is active.
pub kill_switch_reasons-nil : (a : Active) → kill_switch_reasons a ≡ [] → a ≡ []
unfolding kill_switch_reasons sort_reasons
kill_switch_reasons-nil [] h = refl
kill_switch_reasons-nil (e ∷ a) h = absurd (insert_reason-ne_nil e (sort_reasons a) (map-nil _ _ h))
  where
    map-nil : (g : KillSwitchReason × Detail → Veto) (xs : Active) → map g xs ≡ [] → xs ≡ []
    map-nil g [] e = refl
    map-nil g (x ∷ xs) e = cc

-- The switch is not reset for a reason: not by that reason, and not for all of them.
abbrev pub Spares : KillSwitchReason → Option KillSwitchReason → Type 0
Spares r none = ⊥
Spares r (some q) = same_reason q r ≡ false

reset-Latched :
    (r : KillSwitchReason) (d : Detail) (q : Option KillSwitchReason) (a : Active)
    → Spares r q
    → Latched r d a
    → Latched r d (reset q a)
unfolding reset
reset-Latched r d none a spared h = absurd spared
reset-Latched r d (some q) a spared h = find_reason-remove r q a spared ∙ h

-- What one call of `evaluate` is given.
pub record Request (W D : Type 0) : Type 0 where
  pub candidate : Option (StrategyCandidate W)
  pub snapshot : MarketSnapshot W
  pub forecast : ForecastBundle W
  pub portfolio : Portfolio W
  pub broker : BrokerState W D

-- The calls that change the engine: an evaluation, any accounting of the session, a trip of the kill switch
-- from outside, and a reset of it.
pub data Call (W D : Type 0) : Type 0 where
  asked : Request W D → Call W D
  accounted : SessionState W → Call W D
  tripped : KillSwitchReason → Option Detail → Call W D
  released : Option KillSwitchReason → Call W D

module _ {W : Type 0} ⦃f : Float W⦄ where
  open f use {nought}

  abbrev pub IsRefusal : RiskDecision W Veto → Type 0
  IsRefusal r =
      (r.approved ≡ false)
      × (r.max_contracts ≡ 0)
      × (r.approved_risk ≡ nought)
      × (r.veto_reasons ≢ [])

  decide_on-IsRefusal :
      (c : StrategyCandidate W) (sizing : SizingResult W) (reasons : List Veto)
      → reasons ≢ []
      → IsRefusal (decide_on c sizing reasons)
  decide_on-IsRefusal c sizing [] h = absurd (h refl)
  decide_on-IsRefusal c sizing (r ∷ rs) h = (refl, refl, refl, h)

module _ {W D : Type 0} ⦃f : Float W⦄ where
  open f use {nought}

  update_kill_switches-Latched :
      (e : RiskEngine W) (s : MarketSnapshot W) (fc : ForecastBundle W) (b : BrokerState W D)
      (r : KillSwitchReason) (d : Detail)
      → Latched r d e.kill_switch
      → Latched r d (update_kill_switches e s fc b)
  unfolding update_kill_switches
  update_kill_switches-Latched e s fc b r d h = trip_when-Latched _ r d _ _ _ (
      trip_when-Latched _ r d _ _ _ (
        trip_when-Latched _ r d _ _ _ (
          trip_when-Latched _ r d _ _ _ (
            trip_when-Latched _ r d _ _ _ (
              trip_when-Latched _ r d _ _ _
                (trip_when-Latched _ r d _ _ _ (trip_when-Latched _ r d _ _ _ h)))))))

  abbrev pub answer :
      RiskEngine W → Request W D → RiskEngine W × (RiskDecision W Veto × Option (SizingResult W))
  answer e q = evaluate e q.candidate q.snapshot q.forecast q.portfolio q.broker

  -- The engine after a call, and the decisions on a sequence of calls.
  abbrev pub after_call : Call W D → RiskEngine W → RiskEngine W
  after_call (Call.asked q) e = (answer e q).0
  after_call (Call.accounted session) e = record e { session = session }
  after_call (Call.tripped q x) e = record e { kill_switch = trip q x e.kill_switch }
  after_call (Call.released q) e = record e { kill_switch = reset q e.kill_switch }

  abbrev pub after_calls : List (Call W D) → RiskEngine W → RiskEngine W
  after_calls [] e = e
  after_calls (c ∷ cs) e = after_calls cs (after_call c e)

  abbrev pub decided : Call W D → RiskEngine W → List (RiskDecision W Veto)
  decided (Call.asked q) e = (answer e q).1.0 ∷ []
  decided _ e = []

  pub decisions : RiskEngine W → List (Call W D) → List (RiskDecision W Veto)
  decisions e [] = []
  decisions e (c ∷ cs) = decided c e ++ decisions (after_call c e) cs

  -- A call does not reset the switch for a reason.
  abbrev pub IsHarmless : KillSwitchReason → Call W D → Type 0
  IsHarmless r (Call.released q) = Spares r q
  IsHarmless r _ = Unit

  general_reasons-ne_nil :
      (e : RiskEngine W) (s : MarketSnapshot W) (fc : ForecastBundle W) (b : BrokerState W D)
      (r : KillSwitchReason) (d : Detail)
      → Latched r d e.kill_switch
      → general_reasons e s fc b ≢ []
  unfolding general_reasons find_reason
  general_reasons-ne_nil e s fc b r d h none_given =
      let idle = kill_switch_reasons-nil e.kill_switch (append-nil_left _ _ none_given) in
      cc (rw idle at h)

  -- With a switch active the engine's verdict is a refusal.
  verdict-IsRefusal :
      (e : RiskEngine W) (candidate : Option (StrategyCandidate W)) (s : MarketSnapshot W)
      (fc : ForecastBundle W) (ps : Portfolio W) (b : BrokerState W D) (r : KillSwitchReason)
      (d : Detail)
      → Latched r d e.kill_switch
      → IsRefusal (verdict e candidate s fc ps b).0
  unfolding all_reasons
  verdict-IsRefusal e none s fc ps b r d h =
      (refl, refl, refl, λ nil. general_reasons-ne_nil e s fc b r d h (append-nil_left _ _ nil))
  verdict-IsRefusal e (some c) s fc ps b r d h =
      decide_on-IsRefusal c (sizing_for e c fc ps b) (all_reasons e c s fc ps b)
        (all_reasons-ne_nil h)
    where
      all_reasons-ne_nil : Latched r d e.kill_switch → all_reasons e c s fc ps b ≢ []
      all_reasons-ne_nil h nil = general_reasons-ne_nil e s fc b r d h (append-nil_left _ _ nil)

  answer-Latched :
      (e : RiskEngine W) (q : Request W D) (r : KillSwitchReason) (d : Detail)
      → Latched r d e.kill_switch
      → Latched r d (answer e q).0.kill_switch
  unfolding evaluate refreshed
  answer-Latched e q r d h = update_kill_switches-Latched _ _ _ _ r d h

  call-Latched :
      (e : RiskEngine W) (c : Call W D) (r : KillSwitchReason) (d : Detail)
      → IsHarmless r c
      → Latched r d e.kill_switch
      → Latched r d (after_call c e).kill_switch
  call-Latched e (Call.asked q) r d kept h = answer-Latched e q r d h
  call-Latched e (Call.accounted session) r d kept h = h
  call-Latched e (Call.tripped q x) r d kept h = trip-Latched r d q x e.kill_switch h
  call-Latched e (Call.released q) r d kept h = reset-Latched r d q e.kill_switch kept h

  decided-IsRefusal :
      (e : RiskEngine W) (c : Call W D) (r : KillSwitchReason) (d : Detail)
      → Latched r d e.kill_switch
      → All IsRefusal (decided c e)
  unfolding evaluate
  decided-IsRefusal e (Call.asked q) r d h = (
    verdict-IsRefusal (answer e q).0 q.candidate q.snapshot q.forecast q.portfolio q.broker r d
        (answer-Latched e q r d h),
    tt,
  )
  decided-IsRefusal e (Call.accounted session) r d h = tt
  decided-IsRefusal e (Call.tripped q x) r d h = tt
  decided-IsRefusal e (Call.released q) r d h = tt

  -- Once a kill switch is active for a reason, and as long as it is not reset for that reason, every
  -- evaluation refuses, with no contracts, no risk and a reason, whatever the candidate, the market, the
  -- forecast and the account are then, however the session is accounted for, and whatever else is
  -- tripped or reset; and the switch keeps the detail that it was first tripped with.
  pub decisions-IsRefusal :
      (e : RiskEngine W) (cs : List (Call W D)) (r : KillSwitchReason) (d : Detail)
      → All (IsHarmless r) cs
      → Latched r d e.kill_switch
      → All IsRefusal (decisions e cs) × Latched r d (after_calls cs e).kill_switch
  unfolding decisions
  decisions-IsRefusal e [] r d kept h = (tt, h)
  decisions-IsRefusal e (c ∷ cs) r d (own, kept) h =
      let (later, latched) =
        decisions-IsRefusal (after_call c e) cs r d kept (call-Latched e c r d own h) in
      (All-append IsRefusal (decided c e) _ (decided-IsRefusal e c r d h) later, latched)
