-- ===== src/Pipeline/Frames.antt =====
-- Orders come and go without a change of the broker's positions.
use iron_spyder.Prelude.{
  ℕ, zero, suc, ◌≡◌, refl, ap, ◌∙◌, inl, inr, Bool, true, false, ◌||◌, ◌⊎◌, if◌then◌else◌,
  Bool-cases, Option-cases,
}
use iron_spyder.Float.{Float}
use iron_spyder.Domain.Market.{MarketSnapshot}
use iron_spyder.Domain.Execution.{MultiLegOrder, is_terminal}
use iron_spyder.Execution.PaperBroker.{
  PaperBroker, BrokerError, Result, ok, err, lookup, submit, poll, cancel, poll_order,
}
use iron_spyder.Execution.PaperBroker.Lifecycle.{poll_order-Evolves, poll_order-terminal}
use iron_spyder.Pipeline.{Run, chain, poll_until, is_some}

-- A condition on the state that is left, raised or not.
abbrev pub Leaves : {S A : Type 0} → (S → Type 0) → Run S A → Type 0
Leaves P (Run.done s a) = P s
Leaves P (Run.raised e s) = P s

pub Leaves-map :
    {S A : Type 0} (P Q : S → Type 0) (r : Run S A)
    → ((s : S) → P s → Q s)
    → Leaves P r
    → Leaves Q r
Leaves-map P Q (Run.done s a) g h = g s h
Leaves-map P Q (Run.raised e s) g h = g s h

pub if-Leaves :
    {S A : Type 0} (P : S → Type 0) (b : Bool) (r r' : Run S A)
    → Leaves P r
    → Leaves P r'
    → Leaves P (if b then r else r')
if-Leaves P true r r' h k = h
if-Leaves P false r r' h k = k

pub Leaves-chain :
    {S A B : Type 0} (P Q : S → Type 0) (r : Run S A) (next : S → A → Run S B)
    → ((s : S) → P s → Q s)
    → Leaves P r
    → ((s : S) (a : A) → P s → Leaves Q (next s a))
    → Leaves Q (chain r next)
Leaves-chain P Q (Run.done s a) next g h k = k s a h
Leaves-chain P Q (Run.raised e s) next g h k = g s h

Result-cases :
    {A : Type 0} (r : Result A) → ((a : A) × (r ≡ ok a)) ⊎ ((e : BrokerError) × (r ≡ err e))
Result-cases (ok a) = inl (a, refl)
Result-cases (err e) = inr (e, refl)

module _ {W : Type 0} where
  -- The broker that a call returned has the positions of the old one.
  abbrev pub Keeps : {A : Type 0} → (A → PaperBroker W) → PaperBroker W → Result A → Type 0
  Keeps get b (ok r) = (get r).positions ≡ b.positions
  Keeps get b (err e) = Unit

module _ {W : Type 0} ⦃f : Float W⦄ where
  pub submit-Keeps : (o : MultiLegOrder W) (b : PaperBroker W) → Keeps (λ r. r.0) b (submit o b)
  unfolding submit
  submit-Keeps o b = elim (Bool-cases b.connected) [
    | inl up ↦ elim (Option-cases (lookup o.order_id b.orders)) [
      | inl new ↦ rw (up, new, Keeps) refl
      | inr (x, known) ↦ rw (up, known, Keeps) tt
    ]
    | inr down ↦ rw (down, Keeps) tt
  ]

  pub cancel-Keeps : (id : ℕ) (b : PaperBroker W) → Keeps (λ r. r.0) b (cancel id b)
  unfolding cancel
  cancel-Keeps id b = elim (Option-cases (lookup id b.orders)) [
    | inl new ↦ rw (new, Keeps) tt
    | inr (o, known) ↦ elim (Bool-cases (is_terminal o)) [
      | inl over ↦ rw (known, over, Keeps) refl
      | inr going ↦ rw (known, going, Keeps) refl
    ]
  ]

  poll_order-positions :
      (o : MultiLegOrder W) (s : MarketSnapshot W) (b : PaperBroker W)
      → (poll_order o s b).broker.positions ≡ b.positions
  poll_order-positions o s b = elim (Bool-cases (is_terminal o)) [
    | inl over ↦ ap (λ r. r.broker.positions) (poll_order-terminal o s b over)
    | inr going ↦ (poll_order-Evolves o s b going).same_positions
  ]

  pub poll-Keeps :
      (id : ℕ) (s : MarketSnapshot W) (b : PaperBroker W) → Keeps (λ r. r.broker) b (poll id s b)
  unfolding poll
  poll-Keeps id s b = elim (Option-cases (lookup id b.orders)) [
    | inl new ↦ rw (new, Keeps) tt
    | inr (o, known) ↦ rw (known, Keeps) (poll_order-positions o s b)
  ]

  pub poll_until-positions :
      (n : ℕ) (s : MarketSnapshot W) (o : MultiLegOrder W) (b : PaperBroker W)
      → Leaves (λ b'. b'.positions ≡ b.positions) (poll_until n s o b)
  unfolding poll_until
  poll_until-positions zero s o b = refl
  poll_until-positions (suc n) s o b = elim (Result-cases (poll o.order_id s b)) [
    | inr (e, failed) ↦ rw (failed, Leaves) refl
    | inl (r, polled) ↦
        let kept : r.broker.positions ≡ b.positions =
          rw (polled, Keeps) at (poll-Keeps o.order_id s b) in
        elim (Bool-cases (is_some r.fill || is_terminal r.order)) [
          | inl over ↦ rw (polled, over, Leaves) kept
          | inr going ↦
              rw (polled, going, Leaves)
                (Leaves-map _ _ (poll_until n s r.order r.broker) (λ b' e. e ∙ kept)
                  (poll_until-positions n s r.order r.broker))
        ]
  ]
