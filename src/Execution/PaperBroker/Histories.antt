-- ===== src/Execution/PaperBroker/Histories.antt =====
-- Sequences of calls on the paper broker: the books hold after any of them, and enough polls end an
-- order.
use iron_spyder.Prelude.{
  ℕ, ◌<◌, ◌≡◌, refl, ◌∙◌, ap, inl, inr, true, some, List, [], ◌∷◌, All, arith, length, Bool-cases,
}
use iron_spyder.Float.{Float}
use iron_spyder.Domain.Market.{MarketSnapshot}
use iron_spyder.Domain.Execution.{MultiLegOrder, Position, is_terminal}
use iron_spyder.Execution.PaperBroker.{
  PaperBroker, Result, ok, err, lookup, insert, submit, poll, poll_order, cancel, register_position,
  settle_position, disconnect, reconnect,
}
use iron_spyder.Execution.PaperBroker.Lifecycle.{
  effort, Evolves, poll_order-Evolves, poll_order-terminal,
}
use iron_spyder.Execution.PaperBroker.Books.{
  IsValid, lookup-insert_self, submit-IsValid, poll-IsValid, cancel-IsValid,
}

-- One call of a method that changes the broker.
pub data Call (W : Type 0) : Type 0 where
  submit_order : MultiLegOrder W → Call W
  poll_id : ℕ → MarketSnapshot W → Call W
  cancel_id : ℕ → Call W
  register : Position W → Call W
  settle : Position W → W → Call W
  go_down go_up : Call W

-- An order is submitted before anything of it is filled and any concession is made, as
-- `build_open_order` and `build_close_order` make it; the other calls are free.
abbrev pub IsFresh : {W : Type 0} → Call W → Type 0
IsFresh (Call.submit_order o) = (o.filled_contracts ≡ 0) × (o.reprice_attempts ≡ 0)
IsFresh _ = Unit

lookup-insert_at :
    {V : Type 0} (k j : ℕ) (v : V) (m : List (ℕ × V)) → j ≡ k → lookup k (insert j v m) ≡ some v
lookup-insert_at k j v m e = rw e (lookup-insert_self k v m)

module _ {W : Type 0} ⦃f : Float W⦄ where
  -- The broker that a call returned, or the old one if it raised.
  abbrev returned : {A : Type 0} → (A → PaperBroker W) → Result A → PaperBroker W → PaperBroker W
  returned get (ok r) b = get r
  returned get (err _) b = b

  returned-IsValid :
      {A : Type 0} (get : A → PaperBroker W) (r : Result A) (b : PaperBroker W)
      → IsValid b
      → ((a : A) → r ≡ ok a → IsValid (get a))
      → IsValid (returned get r b)
  returned-IsValid get (ok a) b v h = h a refl
  returned-IsValid get (err _) b v h = v

  -- A call that raises leaves the broker as it was: the raises stand before the first write.
  pub call : Call W → PaperBroker W → PaperBroker W
  call (Call.submit_order o) b = returned (λ r. r.0) (submit o b) b
  call (Call.poll_id id s) b = returned (λ r. r.broker) (poll id s b) b
  call (Call.cancel_id id) b = returned (λ r. r.0) (cancel id b) b
  call (Call.register p) b = register_position p b
  call (Call.settle p pnl) b = settle_position p pnl b
  call Call.go_down b = disconnect b
  call Call.go_up b = reconnect b

  pub calls : List (Call W) → PaperBroker W → PaperBroker W
  calls [] b = b
  calls (c ∷ cs) b = calls cs (call c b)

  call-IsValid : (c : Call W) (b : PaperBroker W) → IsFresh c → IsValid b → IsValid (call c b)
  unfolding call register_position settle_position disconnect reconnect
  call-IsValid (Call.submit_order o) b (unfilled, fresh) v =
      returned-IsValid (λ r. r.0) (submit o b) b v (λ r. submit-IsValid o b v unfilled fresh)
  call-IsValid (Call.poll_id id s) b h v =
      returned-IsValid (λ r. r.broker) (poll id s b) b v (λ r. poll-IsValid id s b v)
  call-IsValid (Call.cancel_id id) b h v =
      returned-IsValid (λ r. r.0) (cancel id b) b v (λ r. cancel-IsValid id b v)
  call-IsValid (Call.register p) b h v = v
  call-IsValid (Call.settle p pnl) b h v = v
  call-IsValid Call.go_down b h v = v
  call-IsValid Call.go_up b h v = v

  -- From books that agree, whatever calls follow, in whatever order, as long as only fresh orders are
  -- submitted: every stored order is filled for as many contracts as its fills add up to, never for more
  -- than it was sent for, and it has made at most the permitted number of concessions.
  pub calls-IsValid :
      (cs : List (Call W)) (b : PaperBroker W) → All IsFresh cs → IsValid b → IsValid (calls cs b)
  unfolding calls
  calls-IsValid [] b h v = v
  calls-IsValid (c ∷ cs) b (h, hs) v = calls-IsValid cs (call c b) hs (call-IsValid c b h v)

  -- The broker after one poll of an order on each snapshot.
  pub polls : ℕ → List (MarketSnapshot W) → PaperBroker W → PaperBroker W
  polls id [] b = b
  polls id (s ∷ ss) b = polls id ss (returned (λ r. r.broker) (poll id s b) b)

  -- The order stands in the book under `id`, and is terminal.
  abbrev pub HasEnded : ℕ → PaperBroker W → Type 0
  HasEnded id b = (o : MultiLegOrder W) × (lookup id b.orders ≡ some o) × (is_terminal o ≡ true)

  pub poll-known :
      (id : ℕ) (s : MarketSnapshot W) (b : PaperBroker W) (o : MultiLegOrder W)
      → lookup id b.orders ≡ some o
      → poll id s b ≡ ok (poll_order o s b)
  unfolding poll
  poll-known id s b o known = rw (known, poll) refl

  polls_step :
      (id : ℕ) (s : MarketSnapshot W) (ss : List (MarketSnapshot W)) (b : PaperBroker W)
      (o : MultiLegOrder W)
      → lookup id b.orders ≡ some o
      → polls id (s ∷ ss) b ≡ polls id ss (poll_order o s b).broker
  unfolding polls
  polls_step id s ss b o known =
      ap (λ r. polls id ss (returned (λ x. x.broker) r b)) (poll-known id s b o known)

  polls-terminal :
      (id : ℕ) (ss : List (MarketSnapshot W)) (b : PaperBroker W) (o : MultiLegOrder W)
      → lookup id b.orders ≡ some o
      → is_terminal o ≡ true
      → HasEnded id (polls id ss b)
  unfolding polls
  polls-terminal id [] b o known done = (o, known, done)
  polls-terminal id (s ∷ ss) b o known done =
      rw (polls_step id s ss b o known, poll_order-terminal o s b done)
        (polls-terminal id ss b o known done)

  stored_lem :
      (id : ℕ) (s : MarketSnapshot W) (b : PaperBroker W) (o : MultiLegOrder W)
      → o.order_id ≡ id
      → Evolves b o (poll_order o s b)
      → let r = poll_order o s b in lookup id r.broker.orders ≡ some r.order
  stored_lem id s b o same h =
      ap (lookup id) h.stored ∙ lookup-insert_at id o.order_id _ b.orders same

  -- An order of the book ends, filled, rejected, expired or cancelled, within as many polls as it has
  -- concessions and unfilled contracts left, and one more, whatever the market and the random numbers.
  pub polls-HasEnded :
      (id : ℕ) (ss : List (MarketSnapshot W)) (b : PaperBroker W) (o : MultiLegOrder W)
      → lookup id b.orders ≡ some o
      → o.order_id ≡ id
      → effort b.config o < length ss
      → HasEnded id (polls id ss b)
  polls-HasEnded id [] b o known same h = absurd (omega arith)
  polls-HasEnded id (s ∷ ss) b o known same h = elim (Bool-cases (is_terminal o)) [
    | inl done ↦ polls-terminal id (s ∷ ss) b o known done
    | inr live ↦
        let ev = poll_order-Evolves o s b live in
        let r = poll_order o s b in
        let kept = stored_lem id s b o same ev in
        rw (polls_step id s ss b o known) (elim ev.step.proceeds [
          | inl done ↦ polls-terminal id ss r.broker r.order kept done
          | inr less ↦
              polls-HasEnded id ss r.broker r.order kept (ev.step.same_id ∙ same)
                (omega (arith, ap (λ c. c.max_reprice_attempts) ev.same_config))
        ])
  ]
