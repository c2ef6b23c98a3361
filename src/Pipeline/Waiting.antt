-- ===== src/Pipeline/Waiting.antt =====
-- Runs that end without an exception, and why polls and submissions of the paper broker are such.
use iron_spyder.Prelude.{
  ℕ, zero, suc, ◌≡◌, ◌≢◌, refl, ap, ◌∙◌, inl, inr, Bool, true, false, Option, none, some, List,
  if◌then◌else◌, Bool-cases, Option-cases,
}
use iron_spyder.Float.{Float}
use iron_spyder.Domain.Market.{MarketSnapshot}
use iron_spyder.Domain.Execution.{MultiLegOrder, is_terminal}
use iron_spyder.Execution.PaperBroker.{PaperBroker, Result, ok, submit}
use iron_spyder.Pipeline.{Run, chain, poll_until}
use iron_spyder.Domain.Market.{OptionQuote}
use iron_spyder.Prelude.{◌||◌, not, ltb, length}
use iron_spyder.Domain.Enums.{OrderStatus}
use iron_spyder.Execution.PaperBroker.{
  store, poll_order, try_fill, quotes_for, acceptable, misses, fill_size, reprice_or_expire,
  record_fill, lookup, poll,
}
use iron_spyder.Execution.PaperBroker.Lifecycle.{poll_order-Evolves, poll_order-terminal}
use iron_spyder.Execution.PaperBroker.Books.{lookup-insert_self, lookup-insert_ne}
use iron_spyder.Execution.PaperBroker.Histories.{poll-known}
use mathlib.Core.Path.{subst}
use iron_spyder.Pipeline.{is_some}

-- Nothing is raised, and the state and the value that are left meet a condition.

abbrev pub IsDone : {S A : Type 0} → (S → A → Type 0) → Run S A → Type 0
IsDone P (Run.done s a) = P s a
IsDone P (Run.raised e s) = ⊥

pub IsDone-chain :
    {S A B : Type 0} (P : S → A → Type 0) (Q : S → B → Type 0) (r : Run S A)
    (next : S → A → Run S B)
    → IsDone P r
    → ((s : S) (a : A) → P s a → IsDone Q (next s a))
    → IsDone Q (chain r next)
IsDone-chain P Q (Run.done s a) next h k = k s a h
IsDone-chain P Q (Run.raised e s) next h k = absurd h

pub if-IsDone :
    {S A : Type 0} (P : S → A → Type 0) (b : Bool) (r r' : Run S A)
    → IsDone P r
    → IsDone P r'
    → IsDone P (if b then r else r')
if-IsDone P true r r' h k = h
if-IsDone P false r r' h k = k

pub chosen-IsDone :
    {S A : Type 0} (P : S → A → Type 0) (b : Bool) (r r' : Run S A)
    → b ≡ true
    → IsDone P r
    → IsDone P (if b then r else r')
chosen-IsDone P true r r' e h = h
chosen-IsDone P false r r' e h = cc

-- The first branch under its condition.
pub if_true-IsDone :
    {S A : Type 0} (P : S → A → Type 0) (b : Bool) (r r' : Run S A)
    → (b ≡ true → IsDone P r)
    → IsDone P r'
    → IsDone P (if b then r else r')
if_true-IsDone P true r r' h k = h refl
if_true-IsDone P false r r' h k = k

pub looked_up :
    {A V : Type 0} (l : Option V) (v : V) (e : A) (g : V → A)
    → l ≡ some v
    → elim l [ none ↦ e | some x ↦ g x ] ≡ g v
looked_up l v e g h = rw h refl

pub picked : {A : Type 0} (b : Bool) (x y : A) → b ≡ true → (if b then x else y) ≡ x
picked b x y h = rw h refl

pub passed : {A : Type 0} (b : Bool) (x y : A) → b ≡ false → (if b then x else y) ≡ y
passed b x y h = rw h refl

admitted :
    {A V : Type 0} (b : Bool) (l : Option V) (e : Result A) (g : V → Result A) (y : Result A)
    → b ≡ true
    → l ≡ none
    → (if not b then e else elim l [ some x ↦ g x | none ↦ y ]) ≡ y
admitted true none e g y h k = refl
admitted true (some x) e g y h k = cc
admitted false l e g y h k = cc

module _ {W : Type 0} where
  -- The order `id` stands in the book of a connected broker; the other entries are those of `b`.
  pub record Polls (id : ℕ) (b b' : PaperBroker W) : Type 0 where
    pub connected : b'.connected ≡ true
    pub known : (w : MultiLegOrder W) × (lookup id b'.orders ≡ some w) × (w.order_id ≡ id)
    pub others : (j : ℕ) → j ≢ id → lookup j b'.orders ≡ lookup j b.orders

  pub Polls-trans : (id : ℕ) (a b c : PaperBroker W) → Polls id a b → Polls id b c → Polls id a c
  Polls-trans id a b c h k = record {
    connected = k.connected;
    known = k.known;
    others = λ j other. k.others j other ∙ h.others j other;
  }

module _ {W : Type 0} ⦃f : Float W⦄ where
  try_fill-connected :
      (o : MultiLegOrder W) (s : MarketSnapshot W) (quotes : List (OptionQuote W))
      (b : PaperBroker W)
      → (try_fill o s quotes b).broker.connected ≡ b.connected
  unfolding try_fill reprice_or_expire record_fill
  try_fill-connected o s quotes b = elim (Bool-cases (acceptable b.costs o quotes)) [
    | inr dear ↦ rw dear refl
    | inl fair ↦ elim (Bool-cases (misses o s quotes b)) [
      | inl missed ↦ rw (fair, missed) refl
      | inr lucky ↦ elim (Bool-cases (ltb (fill_size b.config o quotes) 1)) [
        | inl empty ↦ rw (fair, lucky, empty) refl
        | inr deep ↦ rw (fair, lucky, deep) refl
      ]
    ]
  ]

  poll_order-connected :
      (o : MultiLegOrder W) (s : MarketSnapshot W) (b : PaperBroker W)
      → (poll_order o s b).broker.connected ≡ b.connected
  unfolding poll_order
  poll_order-connected o s b = elim (Bool-cases (is_terminal o)) [
    | inl over ↦ rw over refl
    | inr going ↦ elim (Option-cases (quotes_for o.strategy.legs s.option_chain)) [
      | inl missing ↦ rw (going, missing) refl
      | inr (quotes, found) ↦ rw (going, found) (try_fill-connected o s quotes b)
    ]
  ]

  -- A poll of an order of the book.
  poll_order-Polls :
      (o : MultiLegOrder W) (s : MarketSnapshot W) (b : PaperBroker W)
      → b.connected ≡ true
      → lookup o.order_id b.orders ≡ some o
      → Polls o.order_id b (poll_order o s b).broker
        × ((poll_order o s b).order.order_id ≡ o.order_id)
  poll_order-Polls o s b up known = elim (Bool-cases (is_terminal o)) [
    | inl over ↦
        let same = poll_order-terminal o s b over in
        rw same
          (record { connected = up; known = (o, known, refl); others = λ j other. refl }, refl)
    | inr going ↦
        let e = poll_order-Evolves o s b going in
        let found : lookup o.order_id (poll_order o s b).broker.orders
            ≡ some (poll_order o s b).order =
          ap (lookup o.order_id) e.stored ∙ lookup-insert_self o.order_id _ b.orders in
        (
          record {
            connected = poll_order-connected o s b ∙ up;
            known = ((poll_order o s b).order, found, e.step.same_id);
            others =
                λ j other. ap (lookup j) e.stored ∙ lookup-insert_ne j o.order_id _ b.orders other;
          },
          e.step.same_id,
        )
  ]

  poll_order-at :
      (id : ℕ) (o : MultiLegOrder W) (s : MarketSnapshot W) (b : PaperBroker W)
      → b.connected ≡ true
      → o.order_id ≡ id
      → lookup id b.orders ≡ some o
      → Polls id b (poll_order o s b).broker × ((poll_order o s b).order.order_id ≡ id)
  poll_order-at id o s b up own known =
      let r = poll_order o s b in
      subst (λ j. Polls j b r.broker × (r.order.order_id ≡ j)) own
        (poll_order-Polls o s b up (ap (λ j. lookup j b.orders) own ∙ known))

  pub poll_until-IsDone :
      (n : ℕ) (s : MarketSnapshot W) (o : MultiLegOrder W) (id : ℕ) (a b : PaperBroker W)
      → o.order_id ≡ id
      → Polls id a b
      → IsDone (λ b' r. Polls id a b' × (r.0.order_id ≡ id)) (poll_until n s o b)
  unfolding poll_until
  poll_until-IsDone zero s o id a b e h = (h, e)
  poll_until-IsDone (suc n) s o id a b e h =
      let (w, known, own) = h.known in
      let r = poll_order w s b in
      let (moved, same) = poll_order-at id w s b h.connected own known in
      let polled : poll o.order_id s b ≡ ok r =
        ap (λ j. poll j s b) e ∙ poll-known id s b w known in
      elim (Bool-cases (is_some r.fill || is_terminal r.order)) [
        | inl over ↦ rw (polled, over, IsDone) (Polls-trans id a b r.broker h moved, same)
        | inr going ↦
            rw (polled, going, IsDone)
              (poll_until-IsDone n s r.order id a r.broker same
                (Polls-trans id a b r.broker h moved))
      ]

  -- A new order of a connected broker.
  pub submit-ok :
      (o : MultiLegOrder W) (b : PaperBroker W)
      → b.connected ≡ true
      → lookup o.order_id b.orders ≡ none
      → (b' : PaperBroker W) × (w : MultiLegOrder W) × (submit o b ≡ ok (b', w))
        × Polls o.order_id b b'
        × (w.order_id ≡ o.order_id)
  unfolding submit
  submit-ok o b up new =
      let w : MultiLegOrder W = record o {
        status = OrderStatus.working;
        broker_order_id = some (length b.orders);
      } in
      (
        store w b,
        w,
        admitted b.connected (lookup o.order_id b.orders) _ _ _ up new,
        record {
          connected = up;
          known = (w, lookup-insert_self o.order_id w b.orders, refl);
          others = λ j other. lookup-insert_ne j o.order_id w b.orders other;
        },
        refl,
      )
