-- ===== src/Execution/PaperBroker/Lifecycle.antt =====
-- The life of one order under `poll`: what stays, what grows, and why it ends.
use Prim.Native.Nat.{min}
use mathlib.Core.List.{append-nil}
use iron_spyder.Prelude.{
  ap, sym, ◌++◌, ℕ, ◌+◌, ◌-◌, ◌≤◌, ◌<◌, ◌≡◌, refl, ◌⊎◌, inl, inr, Bool, true, false, Option, none,
  some, List, [], ◌∷◌, arith, ltb, leb, if◌then◌else◌, Bool-cases, Option-cases,
}
use iron_spyder.Float.{Float}
use iron_spyder.Domain.Enums.{OrderIntent}
use iron_spyder.Domain.Market.{OptionQuote, MarketSnapshot}
use iron_spyder.Domain.Execution.{MultiLegOrder, Fill, is_terminal, remaining_contracts}
use iron_spyder.Execution.PaperBroker.{
  insert, store, charge, PaperBroker, PaperBrokerConfig, Polled, conceded, filled_order, fill_size,
  reprice_or_expire, record_fill, acceptable, misses, try_fill, poll_order, quotes_for,
}

module _ {W : Type 0} where
  -- The concessions and the contracts that an order has left.
  abbrev pub effort : PaperBrokerConfig W → MultiLegOrder W → ℕ
  effort cfg o = (cfg.max_reprice_attempts - o.reprice_attempts) + remaining_contracts o

  -- The size of a fill, 0 without one.
  abbrev pub fill_contracts : Option (Fill W) → ℕ
  fill_contracts none = 0
  fill_contracts (some x) = x.contracts

  abbrev pub Proceeds : PaperBrokerConfig W → MultiLegOrder W → MultiLegOrder W → Type 0
  Proceeds cfg o o' = (is_terminal o' ≡ true) ⊎ (effort cfg o' < effort cfg o)

  -- The bounds that every order of the broker keeps.
  pub record IsBounded (cfg : PaperBrokerConfig W) (o : MultiLegOrder W) : Type 0 where
    pub filled_le : o.filled_contracts ≤ o.contracts
    pub attempts_le : o.reprice_attempts ≤ cfg.max_reprice_attempts

  -- What an order keeps under one poll that fills `n` contracts of it, and what it gains.
  pub record Step (cfg : PaperBrokerConfig W) (o o' : MultiLegOrder W) (n : ℕ) : Type 0 where
    pub same_id : o'.order_id ≡ o.order_id
    pub same_strategy : o'.strategy ≡ o.strategy
    pub same_contracts : o'.contracts ≡ o.contracts
    pub filled : o'.filled_contracts ≡ o.filled_contracts + n
    pub bounded : IsBounded cfg o → IsBounded cfg o'
    pub proceeds : Proceeds cfg o o'

  abbrev pub to_list : Option (Fill W) → List (Fill W)
  to_list none = []
  to_list (some x) = x ∷ []

  abbrev pub Concerns : ℕ → Option (Fill W) → Type 0
  Concerns id none = Unit
  Concerns id (some x) = x.order_id ≡ id

module _ {W : Type 0} ⦃f : Float W⦄ where
  open f use {minus}

  -- Only the opening of a position charges its commission here.
  abbrev pub equity_after : OrderIntent → W → Option (Fill W) → W
  equity_after intent equity none = equity
  equity_after OrderIntent.opening equity (some x) = minus equity x.commission
  equity_after OrderIntent.closing equity (some x) = equity

  -- What a poll of a live order makes of the broker and of the order.
  pub record Evolves (b : PaperBroker W) (o : MultiLegOrder W) (r : Polled W) : Type 0 where
    pub same_config : r.broker.config ≡ b.config
    pub same_positions : r.broker.positions ≡ b.positions
    pub stored : r.broker.orders ≡ insert o.order_id r.order b.orders
    pub booked : r.broker.fills ≡ b.fills ++ to_list r.fill
    pub concerns : Concerns o.order_id r.fill
    pub charged : r.broker.equity ≡ equity_after o.intent b.equity r.fill
    pub step : Step b.config o r.order (fill_contracts r.fill)

  conceded-Step : (cfg : PaperBrokerConfig W) (o : MultiLegOrder W) → Step cfg o (conceded cfg o) 0
  unfolding conceded
  conceded-Step cfg o = elim (Bool-cases (leb cfg.max_reprice_attempts o.reprice_attempts)) [
    | inl spent ↦ rw spent (ground arith)
    | inr left ↦ rw left (ground arith)
  ]

  filled_order-Step :
      (cfg : PaperBrokerConfig W) (o : MultiLegOrder W) (n : ℕ)
      → 1 ≤ n
      → n ≤ remaining_contracts o
      → Step cfg o (filled_order o n) n
  unfolding filled_order
  filled_order-Step cfg o n lo hi = elim (Bool-cases (leb o.contracts (o.filled_contracts + n))) [
    | inl whole ↦ rw whole (ground arith)
    | inr part ↦ rw part (ground arith)
  ]

  pub fill_size-le :
      (cfg : PaperBrokerConfig W) (o : MultiLegOrder W) (quotes : List (OptionQuote W))
      → fill_size cfg o quotes ≤ remaining_contracts o
  unfolding fill_size
  fill_size-le cfg o [] = omega arith
  fill_size-le cfg o (q ∷ qs) = capped _ (remaining_contracts o) cfg.allow_partial_fills
    where
      capped :
          (capacity wanted : ℕ) (partial : Bool)
          → (if leb wanted capacity then wanted else (if partial then min wanted capacity else 0))
            ≤ wanted
      capped capacity wanted partial = ground arith

  stored_at :
      (o o' : MultiLegOrder W) (b : PaperBroker W)
      → o'.order_id ≡ o.order_id
      → insert o'.order_id o' b.orders ≡ insert o.order_id o' b.orders
  stored_at o o' b e = ap (λ k. insert k o' b.orders) e

  -- A poll without a fill that stores a later form of the order.
  no_fill-Evolves :
      (b : PaperBroker W) (o o' : MultiLegOrder W)
      → Step b.config o o' 0
      → Evolves b o (record { broker = store o' b; order = o'; fill = none })
  no_fill-Evolves b o o' st = record {
    same_config = refl;
    same_positions = refl;
    stored = stored_at o o' b st.same_id;
    booked = sym (append-nil b.fills);
    concerns = tt;
    charged = refl;
    step = st;
  }

  reprice_or_expire-Evolves :
      (o : MultiLegOrder W) (b : PaperBroker W) → Evolves b o (reprice_or_expire o b)
  unfolding reprice_or_expire
  reprice_or_expire-Evolves o b = no_fill-Evolves b o _ (conceded-Step b.config o)

  charge_lem :
      (intent : OrderIntent) (equity : W) (x : Fill W)
      → charge intent equity x.commission ≡ equity_after intent equity (some x)
  charge_lem OrderIntent.opening equity x = refl
  charge_lem OrderIntent.closing equity x = refl

  record_fill-Evolves :
      (o : MultiLegOrder W) (now : ℕ) (price : W) (n : ℕ) (quotes : List (OptionQuote W))
      (b : PaperBroker W)
      → 1 ≤ n
      → n ≤ remaining_contracts o
      → Evolves b o (record_fill o now price n quotes b)
  unfolding record_fill
  record_fill-Evolves o now price n quotes b lo hi =
      let st = filled_order-Step b.config o n lo hi in
      record {
        same_config = refl;
        same_positions = refl;
        stored = stored_at o (filled_order o n) b st.same_id;
        booked = refl;
        concerns = refl;
        charged = charge_lem o.intent b.equity _;
        step = st;
      }

  -- The number drawn is no part of what `Evolves` compares.
  after_draw :
      (b : PaperBroker W) (o : MultiLegOrder W) (r : Polled W) (n : ℕ)
      → Evolves (record b { drawn = n }) o r
      → Evolves b o r
  after_draw b o r n h = record {
    same_config = h.same_config;
    same_positions = h.same_positions;
    stored = h.stored;
    booked = h.booked;
    concerns = h.concerns;
    charged = h.charged;
    step = h.step;
  }

  try_fill-Evolves :
      (o : MultiLegOrder W) (s : MarketSnapshot W) (quotes : List (OptionQuote W))
      (b : PaperBroker W)
      → Evolves b o (try_fill o s quotes b)
  unfolding try_fill
  try_fill-Evolves o s quotes b =
      let drawn = record b { drawn = b.drawn + 1 } in
      let size = fill_size b.config o quotes in
      let concedes = after_draw b o _ (b.drawn + 1) (reprice_or_expire-Evolves o drawn) in
      elim (Bool-cases (acceptable b.costs o quotes)) [
        | inr dear ↦ rw dear (reprice_or_expire-Evolves o b)
        | inl fair ↦ elim (Bool-cases (misses o s quotes b)) [
          | inl missed ↦ rw (fair, missed) concedes
          | inr lucky ↦ elim (Bool-cases (ltb size 1)) [
            | inl empty ↦ rw (fair, lucky, empty) concedes
            | inr deep ↦
                rw (fair, lucky, deep)
                  (after_draw b o _ (b.drawn + 1) (
                    record_fill-Evolves o _ _ size quotes drawn (ground arith)
                      (fill_size-le b.config o quotes)))
          ]
        ]
      ]

  -- A poll of an order that is not terminal.
  pub poll_order-Evolves :
      (o : MultiLegOrder W) (s : MarketSnapshot W) (b : PaperBroker W)
      → is_terminal o ≡ false
      → Evolves b o (poll_order o s b)
  unfolding poll_order
  poll_order-Evolves o s b live = elim (Option-cases (quotes_for o.strategy.legs s.option_chain)) [
    | inl unquoted ↦ rw (live, unquoted) (no_fill-Evolves b o _ (ground arith))
    | inr (quotes, quoted) ↦ rw (live, quoted) (try_fill-Evolves o s quotes b)
  ]

  -- A terminal order is left as it is, and so is the broker.
  pub poll_order-terminal :
      (o : MultiLegOrder W) (s : MarketSnapshot W) (b : PaperBroker W)
      → is_terminal o ≡ true
      → poll_order o s b ≡ record { broker = b; order = o; fill = none }
  unfolding poll_order
  poll_order-terminal o s b done = rw done
