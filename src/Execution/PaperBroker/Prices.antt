-- ===== src/Execution/PaperBroker/Prices.antt =====
-- The prices that an order is filled at.
use mathlib.Core.Option.{some-injective}
use iron_spyder.Prelude.{
  ℕ, ◌≡◌, refl, true, false, some, List, ◌+◌, arith, Bool-cases, Option-cases, ltb, ◌≤◌, inl, inr,
}
use iron_spyder.Float.{Float}
use iron_spyder.Domain.Market.{MarketSnapshot, OptionQuote}
use iron_spyder.Domain.Execution.{MultiLegOrder, Fill, is_terminal, remaining_contracts}
use iron_spyder.Execution.Fills.{CostModel}
use iron_spyder.Execution.PaperBroker.Lifecycle.{fill_size-le}
use iron_spyder.Execution.PaperBroker.{
  PaperBroker, acceptable, achievable_price, fill_size, misses, record_fill, reprice_or_expire,
  try_fill, poll_order, quotes_for,
}

module _ {W : Type 0} ⦃f : Float W⦄ where
  open f use {nought, le}

  -- What a fill of an order keeps to: the order, its limit, and the contracts that it still wants.
  pub record IsProtected (o : MultiLegOrder W) (s : MarketSnapshot W) (x : Fill W) : Type 0 where
    pub own_order : x.order_id ≡ o.order_id
    pub own_instant : x.filled_at ≡ s.timestamp
    pub within_limit : le x.fill_price o.limit_price ≡ true
    pub some_filled : 1 ≤ x.contracts
    pub within_order : x.contracts ≤ remaining_contracts o

  acceptable-le :
      (costs : CostModel W) (o : MultiLegOrder W) (quotes : List (OptionQuote W))
      → acceptable costs o quotes ≡ true
      → le (achievable_price costs nought o.strategy.legs quotes) o.limit_price ≡ true
  unfolding acceptable
  acceptable-le costs o quotes h = elim (Bool-cases (le nought o.limit_price)) [
    | inl debit ↦ rw debit at h
    | inr credit ↦ rw credit at h
  ]

  record_fill-IsProtected :
      (o : MultiLegOrder W) (s : MarketSnapshot W) (price : W) (size : ℕ)
      (quotes : List (OptionQuote W)) (b : PaperBroker W) (x : Fill W)
      → le price o.limit_price ≡ true
      → 1 ≤ size
      → size ≤ remaining_contracts o
      → (record_fill o s.timestamp price size quotes b).fill ≡ some x
      → IsProtected o s x
  unfolding record_fill
  record_fill-IsProtected o s price size quotes b x within some_size fits h =
      rw (← some-injective _ _ h) (record {
        own_order = refl;
        own_instant = refl;
        within_limit = within;
        some_filled = some_size;
        within_order = fits;
      })

  conceding-fills_not :
      (o : MultiLegOrder W) (b : PaperBroker W) (x : Fill W)
      → ¬ ((reprice_or_expire o b).fill ≡ some x)
  unfolding reprice_or_expire
  conceding-fills_not o b x h = cc

  try_fill-IsProtected :
      (o : MultiLegOrder W) (s : MarketSnapshot W) (quotes : List (OptionQuote W))
      (b : PaperBroker W) (x : Fill W)
      → (try_fill o s quotes b).fill ≡ some x
      → IsProtected o s x
  unfolding try_fill
  try_fill-IsProtected o s quotes b x h =
      let drawn = record b { drawn = b.drawn + 1 } in
      let size = fill_size b.config o quotes in
      elim (Bool-cases (acceptable b.costs o quotes)) [
        | inr dear ↦ absurd (conceding-fills_not o b x (rw (dear, try_fill) at h))
        | inl fair ↦ elim (Bool-cases (misses o s quotes b)) [
          | inl missed ↦ absurd (conceding-fills_not o drawn x (rw (fair, missed, try_fill) at h))
          | inr lucky ↦ elim (Bool-cases (ltb size 1)) [
            | inl empty ↦
                absurd (conceding-fills_not o drawn x (rw (fair, lucky, empty, try_fill) at h))
            | inr deep ↦
                record_fill-IsProtected o s _ size quotes drawn x
                  (acceptable-le b.costs o quotes fair) (ground arith)
                  (fill_size-le b.config o quotes) (rw (fair, lucky, deep, try_fill) at h)
          ]
        ]
      ]

  -- Whenever a poll fills, the order was not terminal, the fill is of that order at the snapshot's instant,
  -- at a net price no worse than the limit that the order had, and for at least one contract and no more
  -- than the order still wanted.
  pub poll_order-IsProtected :
      (o : MultiLegOrder W) (s : MarketSnapshot W) (b : PaperBroker W) (x : Fill W)
      → (poll_order o s b).fill ≡ some x
      → (is_terminal o ≡ false) × IsProtected o s x
  unfolding poll_order
  poll_order-IsProtected o s b x h = elim (Bool-cases (is_terminal o)) [
    | inl done ↦ cc (rw (done, poll_order) at h)
    | inr live ↦ elim (Option-cases (quotes_for o.strategy.legs s.option_chain)) [
      | inl unquoted ↦ cc (rw (live, unquoted, poll_order) at h)
      | inr (quotes, quoted) ↦
          (live, try_fill-IsProtected o s quotes b x (rw (live, quoted, poll_order) at h))
    ]
  ]
