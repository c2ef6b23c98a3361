-- ===== src/Execution/PaperBroker/Books.antt =====
-- The broker's books: each order is filled as often as its fills say, under every method.
use mathlib.Core.List.{append-nil}
use mathlib.Core.Path.{subst}
use iron_spyder.Prelude.{
  ℕ, ◌+◌, ◌≡◌, ◌≢◌, refl, sym, ap, inl, inr, Option, none, some, List, [], ◌∷◌, ◌++◌, arith, ◌==◌,
  ==_iff, if◌then◌else◌, Bool-cases, Option-cases,
}
use iron_spyder.Float.{Float}
use iron_spyder.Domain.Market.{MarketSnapshot}
use iron_spyder.Domain.Execution.{MultiLegOrder, Fill, is_terminal}
use iron_spyder.Execution.PaperBroker.{
  PaperBroker, store, Polled, Result, ok, err, lookup, insert, submit, poll, poll_order, cancel,
}
use iron_spyder.Execution.PaperBroker.Lifecycle.{
  IsBounded, fill_contracts, to_list, Concerns, poll_order-Evolves, poll_order-terminal,
}

module _ {V : Type 0} where
  pub lookup-insert_self : (k : ℕ) (v : V) (m : List (ℕ × V)) → lookup k (insert k v m) ≡ some v
  unfolding lookup insert
  lookup-insert_self k v [] = ground arith
  lookup-insert_self k v ((j, w) ∷ m) = ground (arith, lookup-insert_self k v m)

  pub lookup-insert_ne :
      (j k : ℕ) (v : V) (m : List (ℕ × V)) → j ≢ k → lookup j (insert k v m) ≡ lookup j m
  unfolding lookup insert
  lookup-insert_ne j k v [] h = ground arith
  lookup-insert_ne j k v ((i, w) ∷ m) h = ground (arith, lookup-insert_ne j k v m)

module _ {W : Type 0} where
  -- The contracts that the fills of an order add up to.
  abbrev pub filled_of : ℕ → List (Fill W) → ℕ
  filled_of id [] = 0
  filled_of id (x ∷ xs) = (if x.order_id == id then x.contracts else 0) + filled_of id xs

  filled_of-append :
      (id : ℕ) (xs ys : List (Fill W)) → filled_of id (xs ++ ys) ≡ filled_of id xs + filled_of id ys
  filled_of-append id [] ys = omega arith
  filled_of-append id (x ∷ xs) ys = omega (arith, filled_of-append id xs ys)

  filled_of-to_list :
      (id : ℕ) (x : Option (Fill W)) → Concerns id x → filled_of id (to_list x) ≡ fill_contracts x
  filled_of-to_list id none h = refl
  filled_of-to_list id (some x) h = ground arith

  filled_of-to_list_ne :
      (j id : ℕ) (x : Option (Fill W)) → j ≢ id → Concerns id x → filled_of j (to_list x) ≡ 0
  filled_of-to_list_ne j id none h c = refl
  filled_of-to_list_ne j id (some x) h c = ground arith

  -- What the books hold of one order, found or not.
  abbrev pub IsBooked : PaperBroker W → ℕ → Option (MultiLegOrder W) → Type 0
  IsBooked b id none = filled_of id b.fills ≡ 0
  IsBooked b id (some o) =
      (o.order_id ≡ id) × (filled_of id b.fills ≡ o.filled_contracts) × IsBounded b.config o

  abbrev pub IsValid : PaperBroker W → Type 0
  IsValid b = (id : ℕ) → IsBooked b id (lookup id b.orders)

  module _ (b b' : PaperBroker W) (o o' : MultiLegOrder W) (x : Option (Fill W))
      (config : b'.config ≡ b.config) (orders : b'.orders ≡ insert o.order_id o' b.orders)
      (fills : b'.fills ≡ b.fills ++ to_list x) (c : Concerns o.order_id x)
      (same_id : o'.order_id ≡ o.order_id)
      (filled : o'.filled_contracts ≡ o.filled_contracts + fill_contracts x)
      (bounded : IsBounded b.config o → IsBounded b.config o') where
    IsBooked-self : IsBooked b o.order_id (some o) → IsBooked b' o.order_id (some o')
    IsBooked-self (_, counted, bounds) = (
      same_id,
      omega (
        arith,
        ap (filled_of o.order_id) fills,
        filled_of-append o.order_id b.fills (to_list x),
        filled_of-to_list o.order_id x c,
        filled,
      ),
      rw config (bounded bounds),
    )

    IsBooked-other :
        (id : ℕ) (found : Option (MultiLegOrder W))
        → id ≢ o.order_id
        → IsBooked b id found
        → IsBooked b' id found
    IsBooked-other id none ne h = omega (
      arith,
      ap (filled_of id) fills,
      filled_of-append id b.fills (to_list x),
      filled_of-to_list_ne id o.order_id x ne c,
    )
    IsBooked-other id (some q) ne (same, counted, bounds) = (
      same,
      omega (
        arith,
        ap (filled_of id) fills,
        filled_of-append id b.fills (to_list x),
        filled_of-to_list_ne id o.order_id x ne c,
      ),
      rw config bounds,
    )

    -- A later order in place of one of the book, with what it has been filled since.
    replace-IsValid : IsValid b → IsBooked b o.order_id (some o) → IsValid b'
    replace-IsValid v old id = rw orders (elim (Bool-cases (id == o.order_id)) [
      | inl same ↦
          let e = (==_iff id o.order_id).0 same in
          rw (e, lookup-insert_self o.order_id o' b.orders) (IsBooked-self old)
      | inr other ↦
          let ne : id ≢ o.order_id = ground arith in
          rw (lookup-insert_ne id o.order_id o' b.orders ne) (IsBooked-other id _ ne (v id))
    ])

  -- A book with an order that no fill concerns yet, or with one that changed its status only.
  store-IsValid :
      (b : PaperBroker W) (o o' : MultiLegOrder W)
      → o'.order_id ≡ o.order_id
      → o'.filled_contracts ≡ o.filled_contracts
      → (IsBounded b.config o → IsBounded b.config o')
      → IsValid b
      → IsBooked b o.order_id (some o)
      → IsValid (store o' b)
  store-IsValid b o o' same filled bounded v old =
      replace-IsValid b (store o' b) o o' none refl (ap (λ k. insert k o' b.orders) same)
        (sym (append-nil b.fills)) tt same (omega arith) bounded v old

  -- What holds of the broker that a call returns, if it does not raise.
  abbrev After : {A : Type 0} → (A → PaperBroker W) → Result A → Type 0
  After get (ok r) = IsValid (get r)
  After get (err _) = Unit

module _ {W : Type 0} ⦃f : Float W⦄ where
  submit-After :
      (o : MultiLegOrder W) (b : PaperBroker W)
      → IsValid b
      → o.filled_contracts ≡ 0
      → o.reprice_attempts ≡ 0
      → After (λ r. r.0) (submit o b)
  unfolding submit
  submit-After o b v unfilled fresh = elim (Bool-cases b.connected) [
    | inr off ↦ rw off tt
    | inl on ↦ elim (Option-cases (lookup o.order_id b.orders)) [
      | inr (q, known) ↦ rw (on, known) tt
      | inl new ↦
          let none_filled : filled_of o.order_id b.fills ≡ 0 = rw new at (v o.order_id) in
          let bounds : IsBounded b.config o = ground arith in
          rw (on, new)
            (store-IsValid b o _ refl refl (λ h. ground arith) v (refl, omega arith, bounds))
    ]
  ]

  -- `submit` of a new order, with nothing filled and no concession made, keeps the books.
  pub submit-IsValid :
      (o : MultiLegOrder W) (b : PaperBroker W) {r : PaperBroker W × MultiLegOrder W}
      → IsValid b
      → o.filled_contracts ≡ 0
      → o.reprice_attempts ≡ 0
      → submit o b ≡ ok r
      → IsValid r.0
  submit-IsValid o b v unfilled fresh e =
      subst (After (λ r. r.0)) e (submit-After o b v unfilled fresh)

  poll_order-IsValid :
      (o : MultiLegOrder W) (s : MarketSnapshot W) (b : PaperBroker W)
      → IsValid b
      → IsBooked b o.order_id (some o)
      → IsValid (poll_order o s b).broker
  poll_order-IsValid o s b v old = elim (Bool-cases (is_terminal o)) [
    | inl done ↦ rw (poll_order-terminal o s b done) v
    | inr live ↦
        let h = poll_order-Evolves o s b live in
        let r = poll_order o s b in
        replace-IsValid b r.broker o r.order r.fill h.same_config h.stored h.booked h.concerns
          h.step.same_id h.step.filled h.step.bounded v old
  ]

  own_entry :
      (b : PaperBroker W) (id : ℕ) (o : MultiLegOrder W)
      → IsBooked b id (some o)
      → IsBooked b o.order_id (some o)
  own_entry b id o (same, counted, bounds) = (refl, rw same counted, bounds)

  poll-After :
      (id : ℕ) (s : MarketSnapshot W) (b : PaperBroker W)
      → IsValid b
      → After (λ r. r.broker) (poll id s b)
  unfolding poll
  poll-After id s b v = elim (Option-cases (lookup id b.orders)) [
    | inl unknown ↦ rw (unknown, After) tt
    | inr (o, known) ↦
        let old : IsBooked b id (some o) = rw known at (v id) in
        rw (known, After) (poll_order-IsValid o s b v (own_entry b id o old))
  ]

  -- `poll` keeps the books.
  pub poll-IsValid :
      (id : ℕ) (s : MarketSnapshot W) (b : PaperBroker W) {r : Polled W}
      → IsValid b
      → poll id s b ≡ ok r
      → IsValid r.broker
  poll-IsValid id s b v e = subst (After (λ r. r.broker)) e (poll-After id s b v)

  cancel-After : (id : ℕ) (b : PaperBroker W) → IsValid b → After (λ r. r.0) (cancel id b)
  unfolding cancel
  cancel-After id b v = elim (Option-cases (lookup id b.orders)) [
    | inl unknown ↦ rw (unknown, After) tt
    | inr (o, known) ↦
        let old : IsBooked b id (some o) = rw known at (v id) in
        elim (Bool-cases (is_terminal o)) [
          | inl done ↦ rw (known, After, done) v
          | inr live ↦
              rw (known, After, live)
                (store-IsValid b o _ refl refl (λ h. ground arith) v (own_entry b id o old))
        ]
  ]

  -- `cancel` keeps the books.
  pub cancel-IsValid :
      (id : ℕ) (b : PaperBroker W) {r : PaperBroker W × MultiLegOrder W}
      → IsValid b
      → cancel id b ≡ ok r
      → IsValid r.0
  cancel-IsValid id b v e = subst (After (λ r. r.0)) e (cancel-After id b v)
