-- ===== src/Pipeline/Unraised.antt =====
-- With a connected broker and new identifiers nothing is raised when a position is closed or opened.
use iron_spyder.Prelude.{
  ℕ, suc, ◌≡◌, ap, ◌∙◌, inl, inr, Bool, true, false, none, some, List, arith, Bool-cases,
}
use iron_spyder.Float.{Float}
use iron_spyder.Domain.Execution.{MultiLegOrder, is_terminal}
use iron_spyder.Execution.PaperBroker.{PaperBroker, ok, insert, cancel}
use iron_spyder.Pipeline.{Entry, DecisionPipeline, persist_entry, next_id}
use iron_spyder.Prelude.{◌≤◌}
use iron_spyder.Domain.Enums.{OrderStatus}
use iron_spyder.Execution.PaperBroker.{store, lookup}
use iron_spyder.Execution.PaperBroker.Books.{lookup-insert_self, lookup-insert_ne}
use iron_spyder.Pipeline.InStep.{IsInjective}
-- Nothing is raised, and the state and the value that are left meet a condition.
use iron_spyder.Pipeline.Waiting.{
  IsDone, if_true-IsDone, chosen-IsDone, looked_up, picked, passed, Polls,
}

module _ {W : Type 0} ⦃f : Float W⦄ where
  -- An order of the book can be cancelled.
  pub cancel-ok :
      (id : ℕ) (a b : PaperBroker W)
      → Polls id a b
      → (b' : PaperBroker W) × (o : MultiLegOrder W) × (cancel id b ≡ ok (b', o)) × Polls id a b'
  unfolding cancel
  cancel-ok id a b h =
      let (w, known, own) = h.known in
      let o : MultiLegOrder W = record w { status = OrderStatus.cancelled } in
      elim (Bool-cases (is_terminal w)) [
        | inl over ↦ (b, w, found_over w known over, h)
        | inr going ↦ (store o b, o, found_going w known going, moved w own)
      ]
    where
      found_over :
          (w : MultiLegOrder W)
          → lookup id b.orders ≡ some w
          → is_terminal w ≡ true
          → cancel id b ≡ ok (b, w)
      found_over w known over = looked_up _ w _ _ known ∙ picked (is_terminal w) _ _ over

      found_going :
          (w : MultiLegOrder W)
          → lookup id b.orders ≡ some w
          → is_terminal w ≡ false
          → cancel id b ≡ (
              let o : MultiLegOrder W = record w { status = OrderStatus.cancelled } in
              ok (store o b, o))
      found_going w known going = looked_up _ w _ _ known ∙ passed (is_terminal w) _ _ going

      moved :
          (w : MultiLegOrder W)
          → w.order_id ≡ id
          → Polls id a (store (record w { status = OrderStatus.cancelled }) b)
      moved w own =
          let o : MultiLegOrder W = record w { status = OrderStatus.cancelled } in
          record {
            connected = h.connected;
            known = (
              o,
              ap (λ j. lookup id (insert j o b.orders)) own ∙ lookup-insert_self id o b.orders,
              own,
            );
            others = λ j other.
                lookup-insert_ne j w.order_id o b.orders (λ e. other (e ∙ own)) ∙ h.others j other;
          }

-- The broker is connected and knows none of the identifiers that are still to be issued, and the audit
-- store takes what it is given.
pub record IsFresh {W : Type 0} (ids : ℕ → ℕ) (n : ℕ) (up persist : Bool) (takes : ℕ → Bool)
    (orders : List (ℕ × MultiLegOrder W)) : Type 0 where
  pub connected : up ≡ true
  pub fresh : (k : ℕ) → n ≤ k → lookup (ids k) orders ≡ none
  pub injective : IsInjective ids
  pub recorded : persist ≡ true → (k : ℕ) → takes k ≡ true

module _ {M W : Type 0} ⦃f : Float W⦄ where
  abbrev pub IsReady : DecisionPipeline M W → Type 0
  IsReady p = IsFresh p.uuids p.issued p.broker.connected p.persist p.takes p.broker.orders

  pub IsReady-after :
      (p : DecisionPipeline M W) (b : PaperBroker W)
      → IsReady p
      → Polls (next_id p) p.broker b
      → IsReady (record p { issued = suc p.issued; broker = b })
  IsReady-after p b v h = record {
    connected = h.connected;
    fresh = λ k later.
        h.others (p.uuids k)
          (λ e. (let same = v.injective k p.issued e in omega (arith, same, later)))
        ∙ v.fresh k (omega (arith, later));
    injective = v.injective;
    recorded = v.recorded;
  }

  -- A pipeline that may go on, whatever the value.
  abbrev pub Ready : {A : Type 0} → DecisionPipeline M W → A → Type 0
  Ready p a = IsReady p

  pub persist-IsDone :
      {A : Type 0} (e : Entry W) (a : A) (p : DecisionPipeline M W)
      → IsReady p
      → IsDone Ready (persist_entry e a p)
  unfolding persist_entry
  persist-IsDone e a p v =
      if_true-IsDone Ready p.persist _ _
        (λ on. chosen-IsDone Ready (p.takes p.writes) _ _ (v.recorded on p.writes) v) v
