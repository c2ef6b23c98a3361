-- ===== src/Execution/Reconciliation.antt =====
-- spy_der/execution/reconciliation.py: the internal book against the broker's, leg by leg. A `Counter`
-- is its list of entries in order of insertion, each key once.
mod Tests
mod Counting
pub mod Equivalence
use iron_spyder.Prelude.{
  ℕ, ◌+◌, ◌≡◌, ◌↔◌, Bool, true, false, not, ◌&&◌, ◌||◌, List, [], ◌∷◌, ◌++◌, is_empty, ltb, ◌==◌,
  ==_iff, if◌then◌else◌, arith,
}
use iron_spyder.Prelude.Int.{ℤ, pos, ◌+ℤ◌, ◌*ℤ◌, eqb_ℤ}
use iron_spyder.Float.{Float, IsOrdered}
use iron_spyder.Domain.Enums.{OptionRight, right_eq}
use iron_spyder.Domain.Strategy.{OptionLeg}
use iron_spyder.Domain.Execution.{Position, BrokerState, is_open}

pub record LegKey (W : Type 0) : Type 0 where
  pub expiry : ℕ
  pub strike : W
  pub right : OptionRight

pub data Discrepancy (W : Type 0) : Type 0 where
  -- the key, with the internal quantity
  internal_only : LegKey W → ℤ → Discrepancy W
  -- the key, with the broker's quantity
  broker_only : LegKey W → ℤ → Discrepancy W
  quantity_mismatch : LegKey W → ℤ → ℤ → Discrepancy W

pub record ReconciliationReport (W : Type 0) : Type 0 where
  pub matched_legs : ℕ
  pub discrepancies : List (Discrepancy W)
  pub internal_only : List (Discrepancy W)
  pub broker_only : List (Discrepancy W)
  pub quantity_mismatches : List (Discrepancy W)

abbrev pub Counter : Type 0 → Type 0
Counter W = List (LegKey W × ℤ)

abbrev pub is_reconciled : {W : Type 0} → ReconciliationReport W → Bool
is_reconciled r = is_empty r.discrepancies

-- "call" comes before "put".
abbrev right_lt : OptionRight → OptionRight → Bool
right_lt OptionRight.call OptionRight.put = true
right_lt _ _ = false

module _ {W : Type 0} where
  abbrev pub leg_key : OptionLeg W → LegKey W
  leg_key leg = record { expiry = leg.expiry; strike = leg.strike; right = leg.right }

  -- `Counter({key: value for key, value in totals.items() if value != 0})`
  unfoldable pub drop_zero : Counter W → Counter W
  drop_zero [] = []
  drop_zero ((k, v) ∷ m) = if eqb_ℤ v (pos 0) then drop_zero m else (k, v) ∷ drop_zero m

module _ {W : Type 0} ⦃f : Float W⦄ where
  open f use {lt, eq}

  unfoldable pub key_eq : LegKey W → LegKey W → Bool
  key_eq a b = (a.expiry == b.expiry) && (eq a.strike b.strike && right_eq a.right b.right)

  -- `c[key]` of a `Counter`, and `c.get(key, 0)`.
  unfoldable pub count : LegKey W → Counter W → ℤ
  count k [] = pos 0
  count k ((j, v) ∷ m) = if key_eq j k then v else count k m

  -- `totals[key] += v`
  unfoldable pub add_to : LegKey W → ℤ → Counter W → Counter W
  add_to k v [] = (k, v) ∷ []
  add_to k v ((j, w) ∷ m) = if key_eq j k then (j, w +ℤ v) ∷ m else (j, w) ∷ add_to k v m

  unfoldable pub tally_legs : ℕ → List (OptionLeg W) → Counter W → Counter W
  tally_legs contracts [] totals = totals
  tally_legs contracts (leg ∷ legs) totals =
      tally_legs contracts legs (add_to (leg_key leg) (leg.quantity *ℤ pos contracts) totals)

  unfoldable pub tally : List (Position W) → Counter W → Counter W
  tally [] totals = totals
  tally (p ∷ ps) totals =
      tally ps (if is_open p then tally_legs p.contracts p.strategy.legs totals else totals)

  unfoldable pub leg_quantities : List (Position W) → Counter W
  unfolding tally drop_zero
  leg_quantities ps = drop_zero (tally ps [])

  -- `k[0], k[1], k[2].value` in lexicographic order.
  abbrev key_lt : LegKey W → LegKey W → Bool
  key_lt a b =
      ltb a.expiry b.expiry
      || (a.expiry == b.expiry)
        && (lt a.strike b.strike || eq a.strike b.strike && right_lt a.right b.right)

  -- `sorted(set(ours) | set(theirs), key=...)`, built by insertion.
  unfoldable pub insert_key : LegKey W → List (LegKey W) → List (LegKey W)
  insert_key k [] = k ∷ []
  insert_key k (j ∷ js) =
      if key_eq j k then j ∷ js else (if key_lt k j then k ∷ j ∷ js else j ∷ insert_key k js)

  unfoldable pub insert_keys : Counter W → List (LegKey W) → List (LegKey W)
  insert_keys [] js = js
  insert_keys ((k, _) ∷ m) js = insert_key k (insert_keys m js)

  abbrev empty_report : ReconciliationReport W
  empty_report = record {
    matched_legs = 0;
    discrepancies = [];
    internal_only = [];
    broker_only = [];
    quantity_mismatches = [];
  }

  -- The loop over the keys: the three lists, in order.
  unfoldable pub classify : Counter W → Counter W → List (LegKey W) → ReconciliationReport W
  classify ours theirs [] = empty_report
  classify ours theirs (k ∷ ks) =
      let rest = classify ours theirs ks in
      let mine = count k ours in
      let yours = count k theirs in
      if eqb_ℤ mine yours
      then rest
      else if eqb_ℤ yours (pos 0)
      then record rest { internal_only = Discrepancy.internal_only k mine ∷ rest.internal_only }
      else if eqb_ℤ mine (pos 0)
      then record rest { broker_only = Discrepancy.broker_only k yours ∷ rest.broker_only }
      else record rest {
        quantity_mismatches = Discrepancy.quantity_mismatch k mine yours ∷ rest.quantity_mismatches;
      }

  unfoldable pub matched : Counter W → Counter W → ℕ
  matched [] theirs = 0
  matched ((k, v) ∷ m) theirs = (if eqb_ℤ v (count k theirs) then 1 else 0) + matched m theirs

  unfoldable pub reconcile : List (Position W) → List (Position W) → ReconciliationReport W
  unfolding classify insert_keys matched leg_quantities
  reconcile internal broker =
      let ours = leg_quantities internal in
      let theirs = leg_quantities broker in
      let r = classify ours theirs (insert_keys ours (insert_keys theirs [])) in
      record r {
        matched_legs = matched ours theirs;
        discrepancies = r.internal_only ++ (r.broker_only ++ r.quantity_mismatches);
      }

  unfoldable pub apply_to_broker_state :
      BrokerState W (Discrepancy W) → ReconciliationReport W → BrokerState W (Discrepancy W)
  apply_to_broker_state s r = record s {
    reconciled = is_reconciled r;
    discrepancies = r.discrepancies;
  }
