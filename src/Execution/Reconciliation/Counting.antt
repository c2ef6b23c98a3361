-- ===== src/Execution/Reconciliation/Counting.antt =====
-- What `leg_quantities` counts, against the sum over the open positions that it stands for.
use iron_spyder.Prelude.{
  ℕ, ◌≡◌, refl, ◌∙◌, ◌↔◌, inl, inr, Bool, true, false, List, [], ◌∷◌, arith, if◌then◌else◌,
  Bool-cases,
}
use iron_spyder.Prelude.Int.{ℤ, pos, ◌+ℤ◌, ◌*ℤ◌, eqb_ℤ_iff, int_laws, +ℤ_assoc}
use iron_spyder.Float.{Float, IsOrdered}
use iron_spyder.Domain.Enums.{OptionRight, right_eq}
use iron_spyder.Domain.Strategy.{OptionLeg}
use iron_spyder.Domain.Execution.{Position, is_open}
use iron_spyder.Execution.Reconciliation.{
  LegKey, Counter, leg_key, drop_zero, key_eq, count, add_to, tally_legs, tally, leg_quantities,
}

zero-add_ℤ : (v : ℤ) → pos 0 +ℤ v ≡ v
zero-add_ℤ v = omega int_laws

regroup_if :
    (b : Bool) (c v n : ℤ) → (if b then c +ℤ v else c) +ℤ n ≡ c +ℤ (if b then v +ℤ n else n)
regroup_if true c v n = omega int_laws
regroup_if false c v n = omega int_laws

module _ {W : Type 0} ⦃f : Float W⦄ where
  -- The signed quantity of one contract in the legs of a position of `contracts` units.
  abbrev pub net_legs : LegKey W → ℕ → List (OptionLeg W) → ℤ
  net_legs k contracts [] = pos 0
  net_legs k contracts (leg ∷ legs) =
      if key_eq (leg_key leg) k
      then leg.quantity *ℤ pos contracts +ℤ net_legs k contracts legs
      else net_legs k contracts legs

  -- The signed quantity of one contract over all open positions.
  abbrev pub net : LegKey W → List (Position W) → ℤ
  net k [] = pos 0
  net k (p ∷ ps) =
      if is_open p then net_legs k p.contracts p.strategy.legs +ℤ net k ps else net k ps

  -- No key stands twice.
  abbrev Fresh : LegKey W → Counter W → Type 0
  Fresh k [] = Unit
  Fresh k ((j, _) ∷ m) = (key_eq j k ≡ false) × Fresh k m

  abbrev IsDistinct : Counter W → Type 0
  IsDistinct [] = Unit
  IsDistinct ((k, _) ∷ m) = Fresh k m × IsDistinct m

  module _ (laws : IsOrdered f) where
    open laws use {eq_iff}

    right_eq_iff : (a b : OptionRight) → (right_eq a b ≡ true) ↔ (a ≡ b)
    right_eq_iff a b = ground arith

    pub key_eq_iff : (a b : LegKey W) → (key_eq a b ≡ true) ↔ (a ≡ b)
    unfolding key_eq
    key_eq_iff a b = ground (arith, eq_iff a.strike b.strike, right_eq_iff a.right b.right)

    count-add_to :
        (k j : LegKey W) (v : ℤ) (m : Counter W)
        → count k (add_to j v m) ≡ (if key_eq j k then count k m +ℤ v else count k m)
    unfolding count add_to
    count-add_to k j v [] = ground (arith, zero-add_ℤ v)
    count-add_to k j v ((i, w) ∷ m) =
        ground (arith, key_eq_iff i j, key_eq_iff j k, key_eq_iff i k, count-add_to k j v m)

    count-tally_legs :
        (k : LegKey W) (contracts : ℕ) (legs : List (OptionLeg W)) (m : Counter W)
        → count k (tally_legs contracts legs m) ≡ count k m +ℤ net_legs k contracts legs
    unfolding tally_legs
    count-tally_legs k contracts [] m = omega int_laws
    count-tally_legs k contracts (leg ∷ legs) m =
        let v = leg.quantity *ℤ pos contracts in
        rw
          (
            count-tally_legs k contracts legs (add_to (leg_key leg) v m),
            count-add_to k (leg_key leg) v m,
          )
          (regroup_if (key_eq (leg_key leg) k) (count k m) v (net_legs k contracts legs))

    count-tally :
        (k : LegKey W) (ps : List (Position W)) (m : Counter W)
        → count k (tally ps m) ≡ count k m +ℤ net k ps
    unfolding tally
    count-tally k [] m = omega int_laws
    count-tally k (p ∷ ps) m = elim (Bool-cases (is_open p)) [
      | inl live ↦
          rw
            (
              live,
              count-tally k ps (tally_legs p.contracts p.strategy.legs m),
              count-tally_legs k p.contracts p.strategy.legs m,
            )
            (+ℤ_assoc _ _ _)
      | inr done ↦ rw done (count-tally k ps m)
    ]

    Fresh-add_to :
        (k j : LegKey W) (v : ℤ) (m : Counter W)
        → key_eq j k ≡ false
        → Fresh k m
        → Fresh k (add_to j v m)
    unfolding add_to
    Fresh-add_to k j v [] h d = (h, tt)
    Fresh-add_to k j v ((i, w) ∷ m) h d = ground (arith, Fresh-add_to k j v m h d.1)

    IsDistinct-add_to :
        (j : LegKey W) (v : ℤ) (m : Counter W) → IsDistinct m → IsDistinct (add_to j v m)
    unfolding add_to
    IsDistinct-add_to j v [] d = (tt, tt)
    IsDistinct-add_to j v ((i, w) ∷ m) (fresh, d) =
        ground
          (arith, Fresh-add_to i j v m, key_eq_iff i j, key_eq_iff j i, IsDistinct-add_to j v m d)

    IsDistinct-tally_legs :
        (contracts : ℕ) (legs : List (OptionLeg W)) (m : Counter W)
        → IsDistinct m
        → IsDistinct (tally_legs contracts legs m)
    unfolding tally_legs
    IsDistinct-tally_legs contracts [] m d = d
    IsDistinct-tally_legs contracts (leg ∷ legs) m d =
        IsDistinct-tally_legs contracts legs _ (IsDistinct-add_to _ _ m d)

    IsDistinct-tally :
        (ps : List (Position W)) (m : Counter W) → IsDistinct m → IsDistinct (tally ps m)
    unfolding tally
    IsDistinct-tally [] m d = d
    IsDistinct-tally (p ∷ ps) m d = IsDistinct-tally ps _ (if_IsDistinct (is_open p))
      where
        if_IsDistinct :
            (b : Bool) → IsDistinct (if b then tally_legs p.contracts p.strategy.legs m else m)
        if_IsDistinct true = IsDistinct-tally_legs _ _ m d
        if_IsDistinct false = d

    count-Fresh : (k : LegKey W) (m : Counter W) → Fresh k m → count k m ≡ pos 0
    unfolding count
    count-Fresh k [] h = refl
    count-Fresh k ((j, v) ∷ m) (h, d) = rw h (count-Fresh k m d)

    Fresh-drop_zero : (k : LegKey W) (m : Counter W) → Fresh k m → Fresh k (drop_zero m)
    unfolding drop_zero
    Fresh-drop_zero k [] h = tt
    Fresh-drop_zero k ((j, v) ∷ m) (h, d) = ground (arith, Fresh-drop_zero k m d)

    count-drop_zero :
        (k : LegKey W) (m : Counter W) → IsDistinct m → count k (drop_zero m) ≡ count k m
    unfolding count drop_zero
    count-drop_zero k [] d = refl
    count-drop_zero k ((j, v) ∷ m) (fresh, d) =
        ground
          (arith, eqb_ℤ_iff v (pos 0), key_eq_iff j k, count-Fresh j m fresh, count-drop_zero k m d)

    -- The count of a contract is its signed quantity over the open positions, whichever contract it is
    -- and in whatever order the legs came.
    pub count-leg_quantities :
        (k : LegKey W) (ps : List (Position W)) → count k (leg_quantities ps) ≡ net k ps
    unfolding leg_quantities count
    count-leg_quantities k ps =
        count-drop_zero k (tally ps []) (IsDistinct-tally ps [] tt)
        ∙ count-tally k ps []
        ∙ zero-add_ℤ (net k ps)
