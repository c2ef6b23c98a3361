-- ===== src/Execution/Reconciliation/Equivalence.antt =====
-- `reconcile` reports no discrepancy exactly when the two books hold the same contracts.
use iron_spyder.Prelude.{
  ◌≡◌, ◌≢◌, refl, sym, All, All-append, ◌∙◌, ◌↔◌, ◌⊎◌, inl, inr, true, List, [], ◌∷◌, ◌++◌, arith,
  is_empty, append-nil_left, append-nil_right,
}
use iron_spyder.Prelude.Int.{pos, eqb_ℤ_iff}
use iron_spyder.Float.{Float, IsOrdered}
use iron_spyder.Domain.Execution.{Position}
use iron_spyder.Execution.Reconciliation.{
  LegKey, Counter, Discrepancy, ReconciliationReport, is_reconciled, count, insert_key, insert_keys,
  classify, reconcile, leg_quantities,
}
use iron_spyder.Execution.Reconciliation.Counting.{key_eq_iff, net, count-leg_quantities}

is_empty-eq : {A : Type 0} (xs : List A) → is_empty xs ≡ true → xs ≡ []
is_empty-eq [] h = refl
is_empty-eq (x ∷ xs) h = cc

module _ {W : Type 0} ⦃f : Float W⦄ where
  abbrev Holds : LegKey W → List (LegKey W) → Type 0
  Holds k [] = ⊥
  Holds k (j ∷ js) = (k ≡ j) ⊎ Holds k js

  -- The three lists of a report are empty.
  abbrev IsQuiet : ReconciliationReport W → Type 0
  IsQuiet r = (r.internal_only ≡ []) × (r.broker_only ≡ []) × (r.quantity_mismatches ≡ [])

  classify-IsQuiet :
      (ours theirs : Counter W) (ks : List (LegKey W))
      → ((k : LegKey W) → count k ours ≡ count k theirs)
      → IsQuiet (classify ours theirs ks)
  unfolding classify
  classify-IsQuiet ours theirs [] h = (refl, refl, refl)
  classify-IsQuiet ours theirs (k ∷ ks) h =
      rw ((eqb_ℤ_iff (count k ours) (count k theirs)).1 (h k)) (classify-IsQuiet ours theirs ks h)

  count-eq_of_quiet :
      (ours theirs : Counter W) (ks : List (LegKey W))
      → IsQuiet (classify ours theirs ks)
      → (k : LegKey W) → Holds k ks
      → count k ours ≡ count k theirs
  unfolding classify
  count-eq_of_quiet ours theirs [] q k h = absurd h
  count-eq_of_quiet ours theirs (j ∷ ks) q k (inl e) =
      rw e (ground (arith, eqb_ℤ_iff (count j ours) (count j theirs)))
  count-eq_of_quiet ours theirs (j ∷ ks) q k (inr m) =
      count-eq_of_quiet ours theirs ks (ground (arith, eqb_ℤ_iff (count j ours) (count j theirs))) k
        m

  -- What a discrepancy states of the two books.
  abbrev pub IsAccurate : List (Position W) → List (Position W) → Discrepancy W → Type 0
  IsAccurate i b (Discrepancy.internal_only k q) = (net k i ≡ q) × (net k b ≡ pos 0) × (q ≢ pos 0)
  IsAccurate i b (Discrepancy.broker_only k q) = (net k b ≡ q) × (net k i ≡ pos 0) × (q ≢ pos 0)
  IsAccurate i b (Discrepancy.quantity_mismatch k q r) =
      (net k i ≡ q) × (net k b ≡ r) × (q ≢ r) × (q ≢ pos 0) × (r ≢ pos 0)

  abbrev AllAccurate : List (Position W) → List (Position W) → ReconciliationReport W → Type 0
  AllAccurate i b r =
      All (IsAccurate i b) r.internal_only
      × All (IsAccurate i b) r.broker_only
      × All (IsAccurate i b) r.quantity_mismatches

  join_AllAccurate :
      (i b : List (Position W)) (r : ReconciliationReport W)
      → AllAccurate i b r
      → All (IsAccurate i b) (r.internal_only ++ (r.broker_only ++ r.quantity_mismatches))
  join_AllAccurate i b r (mine, yours, both) =
      let P = IsAccurate i b in
      All-append P r.internal_only (r.broker_only ++ r.quantity_mismatches) mine
        (All-append P r.broker_only r.quantity_mismatches yours both)

  IsQuiet-of_empty :
      (r : ReconciliationReport W)
      → r.internal_only ++ (r.broker_only ++ r.quantity_mismatches) ≡ []
      → IsQuiet r
  IsQuiet-of_empty r h =
      let rest = append-nil_right r.internal_only _ h in
      (append-nil_left _ _ h, append-nil_left _ _ rest, append-nil_right r.broker_only _ rest)

  empty_of_quiet :
      (r : ReconciliationReport W)
      → IsQuiet r
      → is_empty (r.internal_only ++ (r.broker_only ++ r.quantity_mismatches)) ≡ true
  empty_of_quiet r (mine, yours, both) = rw (mine, yours, both) refl

  module _ (laws : IsOrdered f) where
    Holds-insert_key_self : (k : LegKey W) (js : List (LegKey W)) → Holds k (insert_key k js)
    unfolding insert_key
    Holds-insert_key_self k [] = inl refl
    Holds-insert_key_self k (j ∷ js) =
        ground (arith, key_eq_iff laws j k, Holds-insert_key_self k js)

    Holds-insert_key :
        (k j : LegKey W) (js : List (LegKey W)) → Holds k js → Holds k (insert_key j js)
    unfolding insert_key
    Holds-insert_key k j [] h = absurd h
    Holds-insert_key k j (i ∷ js) h = ground (arith, Holds-insert_key k j js)

    Holds-insert_keys :
        (k : LegKey W) (m : Counter W) (js : List (LegKey W))
        → Holds k js
        → Holds k (insert_keys m js)
    unfolding insert_keys
    Holds-insert_keys k [] js h = h
    Holds-insert_keys k ((j, v) ∷ m) js h = Holds-insert_key k j _ (Holds-insert_keys k m js h)

    count_or_listed :
        (k : LegKey W) (m : Counter W) (js : List (LegKey W))
        → (count k m ≡ pos 0) ⊎ Holds k (insert_keys m js)
    unfolding count insert_keys
    count_or_listed k [] js = inl refl
    count_or_listed k ((j, v) ∷ m) js = ground (
      arith,
      key_eq_iff laws j k,
      Holds-insert_key_self j (insert_keys m js),
      count_or_listed k m js,
      Holds-insert_key k j (insert_keys m js),
    )

    count-eq_everywhere :
        (ours theirs : Counter W)
        → IsQuiet (classify ours theirs (insert_keys ours (insert_keys theirs [])))
        → (k : LegKey W) → count k ours ≡ count k theirs
    count-eq_everywhere ours theirs q k = ground (
      arith,
      count_or_listed k ours (insert_keys theirs []),
      count_or_listed k theirs [],
      Holds-insert_keys k ours (insert_keys theirs []),
      count-eq_of_quiet ours theirs (insert_keys ours (insert_keys theirs [])) q k,
    )

    -- With no NaN among the strikes, the books reconcile exactly when every contract, an expiry, a
    -- strike and a right, has the same signed quantity in the open positions of both.
    pub reconcile-is_reconciled_iff :
        (internal broker : List (Position W))
        → (is_reconciled (reconcile internal broker) ≡ true)
          ↔ ((k : LegKey W) → net k internal ≡ net k broker)
    unfolding reconcile
    reconcile-is_reconciled_iff internal broker =
        let ours = leg_quantities internal in
        let theirs = leg_quantities broker in
        let report = classify ours theirs (insert_keys ours (insert_keys theirs [])) in
        (
          λ h k.
              sym (count-leg_quantities laws k internal)
              ∙ count-eq_everywhere ours theirs (IsQuiet-of_empty report (is_empty-eq _ h)) k
              ∙ count-leg_quantities laws k broker,
          λ h. empty_of_quiet report (
              classify-IsQuiet ours theirs _ (λ k.
                count-leg_quantities laws k internal
                ∙ h k
                ∙ sym (count-leg_quantities laws k broker))),
        )

    classify-AllAccurate :
        (i b : List (Position W)) (ks : List (LegKey W))
        → AllAccurate i b (classify (leg_quantities i) (leg_quantities b) ks)
    unfolding classify
    classify-AllAccurate i b [] = (tt, tt, tt)
    classify-AllAccurate i b (k ∷ ks) = ground (
      arith,
      classify-AllAccurate i b ks,
      count-leg_quantities laws k i,
      count-leg_quantities laws k b,
      eqb_ℤ_iff (count k (leg_quantities i)) (count k (leg_quantities b)),
      eqb_ℤ_iff (count k (leg_quantities i)) (pos 0),
      eqb_ℤ_iff (count k (leg_quantities b)) (pos 0),
    )

    -- Every discrepancy of a report names a contract that the two books hold in different quantities,
    -- and the quantities that it states are those of the open positions; it is of the one-sided kind
    -- only where the other book holds none.
    pub reconcile-IsAccurate :
        (internal broker : List (Position W))
        → All (IsAccurate internal broker) (reconcile internal broker).discrepancies
    unfolding reconcile
    reconcile-IsAccurate internal broker =
        let ours = leg_quantities internal in
        let theirs = leg_quantities broker in
        let keys = insert_keys ours (insert_keys theirs []) in
        join_AllAccurate internal broker (classify ours theirs keys)
          (classify-AllAccurate internal broker keys)
