-- ===== src/Execution/Reconciliation/Tests.antt =====
-- Reconciliation of two books that differ by a contract.
use iron_spyder.Prelude.{◌≡◌, ◌↔◌, All, true, List, [], ◌∷◌}
use iron_spyder.Float.Ticks.{Ticks, ticks, Ticks-IsOrdered}
use iron_spyder.Domain.Execution.{Position}
use iron_spyder.Samples.{position}
use iron_spyder.Execution.Reconciliation.{LegKey, reconcile, is_reconciled}
use iron_spyder.Execution.Reconciliation.Counting.{net}
use iron_spyder.Execution.Reconciliation.Equivalence.{
  IsAccurate, reconcile-is_reconciled_iff, reconcile-IsAccurate,
}

abbrev internal : List (Position Ticks)
internal = position 1 2 ∷ position 2 1 ∷ []

abbrev held : List (Position Ticks)
held = position 7 2 ∷ []

reconcile-is_reconciled_iff_example :
    (is_reconciled (reconcile internal held) ≡ true)
    ↔ ((k : LegKey Ticks) → net k internal ≡ net k held)
reconcile-is_reconciled_iff_example = reconcile-is_reconciled_iff Ticks-IsOrdered internal held

reconcile-IsAccurate_example :
    All (IsAccurate internal held) (reconcile internal held).discrepancies
reconcile-IsAccurate_example = reconcile-IsAccurate Ticks-IsOrdered internal held
