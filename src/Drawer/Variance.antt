-- ===== src/Drawer/Variance.antt =====
-- What a reconciliation says of the drawer.
use valla_pos.Base.{◌≡◌, ◌↔◌}
use valla_pos.Base.Int.{ℤ, pos, ◌+ℤ◌, ◌≤ℤ◌, int_laws}
use valla_pos.Drawer.{over, short, exact, expected_cash, compute_variance, variance_kind, reconcile}

-- A drawer that is counted at its close is called over exactly when it holds more than the opening
-- float and the cash collected, short when it holds less, and exact when it holds just that; and the
-- variance is what must be added to the expected cash to get the count.
pub reconcile_lem :
    (opening collected counted : ℤ)
    → let r = reconcile opening collected counted in
      let expected = opening +ℤ collected in
      (expected +ℤ r.variance_cents ≡ counted)
      × ((r.kind ≡ over) ↔ (expected +ℤ pos 1 ≤ℤ counted))
      × ((r.kind ≡ short) ↔ (counted +ℤ pos 1 ≤ℤ expected))
      × ((r.kind ≡ exact) ↔ (counted ≡ expected))
unfolding reconcile expected_cash compute_variance variance_kind
reconcile_lem opening collected counted =
    (omega int_laws, grind int_laws, grind int_laws, grind int_laws)
