-- ===== src/Drawer.antt =====
-- Reconciliation of a cash drawer (src/features/cash-drawer/reconcile.ts). The cash collected since
-- the drawer was opened may be negative, since refunds count; all amounts are integers, so finite.
pub mod Variance
pub mod Sessions
use valla_pos.Base.{Bool, true, false, if◌then◌else◌}
use valla_pos.Base.Int.{ℤ, pos, ◌+ℤ◌, ◌-ℤ◌, ltb_ℤ}

-- `expectedCash`
unfoldable pub expected_cash : ℤ → ℤ → ℤ
expected_cash opening_float_cents cash_collected_cents = opening_float_cents +ℤ cash_collected_cents

-- `computeVariance`
unfoldable pub compute_variance : ℤ → ℤ → ℤ
compute_variance counted_cents expected_cents = counted_cents -ℤ expected_cents

pub data VarianceKind : Type 0 where
  over short exact : VarianceKind

-- `varianceKind`
unfoldable pub variance_kind : ℤ → VarianceKind
variance_kind v = if ltb_ℤ (pos 0) v then over else if ltb_ℤ v (pos 0) then short else exact

pub record Reconciliation : Type 0 where
  pub expected_cents : ℤ
  pub counted_cents : ℤ
  pub variance_cents : ℤ
  pub kind : VarianceKind

-- `reconcile`
unfoldable pub reconcile : ℤ → ℤ → ℤ → Reconciliation
reconcile opening_float_cents cash_collected_cents counted_cents =
    let expected = expected_cash opening_float_cents cash_collected_cents in
    let variance = compute_variance counted_cents expected in
    record {
      expected_cents = expected;
      counted_cents = counted_cents;
      variance_cents = variance;
      kind = variance_kind variance;
    }
