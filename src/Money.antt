-- ===== src/Money.antt =====
-- Money math in integer cents and basis points (src/lib/money.ts).
--
-- Every amount that reaches these functions is validated as a non-negative integer (the zod schemas
-- of src/features/catalog, register, tabs and settings), so amounts are naturals. A quotient of two
-- integers is a double in the program; `round_div` is the rounded exact quotient, and the two agree
-- while the dividend is below 2 ^ 53, where a double is exact (see the header of Lib).
pub mod Rounding
pub mod Discount
pub mod Totals
pub mod Tests
use valla_pos.Base.{ℕ, ◌+◌, ◌-◌, ◌*◌, ◌/◌}

-- `Math.round(n / d)`: the nearest integer, a tie goes up.
unfoldable pub round_div : ℕ → ℕ → ℕ
round_div n d = (2 * n + d) / (2 * d)

-- `taxOf`
unfoldable pub tax_of : ℕ → ℕ → ℕ
tax_of base_cents rate_bps = round_div (base_cents * rate_bps) 10_000

-- `embeddedTaxOf`
unfoldable pub embedded_tax_of : ℕ → ℕ → ℕ
embedded_tax_of base_cents rate_bps =
    let net = round_div (base_cents * 10_000) (10_000 + rate_bps) in base_cents - net
