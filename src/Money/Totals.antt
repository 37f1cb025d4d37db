-- ===== src/Money/Totals.antt =====
-- `computeTotals` (src/lib/money.ts): the totals of a cart, as the server computes them.
pub mod Discounts
use valla_pos.Base.{
  ℕ, ◌+◌, ◌-◌, ◌*◌, Bool, false, Option, none, some, List, map, sum, sum_by, zip_with, min,
  if◌then◌else◌,
}
use valla_pos.Money.{tax_of, embedded_tax_of}
use valla_pos.Money.Discount.{Fractions, allocate_cart_discount}

pub record CartLineInput : Type 0 where
  pub unit_price_cents : ℕ
  pub modifier_delta_cents : Option ℕ
  pub quantity : ℕ
  pub line_discount_cents : Option ℕ

pub record OrderTotals : Type 0 where
  pub subtotal_cents : ℕ
  pub discount_cents : ℕ
  pub tax_cents : ℕ
  pub tip_cents : ℕ
  pub total_cents : ℕ

-- The `opts` of `computeTotals` and of `computePricedOrder`.
pub record TotalsOptions : Type 0 where
  pub tax_rate_bps : ℕ
  pub cart_discount_cents : Option ℕ
  pub tip_cents : Option ℕ
  pub tax_inclusive : Option Bool

-- `x ?? 0` and `x ?? false`
abbrev pub or_zero : Option ℕ → ℕ
or_zero none = 0
or_zero (some n) = n

abbrev pub or_false : Option Bool → Bool
or_false none = false
or_false (some b) = b

-- `(unitPriceCents + (modifierDeltaCents ?? 0)) * quantity`
abbrev pub gross_of : CartLineInput → ℕ
gross_of line = (line.unit_price_cents + or_zero line.modifier_delta_cents) * line.quantity

abbrev pub discount_of : CartLineInput → ℕ
discount_of line = min (or_zero line.line_discount_cents) (gross_of line)

abbrev pub base_of : CartLineInput → ℕ
base_of line = gross_of line - discount_of line

-- `inclusive ? embeddedTaxOf(net, rate) : taxOf(net, rate)`
abbrev pub line_tax : Bool → ℕ → ℕ → ℕ
line_tax inclusive rate net = if inclusive then embedded_tax_of net rate else tax_of net rate

-- Subtraction of naturals is `Math.max(a - b, 0)`.
unfoldable pub compute_totals : Fractions → List CartLineInput → TotalsOptions → OrderTotals
compute_totals fr lines opts =
    let inclusive = or_false opts.tax_inclusive in
    let subtotal = sum_by gross_of lines in
    let line_discount_total = sum_by discount_of lines in
    let bases = map base_of lines in
    let cart_discount = min (or_zero opts.cart_discount_cents) (subtotal - line_discount_total) in
    let allocation = allocate_cart_discount fr bases cart_discount in
    let tax =
      sum (zip_with (λ b a. line_tax inclusive opts.tax_rate_bps (b - a)) bases allocation) in
    let discount = line_discount_total + cart_discount in
    let tip = or_zero opts.tip_cents in
    record {
      subtotal_cents = subtotal;
      discount_cents = discount;
      tax_cents = tax;
      tip_cents = tip;
      total_cents = (subtotal - discount) + (if inclusive then 0 else tax) + tip;
    }
