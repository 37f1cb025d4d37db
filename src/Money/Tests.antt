-- ===== src/Money/Tests.antt =====
-- Runs of the money module, and its theorems at concrete inputs.
use valla_pos.Base.{
  ℕ, ◌+◌, ◌*◌, ◌%◌, ◌≤◌, ◌<◌, ◌≡◌, refl, none, some, List, [], ◌∷◌, arith, sum, get_or, zip_with,
}
use valla_pos.Money.{round_div, tax_of, embedded_tax_of}
use valla_pos.Money.Rounding.{tax_of_nearest, embedded_tax_of-add-tax_of}
use valla_pos.Money.Discount.{Fractions, allocate_cart_discount}
use valla_pos.Money.Discount.Fair.{sum-allocate_cart_discount, allocate_cart_discount_fair}
use valla_pos.Money.Totals.{CartLineInput, TotalsOptions, compute_totals}
use valla_pos.Money.Totals.Discounts.{
  compute_totals_conserves, cart_discount_as_line_discounts, discounted,
}

-- Exact fractions, in units of 1/d, meet what is assumed of the doubles.
abbrev pub exact_fractions : Fractions
exact_fractions = record {
  frac = λ n d. n % d;
  frac_pos = λ n d small pos rest. rest;
  frac_zero = λ n d small pos none_left. none_left;
}

abbrev pub bases : List ℕ
bases = 1000 ∷ 0 ∷ 333 ∷ 667 ∷ []

allocates : allocate_cart_discount exact_fractions bases 101 ≡ 50 ∷ 0 ∷ 17 ∷ 34 ∷ []
unfolding allocate_cart_discount
allocates = refl

sales_tax : (tax_of 1999 825 ≡ 165) × (embedded_tax_of 2164 825 ≡ 165)
unfolding tax_of embedded_tax_of round_div
sales_tax = (refl, refl)

abbrev pub lines : List CartLineInput
lines =
    record {
      unit_price_cents = 500;
      modifier_delta_cents = none;
      quantity = 2;
      line_discount_cents = none;
    }
    ∷ record {
      unit_price_cents = 700;
      modifier_delta_cents = some 50;
      quantity = 1;
      line_discount_cents = some 80;
    }
    ∷ []

abbrev pub options : TotalsOptions
options = record {
  tax_rate_bps = 825;
  cart_discount_cents = some 167;
  tip_cents = some 200;
  tax_inclusive = none;
}

totals : compute_totals exact_fractions lines options ≡ record {
  subtotal_cents = 1750;
  discount_cents = 247;
  tax_cents = 124;
  tip_cents = 200;
  total_cents = 1827;
}
unfolding compute_totals allocate_cart_discount tax_of embedded_tax_of round_div
totals = refl

embedded_tax_of-add-tax_of_example : embedded_tax_of (1999 + tax_of 1999 825) 825 ≡ tax_of 1999 825
embedded_tax_of-add-tax_of_example = embedded_tax_of-add-tax_of 1999 825

tax_of_nearest_example :
    (tax_of 1999 825 * 10_000 ≤ 1999 * 825 + 5000) × (1999 * 825 < tax_of 1999 825 * 10_000 + 5000)
tax_of_nearest_example = tax_of_nearest 1999 825

sum-allocate_cart_discount_example : sum (allocate_cart_discount exact_fractions bases 101) ≡ 101
sum-allocate_cart_discount_example =
    sum-allocate_cart_discount exact_fractions bases 101 (omega arith)

allocate_cart_discount_fair_example :
    let got = get_or (allocate_cart_discount exact_fractions bases 101) 2 0 in
    (got ≤ 333) × (got * 2000 < 101 * 333 + 2000) × (101 * 333 < got * 2000 + 2000)
allocate_cart_discount_fair_example =
    allocate_cart_discount_fair exact_fractions bases 101 2 (omega arith) (omega arith)

compute_totals_conserves_example :
    let t = compute_totals exact_fractions lines options in
    (t.discount_cents ≤ t.subtotal_cents)
    × (t.total_cents + t.discount_cents ≡ t.subtotal_cents + t.tax_cents + 200)
compute_totals_conserves_example = compute_totals_conserves exact_fractions lines options

cart_discount_as_line_discounts_example :
    compute_totals exact_fractions
      (zip_with discounted lines (allocate_cart_discount exact_fractions (1000 ∷ 670 ∷ []) 167))
      (record options { cart_discount_cents = some 0 })
    ≡ compute_totals exact_fractions lines options
cart_discount_as_line_discounts_example =
    cart_discount_as_line_discounts exact_fractions lines options (omega arith)
