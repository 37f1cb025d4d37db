-- ===== src/Register/Pricing/Order.antt =====
-- A priced order agrees with `computeTotals`, and its tax is the sum of its lines' taxes.
use valla_pos.Base.{
  ℕ, ◌+◌, ◌-◌, ◌*◌, ◌≡◌, refl, ◌∙◌, Bool, some, List, [], ◌∷◌, arith, map, length, sum, sum_by,
  zip_with, length-map,
}
use native.Mathlib.Nat.{zero-add}
use valla_pos.Money.Discount.{Fractions}
use valla_pos.Money.Discount.Fair.{length-allocate_cart_discount}
use valla_pos.Money.Totals.{
  CartLineInput, OrderTotals, TotalsOptions, or_false, line_tax, gross_of, discount_of, base_of,
  compute_totals,
}
use valla_pos.Register.Pricing.{
  PricedLineInput, PricedLine, PricedOrder, modifier_delta_of, or_empty, price_line, retax,
  compute_priced_order,
}

-- What `computeTotals` is given for the same line: the modifiers folded into one delta.
abbrev pub as_cart_line : PricedLineInput → CartLineInput
as_cart_line l = record {
  unit_price_cents = l.unit_price_cents;
  modifier_delta_cents = some (modifier_delta_of l.modifiers);
  quantity = l.quantity;
  line_discount_cents = l.line_discount_cents;
}

abbrev pub totals_of : PricedOrder → OrderTotals
totals_of o = record {
  subtotal_cents = o.subtotal_cents;
  discount_cents = o.discount_cents;
  tax_cents = o.tax_cents;
  tip_cents = o.tip_cents;
  total_cents = o.total_cents;
}

delta_lem :
    (l : PricedLineInput)
    → modifier_delta_of (some (or_empty l.modifiers)) ≡ modifier_delta_of l.modifiers
unfolding modifier_delta_of
delta_lem l = ground arith

abbrev base_cents : PricedLine → ℕ
base_cents p = p.taxable_base_cents

abbrev gross_cents : PricedLine → ℕ
gross_cents p = (p.unit_price_cents + p.modifier_delta_cents) * p.quantity

abbrev discount_cents : PricedLine → ℕ
discount_cents p = p.discount_cents

module _ (rate : ℕ) (inclusive : Bool) where
  abbrev price : PricedLineInput → PricedLine
  price l = price_line l rate inclusive

  map-base :
      (ls : List PricedLineInput)
      → map base_cents (map price ls) ≡ map base_of (map as_cart_line ls)
  unfolding price_line
  map-base [] = refl
  map-base (l ∷ ls) = rw (delta_lem l, map-base ls)

  sum-gross :
      (ls : List PricedLineInput)
      → sum_by gross_cents (map price ls) ≡ sum_by gross_of (map as_cart_line ls)
  unfolding price_line
  sum-gross [] = refl
  sum-gross (l ∷ ls) = rw (delta_lem l, sum-gross ls)

  sum-discount :
      (ls : List PricedLineInput)
      → sum_by discount_cents (map price ls) ≡ sum_by discount_of (map as_cart_line ls)
  unfolding price_line
  sum-discount [] = refl
  sum-discount (l ∷ ls) = rw (delta_lem l, sum-discount ls)

  -- The counter of the callback is a sum over the bases and the allocation.
  retax_lem :
      (ps : List PricedLine) (allocation : List ℕ) (tax : ℕ)
      → (retax inclusive rate ps allocation tax).1
        ≡ tax
          + sum (zip_with (λ b a. line_tax inclusive rate (b - a)) (map base_cents ps) allocation)
  unfolding retax
  retax_lem [] allocation tax = omega arith
  retax_lem (p ∷ ps) [] tax = omega arith
  retax_lem (p ∷ ps) (a ∷ as') tax =
      omega (arith, retax_lem ps as' (tax + line_tax inclusive rate (p.taxable_base_cents - a)))

  retax-sum :
      (ps : List PricedLine) (allocation : List ℕ) (tax : ℕ)
      → (retax inclusive rate ps allocation tax).1
        ≡ tax + sum_by (λ (p : PricedLine). p.tax_cents) (retax inclusive rate ps allocation tax).0
  unfolding retax
  retax-sum [] allocation tax = omega arith
  retax-sum (p ∷ ps) [] tax = omega arith
  retax-sum (p ∷ ps) (a ∷ as') tax =
      omega (arith, retax-sum ps as' (tax + line_tax inclusive rate (p.taxable_base_cents - a)))

  length-retax :
      (ps : List PricedLine) (allocation : List ℕ) (tax : ℕ)
      → length allocation ≡ length ps
      → length (retax inclusive rate ps allocation tax).0 ≡ length ps
  unfolding retax
  length-retax [] allocation tax h = refl
  length-retax (p ∷ ps) [] tax h = absurd (omega arith)
  length-retax (p ∷ ps) (a ∷ as') tax h = omega (
    arith,
    length-retax ps as' (tax + line_tax inclusive rate (p.taxable_base_cents - a)) (omega arith),
  )

-- The register's order pricing and `computeTotals` agree on every total of every order: subtotal,
-- discount, tax, tip and total, in both tax modes and with any cart discount.
pub compute_priced_order-eq-compute_totals :
    (fr : Fractions) (lines : List PricedLineInput) (opts : TotalsOptions)
    → totals_of (compute_priced_order fr lines opts)
      ≡ compute_totals fr (map as_cart_line lines) opts
unfolding compute_priced_order compute_totals
compute_priced_order-eq-compute_totals fr lines opts =
    let inclusive = or_false opts.tax_inclusive in
    rw (
      retax_lem opts.tax_rate_bps inclusive,
      zero-add,
      map-base opts.tax_rate_bps inclusive lines,
      sum-gross opts.tax_rate_bps inclusive lines,
      sum-discount opts.tax_rate_bps inclusive lines,
    )

-- The tax of a priced order is exactly the sum of the taxes of its lines, and it has a line for every
-- line of the input.
pub compute_priced_order-tax :
    (fr : Fractions) (lines : List PricedLineInput) (opts : TotalsOptions)
    → let o = compute_priced_order fr lines opts in
      (o.tax_cents ≡ sum_by (λ (p : PricedLine). p.tax_cents) o.lines)
      × (length o.lines ≡ length lines)
unfolding compute_priced_order
compute_priced_order-tax fr lines opts =
    let rate = opts.tax_rate_bps in
    let inclusive = or_false opts.tax_inclusive in
    let priced = map (price rate inclusive) lines in
    (
      retax-sum rate inclusive priced _ 0 ∙ zero-add _,
      length-retax rate inclusive priced _ 0
            (length-allocate_cart_discount fr _ _ ∙ length-map base_cents priced)
          ∙ length-map (price rate inclusive) lines,
    )
