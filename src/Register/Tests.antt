-- ===== src/Register/Tests.antt =====
-- Runs of the register's pricing, and its theorems at concrete inputs.
use Prim.Native.String.{String}
use valla_pos.Base.{◌≡◌, refl, none, some, List, [], ◌∷◌, map, length, sum_by}
use valla_pos.Money.Totals.{compute_totals}
use valla_pos.Money.Tests.{exact_fractions, options}
use valla_pos.Register.Pricing.{
  GroupConstraint, PricedLineInput, PricedLine, foreign, compute_priced_order,
  validate_group_selection, first_foreign, has_id,
}
use valla_pos.Base.Sort.{insert_by, sort_by}
use valla_pos.Register.Tender.{add_candidate, add_bills, quick_tender_options}
use valla_pos.Register.Pricing.Order.{
  as_cart_line, totals_of, compute_priced_order-eq-compute_totals, compute_priced_order-tax,
}

abbrev order_lines : List PricedLineInput
order_lines =
    record {
      unit_price_cents = 500;
      quantity = 2;
      line_discount_cents = none;
      modifiers =
          some (record { id = "oat"; name_snapshot = "Oat milk"; price_delta_cents = 75 } ∷ []);
    }
    ∷ record {
      unit_price_cents = 700;
      quantity = 1;
      line_discount_cents = some 80;
      modifiers = none;
    }
    ∷ []

compute_priced_order-eq-compute_totals_example :
    totals_of (compute_priced_order exact_fractions order_lines options)
    ≡ compute_totals exact_fractions (map as_cart_line order_lines) options
compute_priced_order-eq-compute_totals_example =
    compute_priced_order-eq-compute_totals exact_fractions order_lines options

compute_priced_order-tax_example :
    let o = compute_priced_order exact_fractions order_lines options in
    (o.tax_cents ≡ sum_by (λ (p : PricedLine). p.tax_cents) o.lines)
    × (length o.lines ≡ length order_lines)
compute_priced_order-tax_example = compute_priced_order-tax exact_fractions order_lines options

abbrev milks : GroupConstraint
milks = record {
  group_id = "milk";
  min_select = 1;
  max_select = 2;
  modifier_ids = "oat" ∷ "soy" ∷ [];
}

abbrev choice : List String
choice = "soy" ∷ []

refused : validate_group_selection milks ("oat" ∷ "syrup" ∷ []) ≡ some (foreign "syrup")
unfolding validate_group_selection first_foreign has_id
refused = refl

suggests : quick_tender_options 1234 4 ≡ 1234 ∷ 1300 ∷ 2000 ∷ 5000 ∷ []
unfolding quick_tender_options add_bills add_candidate sort_by insert_by
suggests = refl
