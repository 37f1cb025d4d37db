-- ===== src/Register/Pricing.antt =====
-- Register pricing (src/features/register/pricing.ts): per-line tax, modifiers, and the validation
-- of a modifier selection.
pub mod Order
pub mod Selection
use Prim.Native.String.{String}
use text.Mathlib.Text.{◌==◌ as str_eq}
use valla_pos.Base.{
  ℕ, ◌+◌, ◌-◌, ◌*◌, Bool, false, not, Option, none, some, List, [], ◌∷◌, map, length, sum_by, any,
  every, min, ltb, if◌then◌else◌,
}
use valla_pos.Money.Discount.{Fractions, allocate_cart_discount}
use valla_pos.Money.Totals.{TotalsOptions, or_zero, or_false, line_tax}

pub record ResolvedModifier : Type 0 where
  pub id : String
  pub name_snapshot : String
  pub price_delta_cents : ℕ

pub record GroupConstraint : Type 0 where
  pub group_id : String
  pub min_select : ℕ
  pub max_select : ℕ
  pub modifier_ids : List String

pub record PricedLineInput : Type 0 where
  pub unit_price_cents : ℕ
  pub quantity : ℕ
  pub line_discount_cents : Option ℕ
  pub modifiers : Option (List ResolvedModifier)

pub record PricedLine : Type 0 where
  pub unit_price_cents : ℕ
  pub quantity : ℕ
  pub modifier_delta_cents : ℕ
  pub discount_cents : ℕ
  pub taxable_base_cents : ℕ
  pub tax_cents : ℕ
  pub total_cents : ℕ
  pub modifiers : List ResolvedModifier

pub record PricedOrder : Type 0 where
  pub lines : List PricedLine
  pub subtotal_cents : ℕ
  pub discount_cents : ℕ
  pub tax_cents : ℕ
  pub tip_cents : ℕ
  pub total_cents : ℕ

-- `modifierDeltaOf`
unfoldable pub modifier_delta_of : Option (List ResolvedModifier) → ℕ
modifier_delta_of none = 0
modifier_delta_of (some ms) = sum_by (λ (m : ResolvedModifier). m.price_delta_cents) ms

-- `line.modifiers ?? []`
abbrev pub or_empty {ℓ} : {A : Type ℓ} → Option (List A) → List A
or_empty none = []
or_empty (some xs) = xs

-- `priceLine`
unfoldable pub price_line : PricedLineInput → ℕ → Bool → PricedLine
price_line line tax_rate_bps tax_inclusive =
    let modifiers = or_empty line.modifiers in
    let delta = modifier_delta_of (some modifiers) in
    let gross = (line.unit_price_cents + delta) * line.quantity in
    let discount = min (or_zero line.line_discount_cents) gross in
    let base = gross - discount in
    record {
      unit_price_cents = line.unit_price_cents;
      quantity = line.quantity;
      modifier_delta_cents = delta;
      discount_cents = discount;
      taxable_base_cents = base;
      tax_cents = line_tax tax_inclusive tax_rate_bps base;
      total_cents = base;
      modifiers = modifiers;
    }

-- `priced.map((p, i) => { ...; taxCents += lineTax; return { ...p, taxCents: lineTax }; })`: the new
-- lines, and the counter that the callback adds to.
unfoldable pub retax : Bool → ℕ → List PricedLine → List ℕ → ℕ → List PricedLine × ℕ
retax inclusive rate [] allocation tax = ([], tax)
retax inclusive rate (p ∷ ps) [] tax = ([], tax)
retax inclusive rate (p ∷ ps) (a ∷ allocation) tax =
    let tax' = line_tax inclusive rate (p.taxable_base_cents - a) in
    let (rest, total) = retax inclusive rate ps allocation (tax + tax') in
    (record p { tax_cents = tax' } ∷ rest, total)

-- `computePricedOrder`. Subtraction of naturals is `Math.max(a - b, 0)`.
unfoldable pub compute_priced_order : Fractions → List PricedLineInput → TotalsOptions → PricedOrder
compute_priced_order fr lines opts =
    let inclusive = or_false opts.tax_inclusive in
    let priced = map (λ l. price_line l opts.tax_rate_bps inclusive) lines in
    let subtotal =
      sum_by (λ (p : PricedLine). (p.unit_price_cents + p.modifier_delta_cents) * p.quantity)
        priced in
    let line_discount_total = sum_by (λ (p : PricedLine). p.discount_cents) priced in
    let cart_discount = min (or_zero opts.cart_discount_cents) (subtotal - line_discount_total) in
    let bases = map (λ (p : PricedLine). p.taxable_base_cents) priced in
    let allocation = allocate_cart_discount fr bases cart_discount in
    let (lines2, tax) = retax inclusive opts.tax_rate_bps priced allocation 0 in
    let discount = line_discount_total + cart_discount in
    let tip = or_zero opts.tip_cents in
    record {
      lines = lines2;
      subtotal_cents = subtotal;
      discount_cents = discount;
      tax_cents = tax;
      tip_cents = tip;
      total_cents = (subtotal - discount) + (if inclusive then 0 else tax) + tip;
    }

-- The messages of `ModifierSelectionError`.
pub data SelectionError : Type 0 where
  foreign : String → SelectionError
  too_few : SelectionError
  too_many : SelectionError

-- `set.has(id)`
unfoldable pub has_id : List String → String → Bool
has_id ids id = any (λ j. str_eq j id) ids

-- The loop over the chosen ids: the first one that the group does not have.
unfoldable pub first_foreign : List String → List String → Option String
first_foreign allowed [] = none
first_foreign allowed (id ∷ ids) =
    if not (has_id allowed id) then some id else first_foreign allowed ids

-- `validateGroupSelection`: `none` where it returns, `some e` where it throws.
unfoldable pub validate_group_selection : GroupConstraint → List String → Option SelectionError
validate_group_selection constraint chosen = elim (first_foreign constraint.modifier_ids chosen) [
  | some id ↦ some (foreign id)
  | none ↦
      if ltb (length chosen) constraint.min_select
      then some too_few
      else if ltb constraint.max_select (length chosen)
      then some too_many
      else none
]
