-- ===== src/Money/Totals/Discounts.antt =====
-- How discounts enter the totals: nothing is lost, and a cart discount acts as line discounts.
use native.Mathlib.Nat.{add-zero}
use valla_pos.Base.{
  ℕ, suc, ◌+◌, ◌-◌, ◌≤◌, ◌≡◌, ◌∙◌, refl, Bool, true, false, none, some, List, [], ◌∷◌, arith, map,
  length, sum, sum_by, zip_with, length-map, min, get_or, replicate, if◌then◌else◌,
}
use valla_pos.Money.Rounding.{tax_of_mono, embedded_tax_of_mono}
use valla_pos.Money.Discount.{Fractions, allocate_cart_discount}
use valla_pos.Money.Discount.Shares.{IsExact}
use valla_pos.Money.Discount.Fair.{
  length-allocate_cart_discount, sum-allocate_cart_discount, allocate_cart_discount_capped,
  allocate_cart_discount-zero,
}
use valla_pos.Money.Totals.{
  CartLineInput, TotalsOptions, or_zero, or_false, line_tax, gross_of, discount_of, base_of,
  compute_totals,
}

-- Gross is discount plus base, for each line and so for the order.
sum_by-gross :
    (ls : List CartLineInput) → sum_by gross_of ls ≡ sum_by discount_of ls + sum (map base_of ls)
sum_by-gross [] = refl
sum_by-gross (l ∷ ls) = omega (arith, sum_by-gross ls)

-- Nothing of the price is lost: the subtotal is the discount plus what is charged for the goods, the
-- discount never exceeds the subtotal, and the total is the goods plus the tip, plus the tax where
-- prices are exclusive of tax.
pub compute_totals_conserves :
    (fr : Fractions) (lines : List CartLineInput) (opts : TotalsOptions)
    → let t = compute_totals fr lines opts in
      let on_top = if or_false opts.tax_inclusive then 0 else t.tax_cents in
      (t.discount_cents ≤ t.subtotal_cents)
      × (t.total_cents + t.discount_cents ≡ t.subtotal_cents + on_top + or_zero opts.tip_cents)
unfolding compute_totals
compute_totals_conserves fr lines opts = omega (arith, sum_by-gross lines)

line_tax_mono :
    (inclusive : Bool) (rate a b : ℕ)
    → a ≤ b
    → line_tax inclusive rate a ≤ line_tax inclusive rate b
line_tax_mono true rate a b h = embedded_tax_of_mono a b rate h
line_tax_mono false rate a b h = tax_of_mono a b rate h

-- The line with its discount raised to take its share of a cart discount.
abbrev pub discounted : CartLineInput → ℕ → CartLineInput
discounted l a = record l { line_discount_cents = some (discount_of l + a) }

abbrev Caps : List ℕ → List CartLineInput → Type 0
Caps alloc lines = (j : ℕ) → get_or alloc j 0 ≤ get_or (map base_of lines) j 0

module _ (inclusive : Bool) (rate : ℕ) where
  abbrev net_tax : ℕ → ℕ → ℕ
  net_tax b a = line_tax inclusive rate (b - a)

  -- Discounted lines: the bases fall by the allocation, the gross stays, the discounts rise by it.
  discounted-gross :
      (lines : List CartLineInput) (alloc : List ℕ)
      → length alloc ≡ length lines
      → sum_by gross_of (zip_with discounted lines alloc) ≡ sum_by gross_of lines
  discounted-gross [] alloc n = refl
  discounted-gross (l ∷ ls) [] n = absurd (omega arith)
  discounted-gross (l ∷ ls) (a ∷ as') n = omega (arith, discounted-gross ls as' (omega arith))

  discounted-discount :
      (lines : List CartLineInput) (alloc : List ℕ)
      → length alloc ≡ length lines
      → Caps alloc lines
      → sum_by discount_of (zip_with discounted lines alloc) ≡ sum_by discount_of lines + sum alloc
  discounted-discount [] [] n c = refl
  discounted-discount [] (a ∷ as') n c = absurd (omega arith)
  discounted-discount (l ∷ ls) [] n c = absurd (omega arith)
  discounted-discount (l ∷ ls) (a ∷ as') n c =
      let here = c 0 in omega (arith, discounted-discount ls as' (omega arith) (λ j. c (suc j)))

  discounted-tax :
      (lines : List CartLineInput) (alloc : List ℕ)
      → length alloc ≡ length lines
      → Caps alloc lines
      → sum (
          zip_with net_tax
            (map base_of (zip_with discounted lines alloc))
            (replicate (length lines) 0))
        ≡ sum (zip_with net_tax (map base_of lines) alloc)
  discounted-tax [] alloc n c = refl
  discounted-tax (l ∷ ls) [] n c = absurd (omega arith)
  discounted-tax (l ∷ ls) (a ∷ as') n c =
      let here : a ≤ base_of l = c 0 in
      let net : base_of (discounted l a) - 0 ≡ base_of l - a = omega arith in
      rw (net, discounted-tax ls as' (omega arith) (λ j. c (suc j)))

  tax-le :
      (bases alloc : List ℕ)
      → length alloc ≡ length bases
      → sum (zip_with net_tax bases alloc)
        ≤ sum (zip_with net_tax bases (replicate (length bases) 0))
  tax-le [] alloc n = omega arith
  tax-le (b ∷ bs) [] n = omega arith
  tax-le (b ∷ bs) (a ∷ as') n = omega (
    arith,
    line_tax_mono inclusive rate (b - a) (b - 0) (omega arith),
    tax-le bs as' (omega arith),
  )

length-zip_with :
    (ls : List CartLineInput) (xs : List ℕ)
    → length xs ≡ length ls
    → length (zip_with discounted ls xs) ≡ length ls
length-zip_with [] xs n = refl
length-zip_with (l ∷ ls) [] n = absurd (omega arith)
length-zip_with (l ∷ ls) (x ∷ xs) n = omega (arith, length-zip_with ls xs (omega arith))

-- The cart discount that is applied: at most what the line discounts leave.
abbrev pub cart_discount_of : List CartLineInput → TotalsOptions → ℕ
cart_discount_of lines opts =
    min (or_zero opts.cart_discount_cents) (sum_by gross_of lines - sum_by discount_of lines)

-- Where the allocation is exact, a cart discount does exactly what raising each line's own discount
-- by its allocated share does: every total of the order is the same.
pub cart_discount_as_line_discounts :
    (fr : Fractions) (lines : List CartLineInput) (opts : TotalsOptions)
    → IsExact (map base_of lines) (cart_discount_of lines opts)
    → let shares = allocate_cart_discount fr (map base_of lines) (cart_discount_of lines opts) in
      compute_totals fr
        (zip_with discounted lines shares)
        (record opts { cart_discount_cents = some 0 })
      ≡ compute_totals fr lines opts
unfolding compute_totals
cart_discount_as_line_discounts fr lines opts exact =
    let bases = map base_of lines in
    let cd = cart_discount_of lines opts in
    let shares = allocate_cart_discount fr bases cd in
    let inclusive = or_false opts.tax_inclusive in
    let rate = opts.tax_rate_bps in
    let n : length shares ≡ length lines =
      length-allocate_cart_discount fr bases cd ∙ length-map base_of lines in
    let caps : Caps shares lines = λ j. allocate_cart_discount_capped fr bases cd j exact in
    let given : sum shares ≡ cd =
      omega (arith, sum-allocate_cart_discount fr bases cd exact, sum_by-gross lines) in
    let nothing : (m : ℕ) → min 0 m ≡ 0 = λ m. omega arith in
    let size : length (map base_of (zip_with discounted lines shares)) ≡ length lines =
      length-map base_of (zip_with discounted lines shares) ∙ length-zip_with lines shares n in
    rw (
      discounted-gross inclusive rate lines shares n,
      discounted-discount inclusive rate lines shares n caps,
      nothing,
      allocate_cart_discount-zero,
      size,
      discounted-tax inclusive rate lines shares n caps,
      given,
      add-zero,
    )

-- A cart discount never raises the tax, nor the total: compared with the same order without it, the
-- tax is no higher, and neither is the total.
pub cart_discount_lowers_tax :
    (fr : Fractions) (lines : List CartLineInput) (opts : TotalsOptions)
    → let with = compute_totals fr lines opts in
      let without = compute_totals fr lines (record opts { cart_discount_cents = none }) in
      (with.tax_cents ≤ without.tax_cents) × (with.total_cents ≤ without.total_cents)
unfolding compute_totals
cart_discount_lowers_tax fr lines opts =
    let bases = map base_of lines in
    let cd = cart_discount_of lines opts in
    let nothing : (m : ℕ) → min 0 m ≡ 0 = λ m. omega arith in
    let less =
      tax-le (or_false opts.tax_inclusive) opts.tax_rate_bps bases
        (allocate_cart_discount fr bases cd) (length-allocate_cart_discount fr bases cd) in
    rw (nothing, allocate_cart_discount-zero, add-zero) (ground arith)
