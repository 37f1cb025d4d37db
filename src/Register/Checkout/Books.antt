-- ===== src/Register/Checkout/Books.antt =====
-- What a sale records adds up, and is what the catalog says.
use Prim.Native.String.{String}
use valla_pos.Base.{
  ℕ, ◌+◌, ◌-◌, ◌≡◌, refl, ◌∙◌, sym, Bool, true, false, Option, none, some, List, [], ◌∷◌, map,
  length, length-map, sum_by, zip_with, All, inl, inr, Bool-cases, Option-cases, arith, ltb,
}
use valla_pos.Base.Result.{Result-cases, ok, Pointwise}
use valla_pos.Money.Discount.{Fractions}
use valla_pos.Register.Pricing.{PricedLine, PricedOrder, compute_priced_order}
use valla_pos.Register.Pricing.Order.{compute_priced_order-tax}
use valla_pos.Register.Resolve.{
  CatalogRow, LineInput, ResolvedLine, quoted_unit, row_of, money_line, resolve_order_lines,
}
use valla_pos.Register.Resolve.Prices.{IsFair, resolve_order_lines-IsFair}
use valla_pos.Register.Checkout.{
  CheckoutInput, Operator, Sale, SalePayment, SoldLine, Till, is_cash, sold_line, sale_of,
  resolve_input, aligned_snapshot, reference_of, note_of, markers, approval_bypassed, payment_of,
  totals_options, prepare_sale,
}

-- Cash covers the total, and the change is what is left of it; other methods record no cash.
abbrev IsTendered : Bool → ℕ → ℕ → SalePayment → Type 0
IsTendered true given total p =
    (change : ℕ) × (p.tendered_cents ≡ some given)
    × (p.change_cents ≡ some change)
    × (change + total ≡ given)
IsTendered false given total p = (p.tendered_cents ≡ none) × (p.change_cents ≡ none)

-- The payment captures the total, by the method sent.
abbrev pub IsPaid : CheckoutInput → ℕ → SalePayment → Type 0
IsPaid data' total p =
    (p.amount_cents ≡ total)
    × (p.method ≡ data'.method)
    × IsTendered (is_cash data'.method) data'.cash_tendered_cents total p

-- A stored line has the row's price and the quantity that was sent.
abbrev pub IsListPriced : List CatalogRow → LineInput → SoldLine → Type 0
IsListPriced rows l sold =
    (row : CatalogRow) × (row_of l.variation_id rows ≡ some row)
    × (sold.unit_price_cents ≡ row.price_cents)
    × (sold.quantity ≡ l.quantity)

sum-sold :
    (ls : List ResolvedLine) (ps : List PricedLine)
    → length ps ≡ length ls
    → sum_by (λ (l : SoldLine). l.tax_cents) (zip_with sold_line ls ps)
      ≡ sum_by (λ (p : PricedLine). p.tax_cents) ps
sum-sold [] [] h = refl
sum-sold [] (p ∷ ps) h = absurd (omega arith)
sum-sold (l ∷ ls) [] h = absurd (omega arith)
sum-sold (l ∷ ls) (p ∷ ps) h = omega (arith, sum-sold ls ps (omega arith))

payment_of-IsPaid :
    (data' : CheckoutInput) (reference : Option String) (total : ℕ) (p : SalePayment)
    → payment_of data' reference total ≡ some p
    → IsPaid data' total p
unfolding payment_of
payment_of-IsPaid data' reference total p h = elim (Bool-cases (is_cash data'.method)) [
  | inl e ↦ elim (Bool-cases (ltb data'.cash_tendered_cents total)) [
    | inl short ↦ absurd (ground arith)
    | inr covers ↦ (
      ground arith,
      ground arith,
      rw e (data'.cash_tendered_cents - total, ground arith, ground arith, ground arith),
    )
  ]
  | inr e ↦ (ground arith, ground arith, rw e (ground arith, ground arith))
]

module _ (fr : Fractions) (trim : String → String) (notation : ℕ → String) where
  abbrev pub priced_for : CheckoutInput → Till → List ResolvedLine → PricedOrder
  priced_for data' s ls = compute_priced_order fr (map money_line ls) (totals_options data' s)

  -- How a prepared sale came about.
  abbrev IsPrepared : CheckoutInput → Operator → ℕ → Till → Sale → Type 0
  IsPrepared data' op now s sale =
      (ls : List ResolvedLine) × (clamped : Bool) × (p : SalePayment) × (resolve_order_lines trim
          notation s.catalog (resolve_input data')
        ≡ ok (ls, clamped))
      × (sale ≡ sale_of data' op now s ls (priced_for data' s ls) p)
      × IsPaid data' (priced_for data' s ls).total_cents p

  prepare_sale-cases :
      (data' : CheckoutInput) (op : Operator) (now : ℕ) (s : Till) (sale : Sale)
      → prepare_sale fr trim notation data' op now s ≡ some sale
      → IsPrepared data' op now s sale
  unfolding prepare_sale
  prepare_sale-cases data' op now s sale h =
      elim (Result-cases (resolve_order_lines trim notation s.catalog (resolve_input data'))) [
        | inr (e, f) ↦ absurd (ground arith)
        | inl ((ls, clamped), f) ↦
            let total = (priced_for data' s ls).total_cents in
            let reference =
              reference_of (note_of fr trim notation data')
                (markers (approval_bypassed data' op) clamped) in
            elim (Option-cases (payment_of data' reference total)) [
              | inl g ↦ let nothing : none ≡ some sale = rw (f, g, prepare_sale) at h in absurd (cc)
              | inr (p, g) ↦
                  let done : some (sale_of data' op now s ls (priced_for data' s ls) p)
                      ≡ some sale =
                    rw (f, g, prepare_sale) at h in
                  (ls, clamped, p, f, cc, payment_of-IsPaid data' reference total p g)
            ]
      ]

  -- A prepared sale adds up: the tax of the order is the sum of the taxes stored with its lines, of
  -- which there is one for each line sent; the payment is for exactly the order's total, by the method
  -- sent; cash covers it, and change and total together are the cash given; other methods record no
  -- cash. All of its lines are resolved fairly from the catalog.
  pub prepare_sale_lem :
      (data' : CheckoutInput) (op : Operator) (now : ℕ) (s : Till) (sale : Sale)
      → prepare_sale fr trim notation data' op now s ≡ some sale
      → (sum_by (λ (l : SoldLine). l.tax_cents) sale.lines ≡ sale.tax_cents)
        × IsPaid data' sale.total_cents sale.payment
        × ((ls : List ResolvedLine) × Pointwise
              (IsFair trim notation s.catalog)
              (resolve_input data')
              ls
            × (sale.lines ≡ zip_with sold_line ls (priced_for data' s ls).lines)
            × (length (priced_for data' s ls).lines ≡ length ls))
  prepare_sale_lem data' op now s sale h =
      let (ls, clamped, p, f, is, paid) = prepare_sale-cases data' op now s sale h in
      let (tax, count) = compute_priced_order-tax fr (map money_line ls) (totals_options data' s) in
      let even : length (priced_for data' s ls).lines ≡ length ls =
        count ∙ length-map money_line ls in
      let fair =
        (resolve_order_lines-IsFair trim notation s.catalog (resolve_input data') ls clamped f) in
      rw is (sum-sold ls (priced_for data' s ls).lines even ∙ sym tax, paid, (ls, fair, refl, even))

  -- Bare lines that were resolved fairly and priced are stored at the catalog's price.
  sold-bare :
      (rows : List CatalogRow) (lines : List LineInput) (ls : List ResolvedLine)
      (ps : List PricedLine)
      → All (λ (l : LineInput). l.price_override ≡ none) lines
      → Pointwise (IsFair trim notation rows) lines ls
      → length ps ≡ length ls
      → Pointwise (IsListPriced rows) lines (zip_with sold_line ls ps)
  sold-bare rows [] [] ps bare fair even = tt
  sold-bare rows [] (l ∷ ls) ps bare fair even = absurd fair
  sold-bare rows (x ∷ xs) [] ps bare fair even = absurd fair
  sold-bare rows (x ∷ xs) (l ∷ ls) [] bare fair even = absurd (omega arith)
  sold-bare rows (x ∷ xs) (l ∷ ls) (p ∷ ps) (alone, bare)
        ((row, chosen, found, price, count, listed, within, mods), fair) even =
      let unquoted : quoted_unit x.price_override ≡ none = rw alone refl in
      ((row, found, rw unquoted at price, count), sold-bare rows xs ls ps bare fair (omega arith))

  -- A sale that was not quoted offline is priced by the catalog: every line sent is a known variation,
  -- and is stored with its quantity and with the catalog's price at the time.
  pub prepare_sale-online :
      (data' : CheckoutInput) (op : Operator) (now : ℕ) (s : Till) (sale : Sale)
      → data'.price_snapshot ≡ none
      → All (λ (l : LineInput). l.price_override ≡ none) data'.lines
      → prepare_sale fr trim notation data' op now s ≡ some sale
      → Pointwise (IsListPriced s.catalog) data'.lines sale.lines
  unfolding resolve_input aligned_snapshot
  prepare_sale-online data' op now s sale plain bare h =
      let (tax, paid, (ls, fair, stored, even)) = prepare_sale_lem data' op now s sale h in
      let same : resolve_input data' ≡ data'.lines = rw (plain, resolve_input) refl in
      rw stored (
        sold-bare s.catalog data'.lines ls (priced_for data' s ls).lines bare (rw same at fair)
          even)
