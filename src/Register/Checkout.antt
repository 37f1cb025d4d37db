-- ===== src/Register/Checkout.antt =====
-- The checkout (src/features/register/actions.ts), over the rows of one business.
--
-- It runs in two steps, between which other requests may be served: what is read and computed before
-- the transaction (`prepare_sale`), and the transaction (`commit_sale`), which finds a sale that got
-- in first by the unique key of `clientUuid`. `granted` is what `requireCapability` returned, `none`
-- where it throws; `new_id` is the id that the database generates. The throttle is written outside
-- the transaction, so that it stays written if the checkout throws. A stored sale has its own payment;
-- later reversals are in Orders.
pub mod Rows
pub mod Gate
pub mod Once
pub mod Again
pub mod Books
pub mod Keys
pub mod Tests
use Prim.Native.String.{String, ◌++◌ as str_append}
use text.Mathlib.Text.{◌==◌ as str_eq}
use valla_pos.Base.{
  ℕ, ◌+◌, ◌-◌, Bool, true, false, not, Option, none, some, List, [], ◌∷◌, map, any, length,
  zip_with, ltb, leb, ◌==◌, ◌&&◌, ◌||◌, if◌then◌else◌,
}
use valla_pos.Base.Result.{Result, ok, err}
use valla_pos.Money.Discount.{Fractions}
use valla_pos.Money.Totals.{TotalsOptions, or_zero}
use valla_pos.Inventory.{Variation, StockDecrementLine, apply_stock_decrements}
use valla_pos.Staff.{Role, can}
use valla_pos.PinThrottle.{Store}
use valla_pos.Register.Pricing.{
  ResolvedModifier, PricedLine, PricedOrder, compute_priced_order, or_empty,
}
use valla_pos.Register.Resolve.{
  CatalogRow, LineInput, PriceOverride, ResolvedLine, ResolveError, money_line, resolve_order_lines,
}
use valla_pos.Register.Approval.{Member, approve_unverified_tender, verify_manager_approval}
unfoldable pub use Rows.*

-- `isUnverifiedTender`, `isOfflineReplay` and `isCash`
abbrev pub is_unverified : TenderMethod → Bool
is_unverified cash = false
is_unverified qr = true
is_unverified manual = true

abbrev pub is_offline_replay : CheckoutInput → Bool
is_offline_replay data' = elim data'.price_snapshot [ none ↦ false | some s ↦ true ]

abbrev pub is_cash : TenderMethod → Bool
is_cash cash = true
is_cash qr = false
is_cash manual = false

-- `db.membership.findFirst` of the operator who rang the sale.
unfoldable pub is_active_member : String → List Member → Bool
is_active_member id members = any (λ (m : Member). str_eq m.id id && m.active) members

-- The attribution of the sale.
unfoldable pub cashier_of : CheckoutInput → Operator → List Member → String
cashier_of data' op members = elim data'.offline_cashier_id [
  | none ↦ op.membership_id
  | some id ↦
      if is_offline_replay data' && is_active_member id members then id else op.membership_id
]

-- `snapshot`: kept only where it has a line for each line of the sale.
unfoldable pub aligned_snapshot : CheckoutInput → Option (List SnapshotLine)
aligned_snapshot data' = elim data'.price_snapshot [
  | none ↦ none
  | some ss ↦ if length ss == length data'.lines then some ss else none
]

abbrev pub with_override : LineInput → SnapshotLine → LineInput
with_override l s = record l {
  price_override =
      some (record { unit_price_cents = s.unit_price_cents; modifier_deltas = s.modifier_deltas });
}

-- `resolveInput`. A line of the request itself carries no override.
unfoldable pub resolve_input : CheckoutInput → List LineInput
resolve_input data' = elim (aligned_snapshot data') [
  | none ↦ data'.lines
  | some ss ↦ zip_with with_override data'.lines ss
]

-- `ringUpAt`
unfoldable pub rung_at : CheckoutInput → ℕ → Option ℕ
rung_at data' now = elim data'.offline_queued_at [
  | none ↦ none
  | some t ↦ if is_offline_replay data' && ltb 0 t && leb t now then some t else none
]

-- The stored line, from its record and its priced line.
abbrev pub sold_line : ResolvedLine → PricedLine → SoldLine
sold_line l p = record {
  variation_id = l.variation_id;
  name_snapshot = l.name_snapshot;
  unit_price_cents = l.unit_price_cents;
  quantity = l.quantity;
  discount_cents = p.discount_cents;
  tax_cents = p.tax_cents;
  total_cents = p.total_cents;
  modifiers = map sold_modifier l.modifiers;
}

abbrev pub decrement_of : ResolvedLine → StockDecrementLine
decrement_of l = record {
  variation_id = l.variation_id;
  quantity = l.quantity;
  track_stock = l.track_stock;
}

abbrev pub approval_bypassed_offline_note : String
approval_bypassed_offline_note = "approval bypassed (offline replay)"

abbrev pub price_clamped_offline_note : String
price_clamped_offline_note = "price snapshot below catalog floor — clamped (offline replay)"

-- `markers.join(" — ")`, where there are any.
unfoldable pub markers : Bool → Bool → Option String
markers true true =
    some (str_append approval_bypassed_offline_note (str_append " — " price_clamped_offline_note))
markers true false = some approval_bypassed_offline_note
markers false true = some price_clamped_offline_note
markers false false = none

-- `reference`
unfoldable pub reference_of : Option String → Option String → Option String
reference_of note none = note
reference_of none (some ms) = some ms
reference_of (some n) (some ms) = some (str_append n (str_append " — " ms))

-- `approvalBypassedOffline`
unfoldable pub approval_bypassed : CheckoutInput → Operator → Bool
approval_bypassed data' op =
    is_unverified data'.method
    && is_offline_replay data'
    && not (can op.role op.permissions approve_unverified_tender)
    && elim data'.manager_pin [ none ↦ true | some p ↦ false ]

module _ (verify_pin : String → String → Bool) where
  -- The approval gate: whether it rejects, and the throttle that it leaves.
  unfoldable pub gate : String → CheckoutInput → Operator → ℕ → Till → Option Rejection × Store
  gate b data' op now s =
      if is_unverified data'.method && not (is_offline_replay data')
      then if can op.role op.permissions approve_unverified_tender
        then (none, s.throttle)
        else elim data'.manager_pin [
          | none ↦ (some manager_approval_required, s.throttle)
          | some pin ↦
              let (approved, throttle) =
                verify_manager_approval verify_pin b s.members pin now s.throttle in
              (if approved then none else some invalid_manager_pin, throttle)
        ]
      else (none, s.throttle)

-- The payment of a sale with this total; `none` where the cash does not cover it.
unfoldable pub payment_of : CheckoutInput → Option String → ℕ → Option SalePayment
payment_of data' reference total =
    if is_cash data'.method
    then if ltb data'.cash_tendered_cents total
      then none
      else some (record {
        method = data'.method;
        amount_cents = total;
        tendered_cents = some data'.cash_tendered_cents;
        change_cents = some (data'.cash_tendered_cents - total);
        processor_ref = reference;
      })
    else some (record {
      method = data'.method;
      amount_cents = total;
      tendered_cents = none;
      change_cents = none;
      processor_ref = reference;
    })

abbrev pub totals_options : CheckoutInput → Till → TotalsOptions
totals_options data' s = record {
  tax_rate_bps = s.tax_rate_bps;
  cart_discount_cents = some data'.cart_discount_cents;
  tip_cents = some data'.tip_cents;
  tax_inclusive = some s.tax_inclusive;
}

-- The sale for resolved lines that were priced and paid.
abbrev pub sale_of :
    CheckoutInput → Operator → ℕ → Till → List ResolvedLine → PricedOrder → SalePayment → Sale
sale_of data' op now s ls priced payment = record {
  client_uuid = data'.client_uuid;
  cashier_id = cashier_of data' op s.members;
  created_at = rung_at data' now;
  customer_name = data'.customer_name;
  subtotal_cents = priced.subtotal_cents;
  discount_cents = priced.discount_cents;
  tax_cents = priced.tax_cents;
  tip_cents = priced.tip_cents;
  total_cents = priced.total_cents;
  lines = zip_with sold_line ls priced.lines;
  payment = payment;
  decrements = map decrement_of ls;
}

module _ (fr : Fractions) (trim : String → String) (notation : ℕ → String) where
  -- `data.manualNote?.trim() || null`, but for cash.
  unfoldable pub note_of : CheckoutInput → Option String
  note_of data' = if is_cash data'.method then none else elim data'.manual_note [
    | none ↦ none
    | some n ↦ if str_eq (trim n) "" then none else some (trim n)
  ]

  -- From the reading of the business to the transaction; `none` where something throws.
  unfoldable pub prepare_sale : CheckoutInput → Operator → ℕ → Till → Option Sale
  prepare_sale data' op now s =
      elim (resolve_order_lines trim notation s.catalog (resolve_input data')) [
        | err e ↦ none
        | ok (ls, clamped) ↦
            let priced = compute_priced_order fr (map money_line ls) (totals_options data' s) in
            let reference =
              reference_of (note_of data') (markers (approval_bypassed data' op) clamped) in
            elim (payment_of data' reference priced.total_cents) [
              | none ↦ none
              | some payment ↦ some (sale_of data' op now s ls priced payment)
            ]
      ]

-- The next number of `orderCounter.upsert`.
unfoldable pub next_number : Option ℕ → ℕ
next_number none = 1
next_number (some n) = n + 1

-- The transaction, with the translation of a unique violation into the winner's receipt.
unfoldable pub commit_sale : String → Sale → Till → Outcome × Till
commit_sale new_id sale s = elim (find_sale sale.client_uuid s.sales) [
  | some winner ↦ (receipt (to_receipt winner), s)
  | none ↦ elim (apply_stock_decrements sale.decrements s.stock) [
    | none ↦ (thrown, s)
    | some stock ↦
        let number = next_number s.counter in
        let row : StoredSale = record { id = new_id; number = number; sale = sale } in
        (
          receipt (to_receipt row),
          record s { sales = row ∷ s.sales; counter = some number; stock = stock },
        )
  ]
]

-- `checkout`, where no other request is served between its two steps.
unfoldable pub checkout :
    Fractions
    → (String → String)
    → (ℕ → String)
    → (String → String → Bool)
    → String
    → CheckoutInput
    → Option Operator
    → ℕ
    → String
    → Till
    → Outcome × Till
checkout fr trim notation verify_pin b data' granted now new_id s = elim granted [
  | none ↦ (thrown, s)
  | some op ↦ elim (find_sale data'.client_uuid s.sales) [
    | some existing ↦ (receipt (to_receipt existing), s)
    | none ↦
        let (verdict, throttle) = gate verify_pin b data' op now s in
        let s1 = record s { throttle = throttle } in
        elim verdict [
          | some e ↦ (rejected e, s1)
          | none ↦ elim (prepare_sale fr trim notation data' op now s1) [
            | none ↦ (thrown, s1)
            | some sale ↦ commit_sale new_id sale s1
          ]
        ]
  ]
]
