-- ===== src/Register/Checkout/Rows.antt =====
-- The data of the checkout (src/features/register/schema.ts, and the rows that
-- src/features/register/actions.ts writes).
use Prim.Native.String.{String}
use text.Mathlib.Text.{◌==◌ as str_eq}
use valla_pos.Base.{ℕ, Bool, Option, none, some, List, [], ◌∷◌, if◌then◌else◌}
use valla_pos.Money.Totals.{or_zero}
use valla_pos.Inventory.{Variation, StockDecrementLine}
use valla_pos.Staff.{Role}
use valla_pos.PinThrottle.{Store}
use valla_pos.Register.Pricing.{ResolvedModifier}
use valla_pos.Register.Resolve.{CatalogRow, LineInput}
use valla_pos.Register.Approval.{Member}

pub data TenderMethod : Type 0 where
  cash qr manual : TenderMethod

pub record SnapshotLine : Type 0 where
  pub unit_price_cents : ℕ
  pub modifier_deltas : Option (List (String × ℕ))

-- `price_snapshot` is `priceSnapshot.lines`; its marker `quoted` is literally true.
pub record CheckoutInput : Type 0 where
  pub client_uuid : String
  pub lines : List LineInput
  pub tip_cents : ℕ
  pub cart_discount_cents : ℕ
  pub method : TenderMethod
  pub cash_tendered_cents : ℕ
  pub manual_note : Option String
  pub manager_pin : Option String
  pub customer_name : Option String
  pub price_snapshot : Option (List SnapshotLine)
  pub offline_cashier_id : Option String
  pub offline_queued_at : Option ℕ

pub record Operator : Type 0 where
  pub membership_id : String
  pub role : Role
  pub permissions : List String

pub record SalePayment : Type 0 where
  pub method : TenderMethod
  pub amount_cents : ℕ
  pub tendered_cents : Option ℕ
  pub change_cents : Option ℕ
  pub processor_ref : Option String

-- The row of a modifier: its name and price, and not its id.
pub record SoldModifier : Type 0 where
  pub name_snapshot : String
  pub price_delta_cents : ℕ

abbrev pub sold_modifier : ResolvedModifier → SoldModifier
sold_modifier m = record {
  name_snapshot = m.name_snapshot;
  price_delta_cents = m.price_delta_cents;
}

pub record SoldLine : Type 0 where
  pub variation_id : String
  pub name_snapshot : String
  pub unit_price_cents : ℕ
  pub quantity : ℕ
  pub discount_cents : ℕ
  pub tax_cents : ℕ
  pub total_cents : ℕ
  pub modifiers : List SoldModifier

-- What a sale writes, less the order number; `decrements` are the lines for the stock.
pub record Sale : Type 0 where
  pub client_uuid : String
  pub cashier_id : String
  pub created_at : Option ℕ
  pub customer_name : Option String
  pub subtotal_cents : ℕ
  pub discount_cents : ℕ
  pub tax_cents : ℕ
  pub tip_cents : ℕ
  pub total_cents : ℕ
  pub lines : List SoldLine
  pub payment : SalePayment
  pub decrements : List StockDecrementLine

-- A row of the order table.
pub record StoredSale : Type 0 where
  pub id : String
  pub number : ℕ
  pub sale : Sale

-- The rows of the business; `counter` is its order counter, which may not exist yet.
pub record Till : Type 0 where
  pub sales : List StoredSale
  pub counter : Option ℕ
  pub stock : List Variation
  pub catalog : List CatalogRow
  pub members : List Member
  pub tax_rate_bps : ℕ
  pub tax_inclusive : Bool
  pub throttle : Store

pub record Receipt : Type 0 where
  pub order_id : String
  pub number : ℕ
  pub subtotal_cents : ℕ
  pub discount_cents : ℕ
  pub tax_cents : ℕ
  pub tip_cents : ℕ
  pub total_cents : ℕ
  pub method : TenderMethod
  pub cash_tendered_cents : ℕ
  pub change_cents : ℕ
  pub manual_note : Option String

pub data Rejection : Type 0 where
  manager_approval_required invalid_manager_pin : Rejection

pub data Outcome : Type 0 where
  receipt : Receipt → Outcome
  rejected : Rejection → Outcome
  thrown : Outcome

-- `toReceipt`, with the payment as `paymentViewOf` or the fresh one gives it.
unfoldable pub to_receipt : StoredSale → Receipt
to_receipt o = record {
  order_id = o.id;
  number = o.number;
  subtotal_cents = o.sale.subtotal_cents;
  discount_cents = o.sale.discount_cents;
  tax_cents = o.sale.tax_cents;
  tip_cents = o.sale.tip_cents;
  total_cents = o.sale.total_cents;
  method = o.sale.payment.method;
  cash_tendered_cents = or_zero o.sale.payment.tendered_cents;
  change_cents = or_zero o.sale.payment.change_cents;
  manual_note = o.sale.payment.processor_ref;
}

-- `findUnique` by `clientUuid`.
unfoldable pub find_sale : String → List StoredSale → Option StoredSale
find_sale uuid [] = none
find_sale uuid (o ∷ os) = if str_eq o.sale.client_uuid uuid then some o else find_sale uuid os
