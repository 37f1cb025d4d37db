-- ===== src/Payments.antt =====
-- QR sales that a webhook settles (src/features/payments/sale-store.ts), over the rows of one business.
--
-- A handler reads the row of the session by the signed id, and writes in one transaction. The fields
-- of a row but its status and its payment never change. `upper` is `toUpperCase`. `none` is where the
-- handler throws, which leaves the rows as they were.
pub mod Settled
pub mod Final
pub mod Tests
use Prim.Native.String.{String}
use text.Mathlib.Text.{◌==◌ as str_eq}
use valla_pos.Base.{
  ℕ, ◌+◌, Bool, true, false, not, Option, none, some, List, [], ◌∷◌, map, filter, any, length, ◌==◌,
  ◌&&◌, ◌||◌, if◌then◌else◌,
}
use valla_pos.Orders.Actions.{OrderStatus}
use valla_pos.Inventory.{
  Variation, StockLine, StockDecrementLine, is_tracked, apply_stock_decrements,
}

pub data SessionStatus : Type 0 where
  awaiting captured failed expired : SessionStatus

-- A row of `checkoutSession`; `awaiting` is OPEN.
pub record SessionRow : Type 0 where
  pub id : String
  pub order_id : String
  pub client_uuid : String
  pub stripe_session_id : String
  pub stripe_account_id : String
  pub amount_cents : ℕ
  pub currency : String
  pub status : SessionStatus
  pub payment_id : Option String

pub record QrPayment : Type 0 where
  pub id : String
  pub order_id : String
  pub amount_cents : ℕ
  pub processor_ref : Option String
  pub card_brand : Option String
  pub card_last4 : Option String

pub record QrOrder : Type 0 where
  pub id : String
  pub status : OrderStatus
  pub lines : List StockLine

pub record Rail : Type 0 where
  pub sessions : List SessionRow
  pub orders : List QrOrder
  pub payments : List QrPayment
  pub stock : List Variation

pub record SaleSettlement : Type 0 where
  pub stripe_session_id : String
  pub amount_total : Option ℕ
  pub currency : Option String
  pub payment_intent_id : Option String
  pub card_brand : Option String
  pub card_last4 : Option String

pub data SettleOutcome : Type 0 where
  was_captured : String → String → SettleOutcome
  was_failed was_expired already_settled unknown_session account_mismatch amount_mismatch :
      SettleOutcome

-- `findSessionRow`
unfoldable pub find_session_row : String → List SessionRow → Option SessionRow
find_session_row id [] = none
find_session_row id (r ∷ rs) =
    if str_eq r.stripe_session_id id then some r else find_session_row id rs

-- `createOrReuseCheckoutSession`: the row of the key, or else a new one, which the database refuses
-- (`none`) if it has another of that session id.
unfoldable pub find_by_client : String → List SessionRow → Option SessionRow
find_by_client uuid [] = none
find_by_client uuid (r ∷ rs) = if str_eq r.client_uuid uuid then some r else find_by_client uuid rs

unfoldable pub create_or_reuse_checkout_session :
    String → SessionRow → Rail → Option (SessionRow × Rail)
create_or_reuse_checkout_session new_id input s =
    elim (find_by_client input.client_uuid s.sessions) [
      | some row ↦ some (row, s)
      | none ↦ elim (find_session_row input.stripe_session_id s.sessions) [
        | some taken ↦ none
        | none ↦
            let row : SessionRow = record input {
              id = new_id;
              status = awaiting;
              payment_id = none;
            } in
            some (row, record s { sessions = row ∷ s.sessions })
      ]
    ]

abbrev pub is_awaiting : SessionRow → Bool
is_awaiting r = elim r.status [ awaiting ↦ true | _ ↦ false ]

-- The condition of the compare-and-set.
abbrev pub flips : String → SessionRow → Bool
flips id r = str_eq r.id id && is_awaiting r

abbrev pub flip_row : String → SessionStatus → SessionRow → SessionRow
flip_row id to r = if flips id r then record r { status = to } else r

-- `updateMany` from OPEN to another status: the count, and the rows.
unfoldable pub flip : String → SessionStatus → List SessionRow → ℕ × List SessionRow
flip id to rows = (length (filter (flips id) rows), map (flip_row id to) rows)

abbrev pub link_row : String → String → SessionRow → SessionRow
link_row id payment_id r = if str_eq r.id id then record r { payment_id = some payment_id } else r

abbrev pub pay_order : String → QrOrder → QrOrder
pay_order id o = if str_eq o.id id then record o { status = OrderStatus.paid } else o

unfoldable pub lines_of_order : String → List QrOrder → List StockLine
lines_of_order id [] = []
lines_of_order id (o ∷ os) = if str_eq o.id id then o.lines else lines_of_order id os

-- `orderStockLines`
unfoldable pub order_stock_lines : List Variation → List StockLine → List StockDecrementLine
order_stock_lines vs [] = []
order_stock_lines vs (l ∷ ls) = elim l.variation_id [
  | none ↦ order_stock_lines vs ls
  | some id ↦
      record { variation_id = id; quantity = l.quantity; track_stock = is_tracked vs id }
      ∷ order_stock_lines vs ls
]

-- The transaction of `captureQrSale` for a row that was read. The order that it updates exists, since
-- the row refers to it by a foreign key.
unfoldable pub capture_row :
    String → SaleSettlement → SessionRow → Rail → Option (SettleOutcome × Rail)
capture_row new_id settlement row s =
    let (count, rows) = flip row.id captured s.sessions in
    if count == 0
    then some (already_settled, s)
    else elim (apply_stock_decrements
        (order_stock_lines s.stock (lines_of_order row.order_id s.orders)) s.stock) [
          | none ↦ none
          | some stock ↦ some (
            was_captured new_id row.order_id,
            record {
              sessions = map (link_row row.id new_id) rows;
              orders = map (pay_order row.order_id) s.orders;
              payments =
                  record {
                    id = new_id;
                    order_id = row.order_id;
                    amount_cents = row.amount_cents;
                    processor_ref = settlement.payment_intent_id;
                    card_brand = settlement.card_brand;
                    card_last4 = settlement.card_last4;
                  }
                  ∷ s.payments;
              stock = stock;
            },
          )
        ]

-- `!eventAccount || row.stripeAccountId !== eventAccount`
unfoldable pub is_foreign : Option String → SessionRow → Bool
is_foreign none row = true
is_foreign (some account) row = str_eq account "" || not (str_eq row.stripe_account_id account)

module _ (upper : String → String) where
  unfoldable pub currency_matches : Option String → String → Bool
  currency_matches none b = false
  currency_matches (some a) b = str_eq (upper a) (upper b)

  -- Whether Stripe's amount and currency are those of the row.
  unfoldable pub amount_matches : SaleSettlement → SessionRow → Bool
  amount_matches settlement row =
      elim settlement.amount_total [ none ↦ false | some n ↦ n == row.amount_cents ]
      && currency_matches settlement.currency row.currency

  -- `captureQrSale`
  unfoldable pub capture_qr_sale :
      String → SaleSettlement → Option String → Rail → Option (SettleOutcome × Rail)
  capture_qr_sale new_id settlement account s =
      elim (find_session_row settlement.stripe_session_id s.sessions) [
        | none ↦ some (unknown_session, s)
        | some row ↦
            if is_foreign account row
            then some (account_mismatch, s)
            else if not (amount_matches settlement row)
            then some (amount_mismatch, record s { sessions = (flip row.id failed s.sessions).1 })
            else capture_row new_id settlement row s
      ]

-- `transitionOpen`
unfoldable pub transition_open :
    SaleSettlement → Option String → SessionStatus → SettleOutcome → Rail → SettleOutcome × Rail
transition_open settlement account to done s =
    elim (find_session_row settlement.stripe_session_id s.sessions) [
      | none ↦ (unknown_session, s)
      | some row ↦
          if is_foreign account row
          then (account_mismatch, s)
          else let (count, rows) = flip row.id to s.sessions in
            if count == 0 then (already_settled, s) else (done, record s { sessions = rows })
    ]

-- `failQrSale` and `expireQrSale`
abbrev pub fail_qr_sale : SaleSettlement → Option String → Rail → SettleOutcome × Rail
fail_qr_sale settlement account s = transition_open settlement account failed was_failed s

abbrev pub expire_qr_sale : SaleSettlement → Option String → Rail → SettleOutcome × Rail
expire_qr_sale settlement account s = transition_open settlement account expired was_expired s
