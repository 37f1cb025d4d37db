-- ===== src/Orders/Actions.antt =====
-- The void and refund actions (src/features/orders/actions.ts), over the rows of one business: every
-- query of the source is scoped by `businessId`, and the row lock makes each transaction one step.
--
-- A transaction that throws is rolled back, so `thrown` carries no state. `allowed` is the outcome of
-- `requireCapability(businessId, "refund_void")`, which throws where it is not granted.
pub mod Rows
pub mod Cases
pub mod Sound
pub mod Idempotent
pub mod Tests
use Prim.Native.String.{String, ◌++◌ as str_append}
use text.Mathlib.Text.{◌==◌ as str_eq}
use valla_pos.Base.{
  ℕ, ◌+◌, Bool, true, false, not, Option, none, some, List, [], ◌∷◌, ◌++◌, map, any, ◌&&◌,
  if◌then◌else◌,
}
use valla_pos.Base.Int.{ℤ, pos, ◌+ℤ◌, ◌-ℤ◌, leb_ℤ, ltb_ℤ}
use valla_pos.Money.Discount.{Fractions}
use valla_pos.Inventory.{Variation, StockLine, restock_order_lines}
use valla_pos.Orders.Refund.{
  PaymentMovement, net_collected_total, plan_full_reversal, plan_partial_refund, PartialRefundError,
  amount_not_positive, exceeds_net_collected, no_collected_payments, PartialRefundPlan,
}

pub data OrderStatus : Type 0 where
  open_tab paid refunded partially_refunded voided : OrderStatus

pub data PaymentStatus : Type 0 where
  pending captured refunded failed : PaymentStatus

pub record Payment : Type 0 where
  pub method : String
  pub status : PaymentStatus
  pub amount_cents : ℤ
  pub processor_ref : Option String

pub record Order : Type 0 where
  pub id : String
  pub status : OrderStatus
  pub payments : List Payment
  pub lines : List StockLine

-- `drawer_open`: there is a drawer session that is not closed.
pub record Shop : Type 0 where
  pub orders : List Order
  pub variations : List Variation
  pub drawer_open : Bool

pub data Reason : Type 0 where
  order_not_found not_paid already_settled nothing_collected not_positive exceeds : Reason

-- `success status reversed cash manual`; `manualRefundRequired` is `manual > 0`.
pub data RefundVoidResult : Type 0 where
  success : OrderStatus → ℤ → ℤ → ℤ → RefundVoidResult
  failure : Reason → RefundVoidResult

pub data TxResult : Type 0 where
  done : RefundVoidResult → Shop → TxResult
  thrown : TxResult

-- `tx.order.findFirst({ where: { id } })`, and `tx.order.update` of the row with the order's id.
unfoldable pub find_order : String → List Order → Option Order
find_order id [] = none
find_order id (o ∷ os) = if str_eq o.id id then some o else find_order id os

unfoldable pub put_order : Order → List Order → List Order
put_order o [] = []
put_order o (p ∷ ps) = if str_eq p.id o.id then o ∷ ps else p ∷ put_order o ps

abbrev pub movement : Payment → PaymentMovement
movement p = record { method = p.method; amount_cents = p.amount_cents }

abbrev pub movements : Order → List PaymentMovement
movements o = map movement o.payments

-- `refTag`. A `clientUuid` that is sent is a UUID (the zod schema), so it is not empty.
unfoldable pub tag_of : String → String
tag_of uuid = str_append "refund:" uuid

unfoldable pub ref_tag : Option String → Option String
ref_tag none = none
ref_tag (some uuid) = some (tag_of uuid)

-- `SETTLED.has(status)`
unfoldable pub is_settled : OrderStatus → Bool
is_settled voided = true
is_settled OrderStatus.refunded = true
is_settled _ = false

unfoldable pub is_paid : OrderStatus → Bool
is_paid paid = true
is_paid _ = false

abbrev pub has_tag : String → Payment → Bool
has_tag tag p = elim p.processor_ref [ none ↦ false | some t ↦ str_eq t tag ]

-- `priorReversalResult` finds a payment that carries this request's tag.
unfoldable pub has_prior_reversal : Option String → List Payment → Bool
has_prior_reversal none ps = false
has_prior_reversal (some uuid) ps = any (has_tag (tag_of uuid)) ps

abbrev pub amounts_sum : List PaymentMovement → ℤ
amounts_sum [] = pos 0
amounts_sum (r ∷ rs) = r.amount_cents +ℤ amounts_sum rs

-- `classifyRefund`: the magnitudes of the cash reversals, and of the others.
unfoldable pub cash_refunded : List PaymentMovement → ℤ
cash_refunded [] = pos 0
cash_refunded (r ∷ rs) =
    (if str_eq r.method "CASH" then pos 0 -ℤ r.amount_cents else pos 0) +ℤ cash_refunded rs

unfoldable pub manual_refunded : List PaymentMovement → ℤ
manual_refunded [] = pos 0
manual_refunded (r ∷ rs) =
    (if str_eq r.method "CASH" then pos 0 else pos 0 -ℤ r.amount_cents) +ℤ manual_refunded rs

-- `assertOpenDrawerForCash` does not throw.
unfoldable pub drawer_ready : List PaymentMovement → Shop → Bool
drawer_ready reversals s =
    if any (λ (r : PaymentMovement). str_eq r.method "CASH" && ltb_ℤ r.amount_cents (pos 0))
      reversals
    then s.drawer_open
    else true

-- A reversing row as `applyReversal` writes it, and the flip of an original capture.
abbrev pub reversing_row : Option String → PaymentMovement → Payment
reversing_row tag r = record {
  method = r.method;
  status = PaymentStatus.refunded;
  amount_cents = r.amount_cents;
  processor_ref = tag;
}

abbrev pub flip_capture : Payment → Payment
flip_capture p = record p {
  status = elim p.status [ captured ↦ PaymentStatus.refunded | other ↦ other ];
}

-- `applyReversal`: the rows are written, the captures flipped if asked, and the status set. The new
-- rows are none of those that are flipped.
unfoldable pub apply_reversal :
    Order → Bool → List PaymentMovement → OrderStatus → Option String → Order
apply_reversal o flip reversals status tag =
    let old = if flip then map flip_capture o.payments else o.payments in
    record o { payments = old ++ map (reversing_row tag) reversals; status = status }

-- The writes that end each action: drawer guard, reversal, and the restock if asked.
unfoldable pub commit :
    Order → Bool → Bool → List PaymentMovement → OrderStatus → Option String → Shop → TxResult
commit o flip restock reversals status uuid s =
    let orders' = put_order (apply_reversal o flip reversals status (ref_tag uuid)) s.orders in
    let result =
      success status (pos 0 -ℤ amounts_sum reversals) (cash_refunded reversals)
        (manual_refunded reversals) in
    if drawer_ready reversals s
    then elim (if restock then restock_order_lines o.lines s.variations else some s.variations) [
      | none ↦ thrown
      | some vs ↦ done result (record s { orders = orders'; variations = vs })
    ]
    else thrown

-- `voidOrder`, once the order is read.
unfoldable pub void_found : Option String → Order → Shop → TxResult
void_found uuid o s =
    if has_prior_reversal uuid o.payments
    then done (success o.status (pos 0) (pos 0) (pos 0)) s
    else if is_settled o.status
    then done (failure already_settled) s
    else if not (is_paid o.status)
    then done (failure not_paid) s
    else commit o true true (plan_full_reversal (movements o)) voided uuid s

-- `voidOrder`
unfoldable pub void_order : Bool → String → Option String → Shop → TxResult
void_order allowed id uuid s =
    if allowed
    then elim (find_order id s.orders) [
      | none ↦ done (failure order_not_found) s
      | some o ↦ void_found uuid o s
    ]
    else thrown

abbrev pub reason_of : PartialRefundError → Reason
reason_of amount_not_positive = not_positive
reason_of no_collected_payments = nothing_collected
reason_of exceeds_net_collected = exceeds

-- The status after a partial refund: refunded if it drains what is left.
unfoldable pub next_status : List PaymentMovement → List PaymentMovement → OrderStatus
next_status ps reversals =
    if leb_ℤ (pos (net_collected_total ps) -ℤ (pos 0 -ℤ amounts_sum reversals)) (pos 0)
    then OrderStatus.refunded
    else partially_refunded

unfoldable pub is_refunded : OrderStatus → Bool
is_refunded OrderStatus.refunded = true
is_refunded _ = false

-- `refundOrder` for the whole of what is left.
unfoldable pub refund_full : Option String → Order → Shop → TxResult
refund_full uuid o s = elim (plan_full_reversal (movements o)) [
  | [] ↦ done (failure nothing_collected) s
  | r ∷ rs ↦ commit o true true (r ∷ rs) OrderStatus.refunded uuid s
]

module _ (fr : Fractions) (after : String → String → Bool) where
  -- `refundOrder` for an amount.
  unfoldable pub refund_partial : ℤ → Option String → Order → Shop → TxResult
  refund_partial amount uuid o s = elim (plan_partial_refund fr after (movements o) amount) [
    | PartialRefundPlan.err e ↦ done (failure (reason_of e)) s
    | PartialRefundPlan.ok rs ↦
        let next = next_status (movements o) rs in commit o (is_refunded next) false rs next uuid s
  ]

  -- `refundOrder`, once the order is read; no amount is a full refund.
  unfoldable pub refund_found : Option ℤ → Option String → Order → Shop → TxResult
  refund_found amount uuid o s =
      if has_prior_reversal uuid o.payments
      then done (success o.status (pos 0) (pos 0) (pos 0)) s
      else if is_settled o.status
      then done (failure already_settled) s
      else elim amount [ none ↦ refund_full uuid o s | some x ↦ refund_partial x uuid o s ]

  -- `refundOrder`
  unfoldable pub refund_order : Bool → String → Option ℤ → Option String → Shop → TxResult
  refund_order allowed id amount uuid s =
      if allowed
      then elim (find_order id s.orders) [
        | none ↦ done (failure order_not_found) s
        | some o ↦ refund_found amount uuid o s
      ]
      else thrown
