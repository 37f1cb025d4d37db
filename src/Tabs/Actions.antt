-- ===== src/Tabs/Actions.antt =====
-- The actions on open tabs (src/features/tabs/actions.ts), over the rows of one business.
--
-- Each runs in two steps, between which other requests may be served: what it reads and computes,
-- which gives an `Edit`, and its transaction, `commit_edit`. `allowed` is what `requireCapability`
-- decides. `new_id` and `new_ids` are the ids that the database generates.
pub mod Rows
pub mod Holders
pub mod Occupied
pub mod Prepared
pub mod Cases
pub mod Settled
pub mod Tests
pub mod Sound
use Prim.Native.String.{String}
use text.Mathlib.Text.{◌==◌ as str_eq}
use valla_pos.Base.{
  ℕ, ◌+◌, ◌-◌, Bool, true, false, not, Option, none, some, List, [], ◌∷◌, map, any, filter, length,
  ltb, ◌==◌, ◌&&◌, if◌then◌else◌,
}
use valla_pos.Base.Result.{Result, ok, err}
use valla_pos.Money.Discount.{Fractions}
use valla_pos.Money.Totals.{TotalsOptions}
use valla_pos.Orders.Actions.{OrderStatus}
use valla_pos.Staff.{can}
use valla_pos.PinThrottle.{Store}
use valla_pos.Register.Pricing.{PricedLine, ResolvedModifier, compute_priced_order, price_line}
use valla_pos.Register.Resolve.{
  CatalogRow, LineInput, ResolvedLine, ResolveError, money_line, resolve_order_lines,
}
use valla_pos.Register.Approval.{Member, approve_unverified_tender, verify_manager_approval}
use valla_pos.Register.Checkout.{
  Operator, TenderMethod, SoldModifier, Rejection, manager_approval_required, invalid_manager_pin,
  is_unverified, is_cash, sold_modifier, next_number,
}
use valla_pos.Tabs.{
  Seats, all, chosen, SettlementError, planned, refused, plan_settlement, is_unsettled,
}
use valla_pos.Tabs.Edits.{
  Tab, TabRow, TabPayment, Edit, append_lines, put_quantity, drop_line, put_seat, attach_table,
  move_tables, settle_lines, find_row, edit_tab, is_open_row, same_table,
}
unfoldable pub use Rows.*

-- The order that `openTab` creates.
abbrev pub fresh_tab : String → ℕ → String → String → Tab
fresh_tab id number cashier_id table = record {
  id = id;
  number = number;
  status = OrderStatus.open_tab;
  cashier_id = cashier_id;
  tables = table ∷ [];
  subtotal_cents = 0;
  discount_cents = 0;
  tax_cents = 0;
  tip_cents = 0;
  total_cents = 0;
  lines = [];
  payments = [];
}

-- `openTab`, with the id of the order.
unfoldable pub open_tab :
    String → Option Operator → String → Floor → Result TabError (String × Floor)
open_tab new_id granted table s = elim granted [
  | none ↦ err not_allowed
  | some op ↦
      if not (any (same_table table) s.tables)
      then err table_not_found
      else if is_occupied table s.tabs
      then err table_taken
      else let number = next_number s.counter in
        ok (
          new_id,
          record s {
            tabs = fresh_tab new_id number op.membership_id table ∷ s.tabs;
            counter = some number;
          },
        )
]

-- `mergeTables` up to its write.
unfoldable pub prepare_merge : String → String → Floor → Result TabError Edit
prepare_merge order_id table s = elim (load_open_order order_id s) [
  | err e ↦ err e
  | ok t ↦
      if not (any (same_table table) s.tables)
      then err table_not_found
      else if is_held_by_other order_id table s.tabs
      then err table_taken
      else ok (attach_table table)
]

-- `transferTab` up to its transaction.
unfoldable pub prepare_transfer : String → String → String → Floor → Result TabError Edit
prepare_transfer order_id from_table to_table s = elim (load_open_order order_id s) [
  | err e ↦ err e
  | ok t ↦
      if not (any (same_table to_table) s.tables)
      then err table_not_found
      else if is_held_by_other order_id to_table s.tabs
      then err table_taken
      else ok (move_tables from_table to_table)
]

-- The lines that `addTabLines` creates, from line `i` on.
unfoldable pub created_rows :
    (ℕ → String) → Option ℕ → ℕ → List ResolvedLine → List PricedLine → List TabRow
created_rows new_ids seat i [] ps = []
created_rows new_ids seat i (l ∷ ls) [] = []
created_rows new_ids seat i (l ∷ ls) (p ∷ ps) =
    record {
      line = record {
        id = new_ids i;
        seat = seat;
        total_cents = p.total_cents;
        tax_cents = p.tax_cents;
        settled_by_payment_id = none;
      };
      variation_id = l.variation_id;
      name_snapshot = l.name_snapshot;
      unit_price_cents = l.unit_price_cents;
      quantity = l.quantity;
      discount_cents = p.discount_cents;
      modifiers = map sold_modifier l.modifiers;
    }
    ∷ created_rows new_ids seat (i + 1) ls ps

abbrev pub tab_options : Floor → TotalsOptions
tab_options s = record {
  tax_rate_bps = s.tax_rate_bps;
  cart_discount_cents = none;
  tip_cents = none;
  tax_inclusive = some s.tax_inclusive;
}

module _ (fr : Fractions) (trim : String → String) (notation : ℕ → String) where
  -- `addTabLines` up to its transaction.
  unfoldable pub prepare_add :
      (ℕ → String) → String → Option ℕ → List LineInput → Floor → Result TabError Edit
  prepare_add new_ids order_id seat lines s = elim (load_open_order order_id s) [
    | err e ↦ err e
    | ok t ↦ elim (resolve_order_lines trim notation s.catalog lines) [
      | err e ↦ err (unresolved e)
      | ok (ls, clamped) ↦
          let priced = compute_priced_order fr (map money_line ls) (tab_options s) in
          ok (append_lines s.tax_inclusive (created_rows new_ids seat 0 ls priced.lines))
    ]
  ]

-- The line of an open tab that no payment has settled.
unfoldable pub load_unpaid_row : String → String → Floor → Result TabError TabRow
load_unpaid_row order_id line_id s = elim (load_open_order order_id s) [
  | err e ↦ err e
  | ok t ↦ elim (find_row line_id t.lines) [
    | none ↦ err item_not_found
    | some r ↦ if is_unsettled r.line then ok r else err already_paid
  ]
]

-- The modifiers of a stored line for the price engine, which reads the prices alone.
unfoldable pub as_modifiers : (ℕ → String) → ℕ → List SoldModifier → List ResolvedModifier
as_modifiers notation i [] = []
as_modifiers notation i (m ∷ ms) =
    record { id = notation i; name_snapshot = ""; price_delta_cents = m.price_delta_cents }
    ∷ as_modifiers notation (i + 1) ms

-- `setTabLineQty` up to its transaction.
unfoldable pub prepare_quantity : (ℕ → String) → String → String → ℕ → Floor → Result TabError Edit
prepare_quantity notation order_id line_id quantity s = elim (load_unpaid_row order_id line_id s) [
  | err e ↦ err e
  | ok r ↦
      let p =
        price_line
          (record {
            unit_price_cents = r.unit_price_cents;
            quantity = quantity;
            line_discount_cents = some r.discount_cents;
            modifiers = some (as_modifiers notation 0 r.modifiers);
          })
          s.tax_rate_bps s.tax_inclusive in
      ok (put_quantity s.tax_inclusive line_id quantity p)
]

-- `removeTabLine` and `assignLineSeat` up to their writes.
unfoldable pub prepare_remove : String → String → Floor → Result TabError Edit
prepare_remove order_id line_id s = elim (load_unpaid_row order_id line_id s) [
  | err e ↦ err e
  | ok r ↦ ok (drop_line s.tax_inclusive line_id)
]

unfoldable pub prepare_seat : String → String → Option ℕ → Floor → Result TabError Edit
prepare_seat order_id line_id seat s = elim (load_unpaid_row order_id line_id s) [
  | err e ↦ err e
  | ok r ↦ ok (put_seat line_id seat)
]

pub record SettleInput : Type 0 where
  pub order_id : String
  pub seats : Option (List (Option ℕ))
  pub tip_cents : ℕ
  pub method : TenderMethod
  pub cash_tendered_cents : ℕ
  pub manager_pin : Option String

-- `data.seats && data.seats.length > 0 ? data.seats : "all"`
unfoldable pub seats_of : Option (List (Option ℕ)) → Seats
seats_of none = all
seats_of (some []) = all
seats_of (some (seat ∷ seats)) = chosen (seat ∷ seats)

pub record SettleResult : Type 0 where
  pub amount_cents : ℕ
  pub tip_cents : ℕ
  pub change_cents : ℕ
  pub closed : Bool

pub data SettleOutcome : Type 0 where
  settled : SettleResult → SettleOutcome
  settle_rejected : Rejection → SettleOutcome
  settle_failed : TabError → SettleOutcome

-- The approval gate of `settleTab`: whether it rejects, and the throttle that it leaves.
unfoldable pub settle_gate :
    (String → String → Bool)
    → String
    → SettleInput
    → Operator
    → ℕ
    → Floor
    → Option Rejection × Store
settle_gate verify_pin b data' op now s =
    if is_unverified data'.method && not (can op.role op.permissions approve_unverified_tender)
    then elim data'.manager_pin [
      | none ↦ (some manager_approval_required, s.throttle)
      | some pin ↦
          let (approved, throttle) =
            verify_manager_approval verify_pin b s.members pin now s.throttle in
          (if approved then none else some invalid_manager_pin, throttle)
    ]
    else (none, s.throttle)

-- The payment that `settleTab` creates for an amount with its tip; the change is 0 but for cash.
abbrev pub tab_payment : String → SettleInput → ℕ → TabPayment
tab_payment payment_id data' due = record {
  id = payment_id;
  method = data'.method;
  amount_cents = due;
  tendered_cents = if is_cash data'.method then some data'.cash_tendered_cents else none;
  change_cents = if is_cash data'.method then data'.cash_tendered_cents - due else 0;
}

-- `settleTab` from its reading of the tab to its transaction: the edit, and the planned amount.
unfoldable pub prepare_settle : String → SettleInput → Floor → Result TabError (Edit × ℕ)
prepare_settle payment_id data' s = elim (load_open_order data'.order_id s) [
  | err e ↦ err e
  | ok t ↦
      elim (plan_settlement (map (λ (r : TabRow). r.line) t.lines) (seats_of data'.seats)
        s.tax_inclusive) [
          | refused e ↦ err (unplanned e)
          | planned ids amount closes ↦
              let due = amount + data'.tip_cents in
              if is_cash data'.method && ltb data'.cash_tendered_cents due
              then err short_cash
              else ok (
                settle_lines s.tax_inclusive (tab_payment payment_id data' due) ids data'.tip_cents,
                amount,
              )
        ]
]

-- The row of an order is replaced.
unfoldable pub put_tab : Tab → List Tab → List Tab
put_tab t [] = []
put_tab t (x ∷ xs) = (if str_eq x.id t.id then t else x) ∷ put_tab t xs

-- The transaction of an edit, on the order as it is then; `none` where it throws.
unfoldable pub commit_edit : String → Edit → Floor → Option (Tab × Floor)
commit_edit order_id e s = elim (find_tab order_id s.tabs) [
  | none ↦ none
  | some t ↦ elim (edit_tab e t) [
    | none ↦ none
    | some t' ↦ some (t', record s { tabs = put_tab t' s.tabs })
  ]
]

-- An action other than `openTab` and `settleTab`, where no other request is served between its steps.
unfoldable pub edit_action :
    Bool → String → (Floor → Result TabError Edit) → Floor → Result TabError Floor
edit_action allowed order_id prepare s = if not allowed then err not_allowed else elim (prepare s) [
  | err e ↦ err e
  | ok e ↦ elim (commit_edit order_id e s) [ none ↦ err changed | some (t, s') ↦ ok s' ]
]

-- `settleTab`, where no other request is served between its steps.
unfoldable pub settle_tab :
    (String → String → Bool)
    → String
    → String
    → SettleInput
    → Option Operator
    → ℕ
    → Floor
    → SettleOutcome × Floor
settle_tab verify_pin b payment_id data' granted now s = elim granted [
  | none ↦ (settle_failed not_allowed, s)
  | some op ↦
      let (verdict, throttle) = settle_gate verify_pin b data' op now s in
      let s1 = record s { throttle = throttle } in
      elim verdict [
        | some e ↦ (settle_rejected e, s1)
        | none ↦ elim (prepare_settle payment_id data' s1) [
          | err e ↦ (settle_failed e, s1)
          | ok (e, amount) ↦ elim (commit_edit data'.order_id e s1) [
            | none ↦ (settle_failed changed, s1)
            | some (t, s2) ↦ (
              settled (record {
                amount_cents = amount;
                tip_cents = data'.tip_cents;
                change_cents =
                    if is_cash data'.method
                    then data'.cash_tendered_cents - (amount + data'.tip_cents)
                    else 0;
                closed = length (filter is_open_row t.lines) == 0;
              }),
              s2,
            )
          ]
        ]
      ]
]
