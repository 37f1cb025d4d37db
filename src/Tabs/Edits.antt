-- ===== src/Tabs/Edits.antt =====
-- The transactions on an open tab (src/features/tabs/actions.ts): what each action writes, given what
-- it has read and computed before. `inclusive` is the setting `taxInclusive` that it read then.
pub mod Totals
pub mod Balance
pub mod Unpaid
use Prim.Native.String.{String}
use text.Mathlib.Text.{◌==◌ as str_eq}
use valla_pos.Base.{
  ℕ, ◌+◌, Bool, true, false, not, Option, none, some, List, [], ◌∷◌, ◌++◌, map, filter, any, length,
  sum_by, ◌==◌, ◌&&◌, if◌then◌else◌,
}
use valla_pos.Orders.Actions.{OrderStatus, open_tab, paid}
use valla_pos.Register.Pricing.{PricedLine}
use valla_pos.Register.Checkout.{TenderMethod, SoldModifier}
use valla_pos.Tabs.{TabLine, is_unsettled}

-- A stored line: what the tab math reads of it, and the rest.
pub record TabRow : Type 0 where
  pub line : TabLine
  pub variation_id : String
  pub name_snapshot : String
  pub unit_price_cents : ℕ
  pub quantity : ℕ
  pub discount_cents : ℕ
  pub modifiers : List SoldModifier

pub record TabPayment : Type 0 where
  pub id : String
  pub method : TenderMethod
  pub amount_cents : ℕ
  pub tendered_cents : Option ℕ
  pub change_cents : ℕ

-- An order with its lines, payments and tables.
pub record Tab : Type 0 where
  pub id : String
  pub number : ℕ
  pub status : OrderStatus
  pub cashier_id : String
  pub tables : List String
  pub subtotal_cents : ℕ
  pub discount_cents : ℕ
  pub tax_cents : ℕ
  pub tip_cents : ℕ
  pub total_cents : ℕ
  pub lines : List TabRow
  pub payments : List TabPayment

-- `recomputeOrderTotals`
unfoldable pub recompute_order_totals : Bool → Tab → Tab
recompute_order_totals inclusive t =
    let base = sum_by (λ (r : TabRow). r.line.total_cents) t.lines in
    let discount = sum_by (λ (r : TabRow). r.discount_cents) t.lines in
    let tax = sum_by (λ (r : TabRow). r.line.tax_cents) t.lines in
    record t {
      subtotal_cents = base + discount;
      discount_cents = discount;
      tax_cents = tax;
      total_cents = base + (if inclusive then 0 else tax) + t.tip_cents;
    }

-- `findFirst` of a line by its id.
unfoldable pub find_row : String → List TabRow → Option TabRow
find_row id [] = none
find_row id (r ∷ rs) = if str_eq r.line.id id then some r else find_row id rs

-- `updateMany` of the line with an id, which is unique.
unfoldable pub update_row : String → (TabRow → TabRow) → List TabRow → List TabRow
update_row id f [] = []
update_row id f (r ∷ rs) = if str_eq r.line.id id then f r ∷ rs else r ∷ update_row id f rs

-- `deleteMany` of the line with an id.
unfoldable pub delete_row : String → List TabRow → List TabRow
delete_row id [] = []
delete_row id (r ∷ rs) = if str_eq r.line.id id then rs else r ∷ delete_row id rs

abbrev pub with_quantity : ℕ → PricedLine → TabRow → TabRow
with_quantity n p r = record r {
  line = record r.line { total_cents = p.total_cents; tax_cents = p.tax_cents };
  quantity = n;
  discount_cents = p.discount_cents;
}

abbrev pub with_seat : Option ℕ → TabRow → TabRow
with_seat seat r = record r { line = record r.line { seat = seat } }

-- The condition of the update that settles: a planned line that no payment has settled.
abbrev pub is_due : List String → TabRow → Bool
is_due ids r = is_unsettled r.line && any (str_eq r.line.id) ids

abbrev pub settle_row : String → List String → TabRow → TabRow
settle_row payment_id ids r =
    if is_due ids r
    then record r { line = record r.line { settled_by_payment_id = some payment_id } }
    else r

abbrev pub is_open_row : TabRow → Bool
is_open_row r = is_unsettled r.line

abbrev pub same_table : String → String → Bool
same_table id t = str_eq t id

-- `orderTable.createMany` of one table with `skipDuplicates`.
abbrev pub add_table : String → List String → List String
add_table id tables = if any (same_table id) tables then tables else id ∷ tables

abbrev pub without_table : String → List String → List String
without_table id tables = filter (λ t. not (str_eq t id)) tables

-- What an action has computed when its transaction begins.
pub data Edit : Type 0 where
  append_lines : Bool → List TabRow → Edit
  put_quantity : Bool → String → ℕ → PricedLine → Edit
  drop_line : Bool → String → Edit
  put_seat : String → Option ℕ → Edit
  attach_table : String → Edit
  move_tables : String → String → Edit
  settle_lines : Bool → TabPayment → List String → ℕ → Edit

-- The tab with a payment for the lines with these ids.
unfoldable pub settled_tab : Bool → TabPayment → List String → ℕ → Tab → Tab
settled_tab inclusive payment ids tip t =
    let rows = map (settle_row payment.id ids) t.lines in
    recompute_order_totals inclusive (record t {
      payments = payment ∷ t.payments;
      lines = rows;
      tip_cents = t.tip_cents + tip;
      status = if length (filter is_open_row rows) == 0 then paid else t.status;
    })

-- The transaction of `settleTab`; `none` where it throws since a planned line was settled meanwhile.
unfoldable pub settle_lines_step : Bool → TabPayment → List String → ℕ → Tab → Option Tab
settle_lines_step inclusive payment ids tip t =
    if length (filter (is_due ids) t.lines) == length ids
    then some (settled_tab inclusive payment ids tip t)
    else none

-- The transaction of each action on the tab.
unfoldable pub edit_tab : Edit → Tab → Option Tab
edit_tab (append_lines inclusive rows) t =
    some (recompute_order_totals inclusive (record t { lines = t.lines ++ rows }))
edit_tab (put_quantity inclusive id n p) t = some (
    recompute_order_totals inclusive
      (record t { lines = update_row id (with_quantity n p) t.lines }))
edit_tab (drop_line inclusive id) t =
    some (recompute_order_totals inclusive (record t { lines = delete_row id t.lines }))
edit_tab (put_seat id seat) t = some (record t { lines = update_row id (with_seat seat) t.lines })
edit_tab (attach_table id) t = some (record t { tables = add_table id t.tables })
edit_tab (move_tables from_id to_id) t =
    some (record t { tables = add_table to_id (without_table from_id t.tables) })
edit_tab (settle_lines inclusive payment ids tip) t = settle_lines_step inclusive payment ids tip t
