-- ===== src/Tabs/Actions/Tests.antt =====
-- Runs of the actions on tabs, and their theorems at concrete inputs.
use valla_pos.Base.{◌≡◌, refl, true, false, none, some, [], ◌∷◌, filter, length, arith, inl}
use valla_pos.Base.Result.{ok}
use valla_pos.Money.Tests.{exact_fractions}
use valla_pos.Orders.Actions.{OrderStatus}
use valla_pos.Staff.{cashier}
use valla_pos.Register.Checkout.{Operator, cash, next_number}
use valla_pos.Register.Checkout.Tests.{as_is, tag, same_pin}
use valla_pos.Tabs.{TabLine, all, line_amount_due, plan_settlement, pick_seats}
use valla_pos.Tabs.Settle.{covered}
use valla_pos.Tabs.Edits.{
  Tab, TabRow, TabPayment, is_due, settled_tab, settle_lines_step, edit_tab, recompute_order_totals,
}
use valla_pos.Tabs.Edits.Balance.{IsBalanced, ids_of, settle_lines_step-IsBalanced}
use valla_pos.Tabs.Actions.{
  Floor, SettleInput, SettleResult, settled, seats_of, fresh_tab, find_tab, put_tab,
  load_open_order, is_occupied, open_tab, commit_edit, settle_gate, prepare_settle, settle_tab,
}
use valla_pos.Tabs.Actions.Sound.{IsSoundFloor, Run, here, next, opened, Run-IsSound}
use valla_pos.Tabs.Actions.Occupied.{IsSeated, Run-IsSeated}
use valla_pos.Tabs.Actions.Settled.{IsSettlement, settle_tab_lem}

abbrev tea_line : TabLine
tea_line = record {
  id = "l1";
  seat = none;
  total_cents = 1000;
  tax_cents = 83;
  settled_by_payment_id = none;
}

abbrev tea : TabRow
tea = record {
  line = tea_line;
  variation_id = "tea";
  name_snapshot = "Tea";
  unit_price_cents = 500;
  quantity = 2;
  discount_cents = 0;
  modifiers = [];
}

abbrev cake : TabRow
cake = record tea {
  line = record tea_line { id = "l2"; total_cents = 500; tax_cents = 41 };
  quantity = 1;
}

abbrev tab : Tab
tab = record (fresh_tab "o1" 1 "ann" "t1") { lines = tea ∷ cake ∷ [] }

-- The settlement was planned when the tea was the only line.
abbrev for_tea : TabPayment
for_tea = record {
  id = "p1";
  method = cash;
  amount_cents = 1183;
  tendered_cents = some 2000;
  change_cents = 817;
}

abbrev tea_paid : Tab
tea_paid = record tab {
  subtotal_cents = 1500;
  discount_cents = 0;
  tax_cents = 124;
  tip_cents = 100;
  total_cents = 1724;
  lines = record tea { line = record tea_line { settled_by_payment_id = some "p1" } } ∷ cake ∷ [];
  payments = for_tea ∷ [];
}

settles :
    settle_lines_step false for_tea (ids_of (covered all (tea_line ∷ []))) 100 tab ≡ some tea_paid
unfolding settle_lines_step settled_tab recompute_order_totals
settles = refl

settle_lines_step-IsBalanced_example :
    IsBalanced false tea_paid
    × (length (filter (is_due (ids_of (covered all (tea_line ∷ [])))) tab.lines)
        ≡ length (covered all (tea_line ∷ [])))
unfolding line_amount_due
settle_lines_step-IsBalanced_example =
    settle_lines_step-IsBalanced false all (tea_line ∷ []) for_tea 100 tab tea_paid (tt, tt)
      (refl, refl, inl refl, (refl, tt)) refl refl settles

abbrev more_tea : TabRow
more_tea = record tea {
  line = record tea_line { total_cents = 1500; tax_cents = 124 };
  quantity = 3;
}

-- The quantity of the tea was raised after the settlement was planned, and before its transaction.
abbrev raised : Tab
raised = record tab { lines = more_tea ∷ [] }

abbrev raised_paid : Tab
raised_paid = record raised {
  status = OrderStatus.paid;
  subtotal_cents = 1500;
  tax_cents = 124;
  tip_cents = 100;
  total_cents = 1724;
  lines =
      record more_tea {
        line = record tea_line {
          total_cents = 1500;
          tax_cents = 124;
          settled_by_payment_id = some "p1";
        };
      }
      ∷ [];
  payments = for_tea ∷ [];
}

-- The guard does not notice: the tab is closed as paid with a total of 1724 and one payment of 1183.
closes_underpaid : settle_lines_step false for_tea ("l1" ∷ []) 100 raised ≡ some raised_paid
unfolding settle_lines_step settled_tab recompute_order_totals
closes_underpaid = refl

abbrev floor : Floor
floor = record {
  tables = "t1" ∷ [];
  tabs = [];
  counter = none;
  catalog = [];
  members = [];
  tax_rate_bps = 825;
  tax_inclusive = false;
  throttle = [];
}

abbrev ann : Operator
ann = record { membership_id = "ann"; role = cashier; permissions = [] }

abbrev seated_floor : Floor
seated_floor = record floor { tabs = fresh_tab "o1" 1 "ann" "t1" ∷ []; counter = some 1 }

opens : open_tab "o1" (some ann) "t1" floor ≡ ok ("o1", seated_floor)
unfolding open_tab is_occupied next_number
opens = refl

run : Run exact_fractions as_is tag same_pin "b" floor seated_floor
run = next here (tt, λ id. omega arith) (opened "o1" (some ann) "t1" "o1" opens)

Run-IsSound_example : IsSoundFloor seated_floor
Run-IsSound_example = Run-IsSound exact_fractions as_is tag same_pin "b" tt run

Run-IsSeated_example : IsSeated seated_floor
Run-IsSeated_example =
    Run-IsSeated exact_fractions as_is tag same_pin "b" (λ table. omega arith) run

abbrev tab_floor : Floor
tab_floor = record floor { tabs = tab ∷ [] }

abbrev whole_tab : SettleInput
whole_tab = record {
  order_id = "o1";
  seats = none;
  tip_cents = 100;
  method = cash;
  cash_tendered_cents = 2000;
  manager_pin = none;
}

abbrev answer : SettleResult
answer = record { amount_cents = 1624; tip_cents = 100; change_cents = 276; closed = true }

abbrev whole_payment : TabPayment
whole_payment = record {
  id = "p2";
  method = cash;
  amount_cents = 1724;
  tendered_cents = some 2000;
  change_cents = 276;
}

abbrev tab_paid : Tab
tab_paid = settled_tab false whole_payment ("l1" ∷ "l2" ∷ []) 100 tab

pays :
    settle_tab same_pin "b" "p2" whole_tab (some ann) 5 tab_floor
    ≡ (settled answer, record tab_floor { tabs = tab_paid ∷ [] })
unfolding settle_tab settle_gate prepare_settle load_open_order find_tab seats_of plan_settlement
    pick_seats line_amount_due commit_edit edit_tab settle_lines_step settled_tab put_tab
    recompute_order_totals
pays = refl

settle_tab_lem_example :
    (t : Tab) × (t' : Tab) × (find_tab "o1" tab_floor.tabs ≡ some t)
    × (find_tab "o1" (tab_paid ∷ []) ≡ some t')
    × (t.status ≡ OrderStatus.open_tab)
    × IsSettlement false whole_tab answer t t'
settle_tab_lem_example =
    settle_tab_lem same_pin "b" "p2" whole_tab (some ann) 5 answer tab_floor
      (record tab_floor { tabs = tab_paid ∷ [] }) ((((refl, tt), (tt, tt)), tt), λ id. ground arith)
      pays
