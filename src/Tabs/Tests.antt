-- ===== src/Tabs/Tests.antt =====
-- Runs of the tab math, and its theorems at concrete inputs.
use Prim.Native.String.{String}
use valla_pos.Base.{
  ℕ, ◌+◌, ◌<◌, ◌≡◌, ◌↔◌, refl, Bool, true, false, none, some, List, [], ◌∷◌, map, length, sum_by,
  arith,
}
use valla_pos.Tabs.{
  TabLine, SeatGroup, group_by_seat, tab_totals, all_settled, Seats, chosen, planned,
  plan_settlement, pick_seats, line_amount_due, same_seat,
}
use valla_pos.Tabs.Groups.{group_by_seat-totals}
use valla_pos.Tabs.Settle.{covered, pay, plan_settlement_settles}

abbrev tab : List TabLine
tab =
    record {
      id = "l1";
      seat = some 1;
      total_cents = 500;
      tax_cents = 41;
      settled_by_payment_id = none;
    }
    ∷ record {
      id = "l2";
      seat = none;
      total_cents = 300;
      tax_cents = 25;
      settled_by_payment_id = none;
    }
    ∷ record {
      id = "l3";
      seat = some 2;
      total_cents = 250;
      tax_cents = 21;
      settled_by_payment_id = some "p0";
    }
    ∷ []

abbrev first_seat : Seats
first_seat = chosen (some 1 ∷ [])

plans : plan_settlement tab first_seat false ≡ planned ("l1" ∷ []) 541 false
unfolding plan_settlement pick_seats line_amount_due same_seat
plans = refl

group_by_seat-totals_example :
    let gs = group_by_seat tab false in
    let t = tab_totals tab false in
    (sum_by (λ (g : SeatGroup). g.subtotal_cents) gs ≡ t.subtotal_cents)
    × (sum_by (λ (g : SeatGroup). g.tax_cents) gs ≡ t.tax_cents)
    × (sum_by (λ (g : SeatGroup). g.amount_due_cents) gs ≡ t.amount_due_cents)
    × (sum_by (λ (g : SeatGroup). g.unsettled_amount_cents) gs ≡ t.remaining_cents)
group_by_seat-totals_example = group_by_seat-totals tab false

some_chosen : 0 < length (covered first_seat tab)
unfolding same_seat
some_chosen = omega arith

plan_settlement_settles_example :
    (ids : List String) × (amount : ℕ) × (closes_tab : Bool) × (plan_settlement tab first_seat false
      ≡ planned ids amount closes_tab)
    × (ids ≡ map (λ (l : TabLine). l.id) (covered first_seat tab))
    × ((tab_totals tab false).remaining_cents
        ≡ amount + (tab_totals (map (pay "p1" first_seat) tab) false).remaining_cents)
    × ((closes_tab ≡ true) ↔ (all_settled (map (pay "p1" first_seat) tab) ≡ true))
plan_settlement_settles_example = plan_settlement_settles "p1" tab first_seat false some_chosen
