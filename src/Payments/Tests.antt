-- ===== src/Payments/Tests.antt =====
-- Runs of the QR sale rail, and its theorems at concrete inputs.
use Prim.Native.String.{String}
use valla_pos.Base.{◌≡◌, refl, true, false, none, some, List, [], ◌∷◌, arith}
use valla_pos.Base.Int.{pos, ◌+ℤ◌, ◌-ℤ◌}
use valla_pos.Orders.Actions.{OrderStatus}
use valla_pos.Inventory.{is_tracked, apply_stock_decrements, decrement_line, update_stock}
use valla_pos.Payments.{
  awaiting, captured, SessionRow, QrOrder, Rail, SaleSettlement, was_captured, already_settled,
  find_session_row, flip, is_foreign, currency_matches, amount_matches, lines_of_order,
  order_stock_lines, capture_row, capture_qr_sale, transition_open,
}
use valla_pos.Payments.Settled.{IsSettled, Event, expire, capture, handle, handle-IsSettled}
use valla_pos.Payments.Final.{handle_all, is_capture, captured_once}

abbrev same_case : String → String
same_case s = s

abbrev session : SessionRow
session = record {
  id = "s1";
  order_id = "o1";
  client_uuid = "k1";
  stripe_session_id = "cs_1";
  stripe_account_id = "acct_1";
  amount_cents = 1183;
  currency = "USD";
  status = awaiting;
  payment_id = none;
}

abbrev sale_order : QrOrder
sale_order = record {
  id = "o1";
  status = OrderStatus.open_tab;
  lines = record { variation_id = some "tea"; quantity = 2 } ∷ [];
}

abbrev rail : Rail
rail = record {
  sessions = session ∷ [];
  orders = sale_order ∷ [];
  payments = [];
  stock = record { id = "tea"; stock = some (pos 3); track_stock = true } ∷ [];
}

abbrev signal : SaleSettlement
signal = record {
  stripe_session_id = "cs_1";
  amount_total = some 1183;
  currency = some "USD";
  payment_intent_id = some "pi_1";
  card_brand = none;
  card_last4 = none;
}

abbrev settled_rail : Rail
settled_rail = record {
  sessions = record session { status = captured; payment_id = some "p1" } ∷ [];
  orders = record sale_order { status = OrderStatus.paid } ∷ [];
  payments =
      record {
        id = "p1";
        order_id = "o1";
        amount_cents = 1183;
        processor_ref = some "pi_1";
        card_brand = none;
        card_last4 = none;
      }
      ∷ [];
  stock = record { id = "tea"; stock = some (pos 1); track_stock = true } ∷ [];
}

captures :
    capture_qr_sale same_case "p1" signal (some "acct_1") rail
    ≡ some (was_captured "p1" "o1", settled_rail)
unfolding capture_qr_sale find_session_row is_foreign amount_matches currency_matches capture_row
    flip lines_of_order order_stock_lines is_tracked apply_stock_decrements decrement_line
    update_stock ◌+ℤ◌ ◌-ℤ◌
captures = refl

handle-IsSettled_example : IsSettled (handle same_case (capture "p1" signal (some "acct_1")) rail)
handle-IsSettled_example =
    handle-IsSettled same_case (capture "p1" signal (some "acct_1")) rail (λ id. ground arith) refl

-- The session expires too late, and the webhook is delivered again.
abbrev late : List Event
late = expire signal (some "acct_1") ∷ []

captures_again :
    capture_qr_sale same_case "p2" signal (some "acct_1") (handle_all same_case late settled_rail)
    ≡ some (already_settled, handle_all same_case late settled_rail)
unfolding capture_qr_sale find_session_row is_foreign amount_matches currency_matches capture_row
    flip transition_open
captures_again = refl

unchanged : handle_all same_case late settled_rail ≡ settled_rail
unfolding transition_open find_session_row is_foreign flip
unchanged = refl

captured_once_example :
    ((handle_all same_case late settled_rail).payments
      ≡ (handle_all same_case late settled_rail).payments)
    × (is_capture already_settled ≡ false)
captured_once_example =
    captured_once same_case "p1" signal (some "acct_1") "p1" "o1" rail settled_rail late "p2" signal
      (some "acct_1") already_settled (handle_all same_case late settled_rail) (λ id. ground arith)
      (rw unchanged (λ id. ground arith)) captures refl captures_again
