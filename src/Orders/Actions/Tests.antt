-- ===== src/Orders/Actions/Tests.antt =====
-- Runs of the void and refund actions, and their theorems at concrete inputs.
use valla_pos.Base.{◌≡◌, refl, true, none, some, List, [], ◌∷◌}
use valla_pos.Base.Int.{pos, negsuc, ◌+ℤ◌, ◌-ℤ◌}
use valla_pos.Money.Tests.{exact_fractions}
use valla_pos.Inventory.{
  StockLine, is_tracked, restock_line, restock_lines, restock_order_lines, update_stock,
}
use valla_pos.Orders.Refund.{
  plan_partial_refund, net_collected_by_method, drop_settled, add_movements, add_net, refund_shares,
  give_cents, refs_from, add_cent, has_room, net_collected_total, plan_full_reversal,
}
use valla_pos.Base.Sort.{insert_by, sort_by}
use valla_pos.Orders.Refund.Tests.{unordered}
use valla_pos.Orders.Actions.{
  Payment, PaymentStatus, captured, Order, OrderStatus, paid, partially_refunded, voided, Shop,
  success, done, void_order, find_order, refund_found, has_prior_reversal, is_settled, is_paid,
  refund_partial, commit, drawer_ready, next_status, cash_refunded, manual_refunded, put_order,
  apply_reversal, is_refunded, ref_tag, tag_of, void_found, refund_order,
}
use valla_pos.Orders.Actions.Sound.{IsSound, void_order-IsSound, refund_order-IsSound}
use valla_pos.Orders.Actions.Idempotent.{refund_order-again_changes_nothing}

abbrev paid_in : Payment
paid_in = record {
  method = "CASH";
  status = captured;
  amount_cents = pos 900;
  processor_ref = none;
}

abbrev teas : List StockLine
teas = record { variation_id = some "tea"; quantity = 2 } ∷ []

abbrev sale : Order
sale = record { id = "o1"; status = paid; payments = paid_in ∷ []; lines = teas }

abbrev shop : Shop
shop = record {
  orders = sale ∷ [];
  variations = record { id = "tea"; stock = some (pos 3); track_stock = true } ∷ [];
  drawer_open = true;
}

abbrev given_back : Payment
given_back = record {
  method = "CASH";
  status = PaymentStatus.refunded;
  amount_cents = negsuc 299;
  processor_ref = some "refund:k";
}

abbrev voided_shop : Shop
voided_shop = record {
  orders =
      record sale {
        status = voided;
        payments =
            record paid_in { status = PaymentStatus.refunded }
            ∷ record {
              method = "CASH";
              status = PaymentStatus.refunded;
              amount_cents = negsuc 899;
              processor_ref = none;
            }
            ∷ [];
      }
      ∷ [];
  variations = record { id = "tea"; stock = some (pos 5); track_stock = true } ∷ [];
  drawer_open = true;
}

abbrev part_shop : Shop
part_shop = record shop {
  orders = record sale { status = partially_refunded; payments = paid_in ∷ given_back ∷ [] } ∷ [];
}

shop-IsSound : IsSound shop
unfolding is_settled
shop-IsSound = (λ h. absurd (cc), tt)

voids :
    void_order true "o1" none shop ≡ done (success voided (pos 900) (pos 900) (pos 0)) voided_shop
unfolding void_order find_order refund_found has_prior_reversal is_settled is_paid refund_partial
    commit drawer_ready next_status cash_refunded manual_refunded put_order apply_reversal
    is_refunded ref_tag tag_of void_found plan_partial_refund net_collected_by_method drop_settled
    add_movements add_net refund_shares give_cents refs_from add_cent has_room net_collected_total
    plan_full_reversal is_tracked restock_line restock_lines restock_order_lines update_stock
    insert_by sort_by ◌+ℤ◌ ◌-ℤ◌
voids = refl

refunds :
    refund_order exact_fractions unordered true "o1" (some (pos 300)) (some "k") shop
    ≡ done (success partially_refunded (pos 300) (pos 300) (pos 0)) part_shop
unfolding refund_order find_order refund_found has_prior_reversal is_settled is_paid refund_partial
    commit drawer_ready next_status cash_refunded manual_refunded put_order apply_reversal
    is_refunded ref_tag tag_of void_found plan_partial_refund net_collected_by_method drop_settled
    add_movements add_net refund_shares give_cents refs_from add_cent has_room net_collected_total
    plan_full_reversal is_tracked restock_line restock_lines restock_order_lines update_stock
    insert_by sort_by ◌+ℤ◌ ◌-ℤ◌
refunds = refl

void_order-IsSound_example : IsSound voided_shop
void_order-IsSound_example =
    void_order-IsSound true "o1" none shop voided_shop (success voided (pos 900) (pos 900) (pos 0))
      shop-IsSound voids

refund_order-IsSound_example : IsSound part_shop
refund_order-IsSound_example =
    refund_order-IsSound exact_fractions unordered true "o1" (some (pos 300)) (some "k") shop
      part_shop (success partially_refunded (pos 300) (pos 300) (pos 0)) shop-IsSound refunds

refund_order-again_changes_nothing_example :
    (st : OrderStatus) × (refund_order exact_fractions unordered true "o1"
        (some (pos 300))
        (some "k")
        part_shop
      ≡ done (success st (pos 0) (pos 0) (pos 0)) part_shop)
refund_order-again_changes_nothing_example =
    refund_order-again_changes_nothing exact_fractions unordered true "o1" (some (pos 300)) "k" shop
      part_shop partially_refunded (pos 300) (pos 300) (pos 0) refunds
