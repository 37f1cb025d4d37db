-- ===== src/Orders/Refund/Tests.antt =====
-- Runs of the refund planning, and its theorems at concrete inputs.
use Prim.Native.String.{String}
use valla_pos.Base.{◌<◌, ◌⊎◌, ◌+◌, ◌≤◌, ◌≡◌, ◌↔◌, refl, Bool, false, List, [], ◌∷◌, ◌++◌, arith}
use valla_pos.Base.Int.{pos, ◌+ℤ◌, ◌≤ℤ◌, negsuc, pos_part}
use valla_pos.Money.Tests.{exact_fractions}
use valla_pos.Orders.Refund.{
  PaymentMovement, PartialRefundPlan, exceeds_net_collected, net_collected_by_method,
  net_collected_total, drop_settled, add_movements, add_net, refund_shares, give_cents, refs_from,
  has_room, add_cent, amount_not_positive, no_collected_payments, plan_full_reversal,
  plan_partial_refund,
}
use valla_pos.Orders.Refund.Net.{collected}
use valla_pos.Orders.Refund.Settle.{plan_full_reversal_settles}
use valla_pos.Orders.Refund.Partial.{
  given_back, reversed_cents, plan_partial_refund_exact, plan_partial_refund_refuses,
}

-- A collation that orders nothing, so that ties keep the map's order.
abbrev pub unordered : String → String → Bool
unordered a b = false

-- A sale paid in two parts, of which some cash was given back.
abbrev split_sale : List PaymentMovement
split_sale =
    record { method = "CASH"; amount_cents = pos 1000 }
    ∷ record { method = "STRIPE"; amount_cents = pos 500 }
    ∷ record { method = "CASH"; amount_cents = negsuc 299 }
    ∷ []

by_method : net_collected_by_method split_sale ≡ ("CASH", 700) ∷ ("STRIPE", 500) ∷ []
unfolding net_collected_by_method drop_settled add_movements add_net ◌+ℤ◌
by_method = refl

total : net_collected_total split_sale ≡ 1200
unfolding net_collected_total net_collected_by_method drop_settled add_movements add_net ◌+ℤ◌
total = refl

plans :
    plan_partial_refund exact_fractions unordered split_sale (pos 100)
    ≡ PartialRefundPlan.ok (
        record { method = "CASH"; amount_cents = negsuc 57 }
        ∷ record { method = "STRIPE"; amount_cents = negsuc 41 }
        ∷ [])
unfolding plan_partial_refund net_collected_by_method drop_settled add_movements add_net ◌+ℤ◌
    refund_shares give_cents refs_from has_room add_cent
plans = refl

plan_full_reversal_settles_example :
    (net_collected_total (split_sale ++ plan_full_reversal split_sale) ≡ 0)
    × (plan_full_reversal (split_sale ++ plan_full_reversal split_sale) ≡ [])
plan_full_reversal_settles_example = plan_full_reversal_settles split_sale

plan_partial_refund_exact_example :
    (rs : List PaymentMovement) × (plan_partial_refund exact_fractions unordered split_sale
        (pos 100)
      ≡ PartialRefundPlan.ok rs)
    × (reversed_cents rs ≡ 100)
    × ((m : String) → given_back m rs ≤ pos_part (collected m split_sale))
    × (net_collected_total (split_sale ++ rs) + 100 ≡ net_collected_total split_sale)
plan_partial_refund_exact_example =
    plan_partial_refund_exact exact_fractions unordered split_sale 100 (omega arith)
      (rw total (omega arith))

plan_partial_refund_refuses_example :
    (plan_partial_refund exact_fractions unordered split_sale (pos 1201)
      ≡ PartialRefundPlan.err exceeds_net_collected)
    ↔ (((exceeds_net_collected ≡ amount_not_positive) × (pos 1201 ≤ℤ pos 0))
        ⊎ ((exceeds_net_collected ≡ no_collected_payments)
            × (pos 1 ≤ℤ pos 1201)
            × (net_collected_total split_sale ≡ 0))
        ⊎ ((exceeds_net_collected ≡ exceeds_net_collected)
            × (pos 1 ≤ℤ pos 1201)
            × (0 < net_collected_total split_sale)
            × (pos (net_collected_total split_sale + 1) ≤ℤ pos 1201)))
plan_partial_refund_refuses_example =
    plan_partial_refund_refuses exact_fractions unordered split_sale (pos 1201)
      exceeds_net_collected
