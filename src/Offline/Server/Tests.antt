-- ===== src/Offline/Server/Tests.antt =====
-- Replays against the server's `checkout`, and the theorem on them at one of these inputs.
use Prim.Native.String.{String}
use text.Mathlib.Text.{◌==◌ as str_eq}
use valla_pos.Base.{
  ◌<◌, ◌≡◌, inl, inr, refl, false, true, Bool, Option, none, some, [], ◌∷◌, if◌then◌else◌, arith,
}
use valla_pos.Base.Int.{◌+ℤ◌, ◌-ℤ◌}
use valla_pos.Base.Result.{traverse}
use valla_pos.Base.Sort.{insert_by, sort_by}
use valla_pos.Money.{tax_of, round_div}
use valla_pos.Money.Discount.{allocate_cart_discount}
use valla_pos.Money.Tests.{exact_fractions}
use valla_pos.Inventory.{apply_stock_decrements, decrement_line, update_stock}
use valla_pos.Staff.{can}
use valla_pos.Register.Pricing.{
  compute_priced_order, price_line, modifier_delta_of, retax, validate_group_selection,
  first_foreign, has_id,
}
use valla_pos.Register.Resolve.{
  row_of, resolve_order_lines, resolve_line, chosen_modifier, modifier_by_id, all_modifiers,
  validate_groups, trusted, line_clamped, name_snapshot_of, custom_modifiers_from,
}
use valla_pos.Register.Checkout.{
  CheckoutInput, Till, SnapshotLine, qr, find_sale, cashier_of, rung_at, markers, reference_of,
  approval_bypassed, gate, payment_of, note_of, prepare_sale, next_number, commit_sale, checkout,
  resolve_input, aligned_snapshot,
}
use valla_pos.Register.Checkout.Tests.{as_is, tag, same_pin, basket, ann, till}
use valla_pos.Offline.{
  Thrown, error, ReplayDeps, World, list_queued, remove_queued, is_operator_locked, put_dead,
  describe_error, move_to_dead_letter, caught, answered, replay_entry, replay_loop, run_replay,
}
use valla_pos.Offline.Kept.{IsKept, queued_count}
use valla_pos.Offline.Server.{
  Request, delivered, request_lost, IsRecorded, answer_of, dated_payload, send_checkout,
  real_replay_deps, replay-IsKept,
}

abbrev quoted_latte : SnapshotLine
quoted_latte = record { unit_price_cents = 450; modifier_deltas = none }

abbrev quoted_basket : CheckoutInput
quoted_basket = record basket {
  client_uuid = "k2";
  method = qr;
  price_snapshot = some (quoted_latte ∷ []);
}

abbrev unquoted_basket : CheckoutInput
unquoted_basket = record basket { method = qr }

abbrev read_envelope : String → Option CheckoutInput
read_envelope enc =
    if str_eq enc "x"
    then some basket
    else if str_eq enc "y"
    then some quoted_basket
    else if str_eq enc "u"
    then some unquoted_basket
    else none

abbrev no_answer : Thrown
no_answer = error "Error" "no answer"

-- Requests for the key "k2" are lost.
abbrev line : CheckoutInput → Till → Request
line p s = record {
  granted = some ann;
  now = 99;
  new_id = "o1";
  delivery = if str_eq p.client_uuid "k2" then request_lost no_answer else delivered;
  server_error = no_answer;
}

abbrev never : Thrown → Bool
never err = false

abbrev wired : ReplayDeps CheckoutInput Till
wired = real_replay_deps exact_fractions as_is tag same_pin "b" line read_envelope never 99

abbrev device : World Till
device = record {
  queue =
      record { client_uuid = "k1"; enc = "x"; queued_at = 20; attempts = 0 }
      ∷ record { client_uuid = "k2"; enc = "y"; queued_at = 10; attempts = 4 }
      ∷ record { client_uuid = "k3"; enc = "z"; queued_at = 30; attempts = 0 }
      ∷ [];
  dead = [];
  server = till;
}

queued : 0 < queued_count "k2" device.queue
queued = omega arith

replay-IsKept_example : IsKept IsRecorded "k2" (run_replay wired true device).1
replay-IsKept_example =
    replay-IsKept exact_fractions as_is tag same_pin "b" line read_envelope never 99 "k2" true
      device ((refl, inl refl), ((refl, inr (quoted_latte ∷ [], refl)), (tt, tt))) (inl queued)

replays :
    (run_replay wired true device).0
    ≡ record { committed = 1; dead_lettered = 2; pending = 0; needs_reconciliation = 2 }
unfolding run_replay replay_loop replay_entry answered caught move_to_dead_letter put_dead
    remove_queued list_queued sort_by insert_by is_operator_locked describe_error real_replay_deps
    dated_payload send_checkout answer_of checkout gate find_sale prepare_sale resolve_input
    aligned_snapshot resolve_order_lines resolve_line row_of traverse chosen_modifier modifier_by_id
    all_modifiers validate_groups validate_group_selection first_foreign has_id trusted line_clamped
    name_snapshot_of custom_modifiers_from compute_priced_order price_line modifier_delta_of retax
    allocate_cart_discount tax_of round_div payment_of cashier_of rung_at markers approval_bypassed
    reference_of note_of commit_sale apply_stock_decrements decrement_line update_stock next_number
    ◌+ℤ◌ ◌-ℤ◌
replays = refl

abbrev legacy_device : World Till
legacy_device = record {
  queue = record { client_uuid = "k1"; enc = "u"; queued_at = 20; attempts = 0 } ∷ [];
  dead = [];
  server = till;
}

-- Without the quoted prices, the server rejects a sale by QR that no manager approved, and the replay
-- counts it as committed and removes it.
rejection_removes : run_replay wired true legacy_device ≡ (
  record { committed = 1; dead_lettered = 0; pending = 0; needs_reconciliation = 0 },
  record { queue = []; dead = []; server = till },
)
unfolding run_replay replay_loop replay_entry answered remove_queued list_queued sort_by insert_by
    real_replay_deps dated_payload send_checkout answer_of checkout find_sale gate can
rejection_removes = refl
