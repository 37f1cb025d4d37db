-- ===== src/Register/Checkout/Tests.antt =====
-- Runs of the checkout, and its theorems at concrete inputs.
use Prim.Native.String.{String}
use valla_pos.Base.{
  ℕ, ◌≡◌, refl, Bool, true, false, none, some, List, [], ◌∷◌, sum_by, zip_with, length, arith,
}
use valla_pos.Base.Int.{pos, ◌+ℤ◌, ◌-ℤ◌}
use valla_pos.Base.Result.{ok, traverse, Pointwise}
use valla_pos.Money.{tax_of, round_div}
use valla_pos.Money.Discount.{allocate_cart_discount}
use valla_pos.Money.Tests.{exact_fractions}
use valla_pos.Inventory.{apply_stock_decrements, decrement_line, update_stock}
use valla_pos.Staff.{cashier, manager, can}
use valla_pos.PinThrottle.{
  get, delete, key, approval_key, read_mem, assert_key_not_locked, assert_approval_not_locked,
  record_key_success, record_success, record_approval_success,
}
use valla_pos.Register.Pricing.{
  compute_priced_order, price_line, modifier_delta_of, retax, validate_group_selection,
  first_foreign, has_id,
}
use valla_pos.Register.Resolve.{
  CatalogRow, LineInput, ModifierGroup, ResolvedLine, row_of, resolve_order_lines, resolve_line,
  chosen_modifier, modifier_by_id, all_modifiers, validate_groups, trusted, line_clamped,
  name_snapshot_of, custom_modifiers_from,
}
use valla_pos.Register.Resolve.Prices.{IsFair, resolve_order_lines-IsFair}
use valla_pos.Register.Approval.{
  Member, approve_unverified_tender, is_candidate, first_match, verify_manager_approval,
}
use valla_pos.Register.Approval.Denial.{Approver}
use valla_pos.Register.Checkout.{
  CheckoutInput, Operator, Till, Receipt, cash, qr, receipt, Sale, SalePayment, SoldLine,
  StoredSale, to_receipt, sold_line, find_sale, cashier_of, rung_at, markers, reference_of,
  approval_bypassed, gate, payment_of, note_of, prepare_sale, next_number, commit_sale, checkout,
  resolve_input, aligned_snapshot,
}
use valla_pos.Register.Checkout.Once.{ledger_of, post, commit_sale-refines}
use valla_pos.Register.Checkout.Again.{Run, here, next, committed, elsewhere, checkout-again}
use valla_pos.Register.Checkout.Keys.{IsKeyed, commit_sale-IsKeyed}
use valla_pos.Register.Checkout.Gate.{checkout-gated}
use valla_pos.Register.Checkout.Books.{
  IsPaid, IsListPriced, priced_for, prepare_sale_lem, prepare_sale-online,
}

abbrev pub as_is : String → String
as_is s = s

abbrev pub tag : ℕ → String
tag n = "0"

abbrev pub same_pin : String → String → Bool
same_pin pin hash = true

abbrev milks : ModifierGroup
milks = record {
  id = "milk";
  min_select = 1;
  max_select = 2;
  modifiers = record { id = "oat"; name = "Oat milk"; price_delta_cents = 75 } ∷ [];
}

abbrev latte : CatalogRow
latte = record {
  id = "l1";
  name = "Default";
  price_cents = 450;
  item_name = "Latte";
  track_stock = true;
  groups = milks ∷ [];
}

abbrev two_lattes : LineInput
two_lattes = record {
  variation_id = "l1";
  quantity = 2;
  line_discount_cents = some 50;
  modifier_ids = some ("oat" ∷ []);
  custom_modifiers = none;
  price_override = none;
}

abbrev pub basket : CheckoutInput
basket = record {
  client_uuid = "k1";
  lines = two_lattes ∷ [];
  tip_cents = 100;
  cart_discount_cents = 0;
  method = cash;
  cash_tendered_cents = 2000;
  manual_note = none;
  manager_pin = none;
  customer_name = none;
  price_snapshot = none;
  offline_cashier_id = none;
  offline_queued_at = none;
}

abbrev pub ann : Operator
ann = record { membership_id = "ann"; role = cashier; permissions = [] }

abbrev pub till : Till
till = record {
  sales = [];
  counter = none;
  stock = record { id = "l1"; stock = some (pos 3); track_stock = true } ∷ [];
  catalog = latte ∷ [];
  members = [];
  tax_rate_bps = 825;
  tax_inclusive = false;
  throttle = [];
}

abbrev drink : ResolvedLine
drink = record {
  variation_id = "l1";
  unit_price_cents = 450;
  quantity = 2;
  line_discount_cents = 50;
  modifiers = record { id = "oat"; name_snapshot = "Oat milk"; price_delta_cents = 75 } ∷ [];
  name_snapshot = "Latte";
  track_stock = true;
}

abbrev drink_sold : SoldLine
drink_sold = record {
  variation_id = "l1";
  name_snapshot = "Latte";
  unit_price_cents = 450;
  quantity = 2;
  discount_cents = 50;
  tax_cents = 83;
  total_cents = 1000;
  modifiers = record { name_snapshot = "Oat milk"; price_delta_cents = 75 } ∷ [];
}

abbrev pub sold : Sale
sold = record {
  client_uuid = "k1";
  cashier_id = "ann";
  created_at = none;
  customer_name = none;
  subtotal_cents = 1050;
  discount_cents = 50;
  tax_cents = 83;
  tip_cents = 100;
  total_cents = 1183;
  lines = drink_sold ∷ [];
  payment = record {
    method = cash;
    amount_cents = 1183;
    tendered_cents = some 2000;
    change_cents = some 817;
    processor_ref = none;
  };
  decrements = record { variation_id = "l1"; quantity = 2; track_stock = true } ∷ [];
}

abbrev sold_row : StoredSale
sold_row = record { id = "o1"; number = 1; sale = sold }

abbrev pub after : Till
after = record till {
  sales = sold_row ∷ [];
  counter = some 1;
  stock = record { id = "l1"; stock = some (pos 1); track_stock = true } ∷ [];
}

abbrev slip : Receipt
slip = to_receipt sold_row

resolves : resolve_order_lines as_is tag (latte ∷ []) (two_lattes ∷ []) ≡ ok (drink ∷ [], false)
unfolding resolve_order_lines resolve_line row_of traverse chosen_modifier modifier_by_id
    all_modifiers validate_groups validate_group_selection first_foreign has_id trusted line_clamped
    name_snapshot_of custom_modifiers_from
resolves = refl

prepares : prepare_sale exact_fractions as_is tag basket ann 5 till ≡ some sold
unfolding prepare_sale resolve_input aligned_snapshot resolve_order_lines resolve_line row_of
    traverse chosen_modifier modifier_by_id all_modifiers validate_groups validate_group_selection
    first_foreign has_id trusted line_clamped name_snapshot_of custom_modifiers_from
    compute_priced_order price_line modifier_delta_of retax allocate_cart_discount tax_of round_div
    payment_of cashier_of rung_at markers approval_bypassed reference_of note_of
prepares = refl

commits : commit_sale "o1" sold till ≡ (receipt slip, after)
unfolding commit_sale find_sale apply_stock_decrements decrement_line update_stock next_number ◌+ℤ◌
    ◌-ℤ◌
commits = refl

checks_out :
    checkout exact_fractions as_is tag same_pin "b" basket (some ann) 5 "o1" till
    ≡ (receipt slip, after)
unfolding checkout gate find_sale prepare_sale resolve_input aligned_snapshot resolve_order_lines
    resolve_line row_of traverse chosen_modifier modifier_by_id all_modifiers validate_groups
    validate_group_selection first_foreign has_id trusted line_clamped name_snapshot_of
    custom_modifiers_from compute_priced_order price_line modifier_delta_of retax
    allocate_cart_discount tax_of round_div payment_of cashier_of rung_at markers approval_bypassed
    reference_of note_of commit_sale apply_stock_decrements decrement_line update_stock next_number
    ◌+ℤ◌ ◌-ℤ◌
checks_out = refl

resolve_order_lines-IsFair_example :
    Pointwise (IsFair as_is tag (latte ∷ [])) (two_lattes ∷ []) (drink ∷ [])
resolve_order_lines-IsFair_example =
    resolve_order_lines-IsFair as_is tag (latte ∷ []) (two_lattes ∷ []) (drink ∷ []) false resolves

prepare_sale_lem_example :
    (sum_by (λ (l : SoldLine). l.tax_cents) sold.lines ≡ sold.tax_cents)
    × IsPaid basket sold.total_cents sold.payment
    × ((ls : List ResolvedLine) × Pointwise
          (IsFair as_is tag till.catalog)
          (resolve_input basket)
          ls
        × (sold.lines
            ≡ zip_with sold_line ls (priced_for exact_fractions as_is tag basket till ls).lines)
        × (length (priced_for exact_fractions as_is tag basket till ls).lines ≡ length ls))
prepare_sale_lem_example =
    prepare_sale_lem exact_fractions as_is tag basket ann 5 till sold prepares

prepare_sale-online_example : Pointwise (IsListPriced till.catalog) basket.lines sold.lines
prepare_sale-online_example =
    prepare_sale-online exact_fractions as_is tag basket ann 5 till sold refl (refl, tt) prepares

commit_sale-refines_example :
    (ledger_of after "k1" ≡ some slip)
    × ((u : String) → ledger_of after u ≡ post "k1" slip (ledger_of till) u)
commit_sale-refines_example = commit_sale-refines "o1" sold till after slip commits

abbrev other_basket : CheckoutInput
other_basket = record basket { tip_cents = 0 }

abbrev next_sale : Sale
next_sale = record sold { client_uuid = "k2" }

abbrev next_row : StoredSale
next_row = record { id = "o3"; number = 2; sale = next_sale }

abbrev restocked : Till
restocked = record after {
  stock = record { id = "l1"; stock = some (pos 9); track_stock = true } ∷ [];
  tax_rate_bps = 900;
}

abbrev much_later : Till
much_later = record restocked {
  sales = next_row ∷ sold_row ∷ [];
  counter = some 2;
  stock = record { id = "l1"; stock = some (pos 7); track_stock = true } ∷ [];
}

-- The next sale is prepared before the restocking and committed after it.
meanwhile : Run exact_fractions as_is tag same_pin "b" after much_later
unfolding commit_sale find_sale apply_stock_decrements decrement_line update_stock next_number ◌+ℤ◌
    ◌-ℤ◌
meanwhile =
    next (next here (elsewhere restocked.stock (latte ∷ []) [] 900 false []))
      (committed {s = restocked} "o3" next_sale)

checkout-again_example :
    checkout exact_fractions as_is tag same_pin "b" other_basket (some ann) 9 "o2" much_later
    ≡ (receipt slip, much_later)
checkout-again_example =
    checkout-again exact_fractions as_is tag same_pin "b" basket (some ann) 5 "o1" till after
      much_later slip other_basket ann 9 "o2" checks_out meanwhile refl

commit_sale-IsKeyed_example : IsKeyed after
commit_sale-IsKeyed_example =
    commit_sale-IsKeyed "o1" sold till after slip
      (record { one_each = λ u. omega arith; numbered = tt }) commits

abbrev bob : Member
bob = record {
  id = "bob";
  role = manager;
  permissions = "approve_unverified_tender" ∷ [];
  active = true;
  pin_hash = some "h";
}

abbrev by_qr : CheckoutInput
by_qr = record basket { method = qr; manager_pin = some "1234" }

abbrev staffed : Till
staffed = record till { members = bob ∷ [] }

abbrev qr_payment : SalePayment
qr_payment = record {
  method = qr;
  amount_cents = 1183;
  tendered_cents = none;
  change_cents = none;
  processor_ref = none;
}

abbrev row_by_qr : StoredSale
row_by_qr = record sold_row { sale = record sold { payment = qr_payment } }

approved :
    checkout exact_fractions as_is tag same_pin "b" by_qr (some ann) 5 "o1" staffed
    ≡ (receipt (to_receipt row_by_qr), record after { members = bob ∷ []; sales = row_by_qr ∷ [] })
unfolding checkout gate find_sale prepare_sale resolve_input aligned_snapshot resolve_order_lines
    resolve_line row_of traverse chosen_modifier modifier_by_id all_modifiers validate_groups
    validate_group_selection first_foreign has_id trusted line_clamped name_snapshot_of
    custom_modifiers_from compute_priced_order price_line modifier_delta_of retax
    allocate_cart_discount tax_of round_div payment_of cashier_of rung_at markers approval_bypassed
    reference_of note_of commit_sale apply_stock_decrements decrement_line update_stock next_number
    ◌+ℤ◌ ◌-ℤ◌ can verify_manager_approval assert_approval_not_locked assert_key_not_locked read_mem
    get first_match is_candidate record_success record_approval_success record_key_success delete
    key approval_key
approved = refl

may_not : can cashier [] approve_unverified_tender ≡ false
unfolding can
may_not = refl

checkout-gated_example :
    (pin : String) × (by_qr.manager_pin ≡ some pin) × Approver same_pin pin staffed.members
unfolding find_sale
checkout-gated_example =
    checkout-gated same_pin "b" exact_fractions as_is tag by_qr ann 5 "o1" staffed
      (record after { members = bob ∷ []; sales = row_by_qr ∷ [] }) (to_receipt row_by_qr) refl refl
      may_not refl approved
