-- ===== src/Tabs/Actions/Prepared.antt =====
-- What the actions prepare is safe on the tab that they read.
use Prim.Native.String.{String}
use valla_pos.Base.{
  ◌⊎◌, ℕ, ◌+◌, ◌≡◌, refl, Bool, true, false, Option, some, List, [], ◌∷◌, map, filter, sum_by,
  length, All, inl, inr, Bool-cases, Option-cases, arith, ltb, ◌==◌, ◌&&◌,
}
use valla_pos.Base.Result.{Result, ok, Result-cases}
use valla_pos.Money.Discount.{Fractions}
use valla_pos.Register.Pricing.{PricedLine, compute_priced_order, price_line}
use valla_pos.Register.Resolve.{LineInput, ResolvedLine, money_line, resolve_order_lines}
use valla_pos.Register.Checkout.{is_cash}
use valla_pos.Tabs.{
  TabLine, Seats, SettlementPlan, SettlementError, planned, refused, plan_settlement, pick_seats,
  is_unsettled,
}
use valla_pos.Tabs.Settle.{covered, due, pick_seats-covered}
use valla_pos.Tabs.Edits.{
  Tab, TabRow, Edit, find_row, attach_table, move_tables, drop_line, put_seat, append_lines,
  put_quantity, settle_lines,
}
use valla_pos.Tabs.Edits.Balance.{ids_of}
use valla_pos.Tabs.Edits.Unpaid.{IsSafe, IsUnpaid, lines_of}
use valla_pos.Tabs.Edits.Totals.{IsUnder}
use valla_pos.Tabs.Actions.{
  Floor, TabError, SettleInput, tab_payment, seats_of, find_tab, is_open, load_open_order,
  load_unpaid_row, created_rows, as_modifiers, tab_options, prepare_merge, prepare_transfer,
  prepare_add, prepare_quantity, prepare_remove, prepare_seat, prepare_settle,
}

-- The requests other than opening and settling a tab.
pub data Request : Type 0 where
  merge : String → Request
  transfer : String → String → Request
  add : (ℕ → String) → Option ℕ → List LineInput → Request
  quantity : String → ℕ → Request
  remove : String → Request
  reseat : String → Option ℕ → Request

load_open_order-found :
    (id : String) (s : Floor) (t : Tab)
    → load_open_order id s ≡ ok t
    → (find_tab id s.tabs ≡ some t) × (is_open t ≡ true)
unfolding load_open_order
load_open_order-found id s t h = elim (Option-cases (find_tab id s.tabs)) [
  | inl e ↦ absurd (ground arith)
  | inr (x, e) ↦ elim (Bool-cases (is_open x)) [
    | inl o ↦
        let found : ◌≡◌ {A = Result TabError Tab} (ok x) (ok t) = rw (e, o, load_open_order) at h in
        let same : x ≡ t = cc in (rw same at e, rw same at o)
    | inr o ↦ absurd (ground arith)
  ]
]

created-unsettled :
    (new_ids : ℕ → String) (seat : Option ℕ) (i : ℕ) (ls : List ResolvedLine) (ps : List PricedLine)
    → All (λ (r : TabRow). is_unsettled r.line ≡ true) (created_rows new_ids seat i ls ps)
unfolding created_rows
created-unsettled new_ids seat i [] ps = tt
created-unsettled new_ids seat i (l ∷ ls) [] = tt
created-unsettled new_ids seat i (l ∷ ls) (p ∷ ps) =
    (refl, created-unsettled new_ids seat (i + 1) ls ps)

load_unpaid_row-IsUnpaid :
    (order_id line_id : String) (s : Floor) (r : TabRow)
    → load_unpaid_row order_id line_id s ≡ ok r
    → (t : Tab) × (find_tab order_id s.tabs ≡ some t) × IsUnpaid (find_row line_id t.lines)
unfolding load_unpaid_row
load_unpaid_row-IsUnpaid order_id line_id s r h = elim (Result-cases (load_open_order order_id s)) [
  | inr (e, f) ↦ absurd (ground arith)
  | inl (t, f) ↦ elim (Option-cases (find_row line_id t.lines)) [
    | inl g ↦ absurd (ground arith)
    | inr (x, g) ↦
        let unpaid : is_unsettled x.line ≡ true = ground arith in
        (t, (load_open_order-found order_id s t f).0, rw g unpaid)
  ]
]

-- A tab that an edit is for, on which it is safe and under the current tax setting.
abbrev pub IsFor : String → Floor → Edit → Type 0
IsFor order_id s e =
    (t : Tab) × (find_tab order_id s.tabs ≡ some t)
    × IsSafe s.tax_inclusive e t
    × IsUnder s.tax_inclusive e

module _ (fr : Fractions) (trim : String → String) (notation : ℕ → String) where
  abbrev pub prepare : String → Request → Floor → Result TabError Edit
  prepare order_id (merge table) s = prepare_merge order_id table s
  prepare order_id (transfer from_table to_table) s =
      prepare_transfer order_id from_table to_table s
  prepare order_id (add new_ids seat lines) s =
      prepare_add fr trim notation new_ids order_id seat lines s
  prepare order_id (quantity line_id n) s = prepare_quantity notation order_id line_id n s
  prepare order_id (remove line_id) s = prepare_remove order_id line_id s
  prepare order_id (reseat line_id seat) s = prepare_seat order_id line_id seat s

  pub prepare-IsFor :
      (order_id : String) (q : Request) (s : Floor) (e : Edit)
      → prepare order_id q s ≡ ok e
      → IsFor order_id s e
  unfolding prepare_merge prepare_transfer prepare_add prepare_quantity prepare_remove prepare_seat
  prepare-IsFor order_id (merge table) s e h = elim (Result-cases (load_open_order order_id s)) [
    | inr (x, f) ↦ absurd (ground arith)
    | inl (t, f) ↦
        let is : e ≡ attach_table table = ground arith in
        rw is (t, (load_open_order-found order_id s t f).0, tt, tt)
  ]
  prepare-IsFor order_id (transfer from_table to_table) s e h =
      elim (Result-cases (load_open_order order_id s)) [
        | inr (x, f) ↦ absurd (ground arith)
        | inl (t, f) ↦
            let is : e ≡ move_tables from_table to_table = ground arith in
            rw is (t, (load_open_order-found order_id s t f).0, tt, tt)
      ]
  prepare-IsFor order_id (add new_ids seat lines) s e h =
      elim (Result-cases (load_open_order order_id s)) [
        | inr (x, f) ↦ absurd (ground arith)
        | inl (t, f) ↦ elim (Result-cases (resolve_order_lines trim notation s.catalog lines)) [
          | inr (x, g) ↦ absurd (ground arith)
          | inl ((ls, clamped), g) ↦
              let ps = (compute_priced_order fr (map money_line ls) (tab_options s)).lines in
              let is : e ≡ append_lines s.tax_inclusive (created_rows new_ids seat 0 ls ps) =
                ground arith in
              rw is (
                t,
                (load_open_order-found order_id s t f).0,
                created-unsettled new_ids seat 0 ls ps,
                refl,
              )
        ]
      ]
  prepare-IsFor order_id (quantity line_id n) s e h =
      elim (Result-cases (load_unpaid_row order_id line_id s)) [
        | inr (x, f) ↦ absurd (ground arith)
        | inl (r, f) ↦
            let (t, found, unpaid) = load_unpaid_row-IsUnpaid order_id line_id s r f in
            let p =
              price_line
                (record {
                  unit_price_cents = r.unit_price_cents;
                  quantity = n;
                  line_discount_cents = some r.discount_cents;
                  modifiers = some (as_modifiers notation 0 r.modifiers);
                })
                s.tax_rate_bps s.tax_inclusive in
            let is : e ≡ put_quantity s.tax_inclusive line_id n p = ground arith in
            rw is (t, found, unpaid, refl)
      ]
  prepare-IsFor order_id (remove line_id) s e h =
      elim (Result-cases (load_unpaid_row order_id line_id s)) [
        | inr (x, f) ↦ absurd (ground arith)
        | inl (r, f) ↦
            let (t, found, unpaid) = load_unpaid_row-IsUnpaid order_id line_id s r f in
            let is : e ≡ drop_line s.tax_inclusive line_id = ground arith in
            rw is (t, found, unpaid, refl)
      ]
  prepare-IsFor order_id (reseat line_id seat) s e h =
      elim (Result-cases (load_unpaid_row order_id line_id s)) [
        | inr (x, f) ↦ absurd (ground arith)
        | inl (r, f) ↦
            let (t, found, unpaid) = load_unpaid_row-IsUnpaid order_id line_id s r f in
            let is : e ≡ put_seat line_id seat = ground arith in rw is (t, found, unpaid, tt)
      ]

SettlementPlan-cases :
    (p : SettlementPlan)
    → ((ids : List String) × (amount : ℕ) × (closes : Bool) × (p ≡ planned ids amount closes))
      ⊎ ((e : SettlementError) × (p ≡ refused e))
SettlementPlan-cases (planned ids amount closes) = inl (ids, amount, closes, refl)
SettlementPlan-cases (refused e) = inr (e, refl)

planned-parts :
    (lines : List TabLine) (seats : Seats) (inclusive : Bool) (ids : List String) (amount : ℕ)
    (closes : Bool)
    → plan_settlement lines seats inclusive ≡ planned ids amount closes
    → (ids ≡ ids_of (covered seats lines)) × (amount ≡ sum_by (due inclusive) (covered seats lines))
unfolding plan_settlement
planned-parts lines seats inclusive ids amount closes h =
    let picked = pick_seats-covered seats lines in
    elim (Bool-cases (length (filter is_unsettled lines) == 0)) [
      | inl e ↦ absurd (ground arith)
      | inr e ↦ elim (Bool-cases (length (pick_seats seats (filter is_unsettled lines)) == 0)) [
        | inl f ↦ absurd (ground arith)
        | inr f ↦ ground arith
      ]
    ]

-- A settlement is planned on the open tab that was read.
pub prepare_settle-IsFor :
    (payment_id : String) (data' : SettleInput) (s : Floor) (e : Edit) (amount : ℕ)
    → prepare_settle payment_id data' s ≡ ok (e, amount)
    → (t : Tab) × (find_tab data'.order_id s.tabs ≡ some t)
      × (is_open t ≡ true)
      × (let cs = covered (seats_of data'.seats) (lines_of t) in
          (amount ≡ sum_by (due s.tax_inclusive) cs)
          × (e
              ≡ settle_lines s.tax_inclusive
                  (tab_payment payment_id data' (amount + data'.tip_cents))
                  (ids_of cs)
                  data'.tip_cents)
          × ((is_cash data'.method && ltb data'.cash_tendered_cents (amount + data'.tip_cents))
              ≡ false))
unfolding prepare_settle
prepare_settle-IsFor payment_id data' s e amount h =
    elim (Result-cases (load_open_order data'.order_id s)) [
      | inr (x, f) ↦ absurd (ground arith)
      | inl (t, f) ↦
          let (found, opened) = load_open_order-found data'.order_id s t f in
          let seats = seats_of data'.seats in
          let cs = covered seats (lines_of t) in
          elim (SettlementPlan-cases (plan_settlement (lines_of t) seats s.tax_inclusive)) [
            | inr (x, g) ↦ absurd (ground arith)
            | inl (ids, planned_amount, closes, g) ↦
                let short =
                  is_cash data'.method
                  && ltb data'.cash_tendered_cents (planned_amount + data'.tip_cents) in
                elim (Bool-cases short) [
                  | inl x ↦ absurd (ground arith)
                  | inr x ↦
                      let planned_edit =
                        settle_lines s.tax_inclusive
                          (tab_payment payment_id data' (planned_amount + data'.tip_cents)) ids
                          data'.tip_cents in
                      let done : ◌≡◌ {A = Result TabError (Edit × ℕ)}
                          (ok (planned_edit, planned_amount)) (ok (e, amount)) =
                        rw (f, g, x, prepare_settle) at h in
                      let same_amount : planned_amount ≡ amount = cc in
                      let same_edit : planned_edit ≡ e = cc in
                      let (is_ids, is_amount) =
                        planned-parts (lines_of t) seats s.tax_inclusive ids planned_amount closes
                          g in
                      rw (← same_edit, ← same_amount)
                        (t, found, opened, (is_amount, rw is_ids refl, x))
                ]
          ]
    ]
