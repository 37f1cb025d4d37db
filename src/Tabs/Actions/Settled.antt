-- ===== src/Tabs/Actions/Settled.antt =====
-- What a settlement that goes through has done.
use Prim.Native.String.{String}
use text.Mathlib.Text.{◌==◌ as str_eq}
use text.Mathlib.TextEquality.{eq_iff}
use valla_pos.Base.{
  ℕ, ◌+◌, ◌-◌, ◌≡◌, ◌↔◌, refl, ◌∙◌, Bool, true, false, Option, none, some, List, [], ◌∷◌, map,
  filter, length, length-map, sum_by, inl, inr, Bool-cases, if◌then◌else◌, arith, ◌==◌, ==_iff,
  ◌&&◌, ltb,
}
use valla_pos.Orders.Actions.{OrderStatus}
use valla_pos.Register.Checkout.{Operator, TenderMethod, is_cash}
use valla_pos.Tabs.{TabLine, line_amount_due, is_unsettled, tab_totals}
use valla_pos.Tabs.Settle.{covered, due}
use valla_pos.Tabs.Edits.{
  Tab, TabRow, TabPayment, settle_row, is_due, is_open_row, recompute_order_totals, settled_tab,
  settle_lines_step, edit_tab,
}
use valla_pos.Tabs.Edits.Balance.{newly_due, ids_of, planned-exact, later-due, IsDistinct}
use valla_pos.Tabs.Edits.Unpaid.{lines_of, IsLater-refl}
use valla_pos.Tabs.Actions.{
  Floor, SettleInput, SettleResult, settled, seats_of, is_open, find_tab, put_tab, tab_payment,
  settle_tab,
}
use valla_pos.Tabs.Actions.Cases.{settle_tab-cases, commit_edit-cases, result_of}
use valla_pos.Tabs.Actions.Prepared.{prepare_settle-IsFor}
use valla_pos.Tabs.Actions.Sound.{HasKeys, All-find_tab}

abbrev unsettled_row : Bool → TabRow → ℕ
unsettled_row inclusive r = if is_unsettled r.line then line_amount_due r.line inclusive else 0

remaining-rows :
    (inclusive : Bool) (rows : List TabRow)
    → (tab_totals (map (λ (r : TabRow). r.line) rows) inclusive).remaining_cents
      ≡ sum_by (unsettled_row inclusive) rows
unfolding tab_totals
remaining-rows inclusive [] = refl
remaining-rows inclusive (r ∷ rs) = omega (arith, remaining-rows inclusive rs)

remaining-settled :
    (inclusive : Bool) (payment_id : String) (ids : List String) (rows : List TabRow)
    → sum_by (unsettled_row inclusive) rows
      ≡ sum_by (newly_due inclusive ids) rows
        + sum_by (unsettled_row inclusive) (map (settle_row payment_id ids) rows)
unfolding line_amount_due
remaining-settled inclusive payment_id ids [] = refl
remaining-settled inclusive payment_id ids (r ∷ rs) =
    ground (arith, remaining-settled inclusive payment_id ids rs)

pub find_tab-id : (id : String) (ts : List Tab) (t : Tab) → find_tab id ts ≡ some t → t.id ≡ id
unfolding find_tab
find_tab-id id [] t h = absurd (cc)
find_tab-id id (x ∷ xs) t h = elim (Bool-cases (str_eq x.id id)) [
  | inl e ↦
      let found : some x ≡ some t = rw (e, find_tab) at h in
      let same : x ≡ t = cc in rw same at ((eq_iff x.id id).0 e)
  | inr e ↦ find_tab-id id xs t (rw (e, find_tab) at h)
]

find_tab-put_tab :
    (id : String) (ts : List Tab) (t t' : Tab)
    → find_tab id ts ≡ some t
    → t'.id ≡ id
    → find_tab id (put_tab t' ts) ≡ some t'
unfolding find_tab put_tab
find_tab-put_tab id [] t t' h same = absurd (cc)
find_tab-put_tab id (x ∷ xs) t t' h same =
    let own : str_eq t'.id id ≡ true = (eq_iff t'.id id).1 same in
    elim (Bool-cases (str_eq x.id id)) [
      | inl e ↦ let here : str_eq x.id t'.id ≡ true = rw same e in rw (here, own) refl
      | inr e ↦
          let apart : str_eq x.id t'.id ≡ false = rw same e in
          rw (apart, e) (find_tab-put_tab id xs t t' (rw (e, find_tab) at h) same)
    ]

-- Cash covers what is due, and the change and this are the cash given; other methods give no change.
abbrev pub IsChange : Bool → ℕ → ℕ → ℕ → Type 0
IsChange true given owed change = change + owed ≡ given
IsChange false given owed change = change ≡ 0

-- A settlement of a tab that was open: a payment is added for the amount and the tip; the amount is
-- what the tab still owed less what it still owes; and the tab is closed, and then paid, just if no
-- line is left to settle.
abbrev pub IsSettlement : Bool → SettleInput → SettleResult → Tab → Tab → Type 0
IsSettlement inclusive data' r t t' =
    (p : TabPayment) × (t'.payments ≡ p ∷ t.payments)
    × (p.amount_cents ≡ r.amount_cents + data'.tip_cents)
    × (p.method ≡ data'.method)
    × (p.change_cents ≡ r.change_cents)
    × IsChange (is_cash data'.method) data'.cash_tendered_cents p.amount_cents r.change_cents
    × ((tab_totals (lines_of t) inclusive).remaining_cents
        ≡ r.amount_cents + (tab_totals (lines_of t') inclusive).remaining_cents)
    × ((r.closed ≡ true) ↔ (length (filter is_open_row t'.lines) ≡ 0))
    × (t'.status ≡ (if r.closed then OrderStatus.paid else OrderStatus.open_tab))

IsChange-tendered :
    (m : TenderMethod) (given owed : ℕ)
    → (is_cash m && ltb given owed) ≡ false
    → IsChange (is_cash m) given owed (if is_cash m then given - owed else 0)
IsChange-tendered m given owed h = elim (Bool-cases (is_cash m)) [
  | inl e ↦ rw e (ground arith)
  | inr e ↦ rw e refl
]

is_open-status :
    (status : OrderStatus)
    → elim status [ OrderStatus.open_tab ↦ true | _ ↦ false ] ≡ true
    → status ≡ OrderStatus.open_tab
is_open-status OrderStatus.open_tab h = refl
is_open-status OrderStatus.paid h = absurd (cc)
is_open-status OrderStatus.refunded h = absurd (cc)
is_open-status OrderStatus.partially_refunded h = absurd (cc)
is_open-status OrderStatus.voided h = absurd (cc)

-- A planned settlement of the tab as it is.
settle_lines_step-IsSettlement :
    (inclusive : Bool) (payment_id : String) (data' : SettleInput) (t t' : Tab)
    → let cs = covered (seats_of data'.seats) (lines_of t) in
      let amount = sum_by (due inclusive) cs in
      is_open t ≡ true
      → IsDistinct (lines_of t)
      → (is_cash data'.method && ltb data'.cash_tendered_cents (amount + data'.tip_cents)) ≡ false
      → settle_lines_step inclusive
          (tab_payment payment_id data' (amount + data'.tip_cents))
          (ids_of cs)
          data'.tip_cents
          t
        ≡ some t'
      → (t'.id ≡ t.id) × IsSettlement inclusive data' (result_of data' amount t') t t'
unfolding settle_lines_step settled_tab recompute_order_totals
settle_lines_step-IsSettlement inclusive payment_id data' t t' opened distinct covers h =
    let seats = seats_of data'.seats in
    let cs = covered seats (lines_of t) in
    let amount = sum_by (due inclusive) cs in
    let ids = ids_of cs in
    let p = tab_payment payment_id data' (amount + data'.tip_cents) in
    elim (Bool-cases (length (filter (is_due ids) t.lines) == length ids)) [
      | inr e ↦ let nothing : none ≡ some t' = rw (e, settle_lines_step) at h in absurd (cc)
      | inl e ↦
          let count : length (filter (is_due ids) t.lines) ≡ length cs =
            ground (arith, length-map (λ (l : TabLine). l.id) cs) in
          let taken =
            later-due inclusive seats ids (lines_of t) t.lines
              (planned-exact seats (lines_of t) distinct) (IsLater-refl inclusive ids t.lines)
              count in
          let done : some (settled_tab inclusive p ids data'.tip_cents t) ≡ some t' =
            rw (e, settle_lines_step) at h in
          let same : settled_tab inclusive p ids data'.tip_cents t ≡ t' = cc in
          let rows = map (settle_row payment_id ids) t.lines in
          let status = is_open-status t.status opened in
          rw (← same) (
            refl,
            (
              p,
              refl,
              refl,
              refl,
              refl,
              IsChange-tendered data'.method data'.cash_tendered_cents (amount + data'.tip_cents)
                  covers,
              rw (remaining-rows inclusive t.lines, remaining-rows inclusive rows)
                  (omega (arith, taken, remaining-settled inclusive payment_id ids t.lines)),
              ==_iff (length (filter is_open_row rows)) 0,
              rw status refl,
            ),
          )
    ]

module _ (verify_pin : String → String → Bool) (b : String) where
  -- Where ids are primary keys and a settlement answers with a result: the order was an open
  -- tab; a payment for the amount and the tip is added to it, by the method sent, and with the change
  -- that cash leaves; the tab owes less by just the amount; and the answer says closed, and the tab
  -- is paid, just if it has no unsettled line.
  pub settle_tab_lem :
      (payment_id : String) (data' : SettleInput) (granted : Option Operator) (now : ℕ)
      (r : SettleResult) (s s' : Floor)
      → HasKeys s
      → settle_tab verify_pin b payment_id data' granted now s ≡ (settled r, s')
      → (t : Tab) × (t' : Tab) × (find_tab data'.order_id s.tabs ≡ some t)
        × (find_tab data'.order_id s'.tabs ≡ some t')
        × (t.status ≡ OrderStatus.open_tab)
        × IsSettlement s.tax_inclusive data' r t t'
  unfolding edit_tab settle_lines_step settled_tab recompute_order_totals
  settle_tab_lem payment_id data' granted now r s s' keys h =
      elim (settle_tab-cases verify_pin b payment_id data' granted now (settled r) s s' h) [
        | inl (throttle, is, unpaid) ↦ absurd (cc)
        | inr (op, throttle, e, amount, t', allowed, passed, prepared, committed, is) ↦
            let s1 = record s { throttle = throttle } in
            let (t, found, opened, (is_amount, is_edit, covers)) =
              prepare_settle-IsFor payment_id data' s1 e amount prepared in
            let (t2, found2, edited, moved) =
              commit_edit-cases data'.order_id e s1 t' s' committed in
            let same : t2 ≡ t = cc in
            let step : settle_lines_step s.tax_inclusive
                  (tab_payment payment_id data' (amount + data'.tip_cents))
                  (ids_of (covered (seats_of data'.seats) (lines_of t))) data'.tip_cents t
                ≡ some t' =
              rw (is_edit, same) at edited in
            let distinct =
              All-find_tab (λ (x : Tab). IsDistinct (lines_of x)) data'.order_id s.tabs t keys.0
                found in
            let (same_id, settlement) =
              settle_lines_step-IsSettlement s.tax_inclusive payment_id data' t t' opened distinct
                (rw is_amount at covers) (rw is_amount at step) in
            let answer : r ≡ result_of data' amount t' = cc in
            let placed =
              find_tab-put_tab data'.order_id s.tabs t t' found
                (same_id ∙ find_tab-id data'.order_id s.tabs t found) in
            (
              t,
              t',
              found,
              rw moved placed,
              is_open-status t.status opened,
              rw (answer, is_amount) settlement,
            )
      ]
