-- ===== src/Tabs/Actions/Cases.antt =====
-- How the actions on tabs end.
use Prim.Native.String.{String}
use valla_pos.Base.{
  ℕ, ◌+◌, ◌-◌, ◌≡◌, ◌⊎◌, refl, Bool, true, false, not, Option, none, some, ◌∷◌, any, filter, length,
  inl, inr, Bool-cases, Option-cases, if◌then◌else◌, arith, ◌==◌,
}
use valla_pos.Base.Result.{Result, ok, Result-cases}
use valla_pos.PinThrottle.{Store}
use valla_pos.Register.Checkout.{Operator, next_number, is_cash}
use valla_pos.Tabs.Edits.{Tab, Edit, edit_tab, same_table, is_open_row}
use valla_pos.Tabs.Actions.{
  Floor, TabError, SettleInput, SettleResult, SettleOutcome, settle_failed, settle_rejected,
  settled, not_allowed, changed, find_tab, put_tab, fresh_tab, is_occupied, open_tab, commit_edit,
  settle_gate, prepare_settle, settle_tab,
}

-- How a transaction that goes through has ended.
pub commit_edit-cases :
    (id : String) (e : Edit) (s : Floor) (t' : Tab) (s' : Floor)
    → commit_edit id e s ≡ some (t', s')
    → (t : Tab) × (find_tab id s.tabs ≡ some t)
      × (edit_tab e t ≡ some t')
      × (s' ≡ record s { tabs = put_tab t' s.tabs })
unfolding commit_edit
commit_edit-cases id e s t' s' h = elim (Option-cases (find_tab id s.tabs)) [
  | inl f ↦ absurd (ground arith)
  | inr (t, f) ↦ elim (Option-cases (edit_tab e t)) [
    | inl g ↦ absurd (ground arith)
    | inr (x, g) ↦
        let done : ◌≡◌ {A = Option (Tab × Floor)} (some (x, record s { tabs = put_tab x s.tabs }))
            (some (t', s')) =
          rw (f, g, commit_edit) at h in
        let same : x ≡ t' = cc in
        let is : record s { tabs = put_tab x s.tabs } ≡ s' = cc in
        (t, f, rw same at g, rw (← is, same) refl)
  ]
]

-- How opening a tab that goes through has ended.
pub open_tab-cases :
    (new_id : String) (granted : Option Operator) (table id : String) (s s' : Floor)
    → open_tab new_id granted table s ≡ ok (id, s')
    → (op : Operator) × (granted ≡ some op)
      × (is_occupied table s.tabs ≡ false)
      × (id ≡ new_id)
      × (s' ≡ record s {
        tabs = fresh_tab new_id (next_number s.counter) op.membership_id table ∷ s.tabs;
        counter = some (next_number s.counter);
      })
unfolding open_tab
open_tab-cases new_id none table id s s' h = absurd (ground arith)
open_tab-cases new_id (some op) table id s s' h =
    elim (Bool-cases (not (any (same_table table) s.tables))) [
      | inl e ↦ absurd (ground arith)
      | inr e ↦ elim (Bool-cases (is_occupied table s.tabs)) [
        | inl f ↦ absurd (ground arith)
        | inr f ↦
            let next = record s {
              tabs = fresh_tab new_id (next_number s.counter) op.membership_id table ∷ s.tabs;
              counter = some (next_number s.counter);
            } in
            let done : ◌≡◌ {A = Result TabError (String × Floor)} (ok (new_id, next))
                (ok (id, s')) =
              rw (e, f, open_tab) at h in
            (op, refl, f, cc, cc)
      ]
    ]

abbrev pub is_settled : SettleOutcome → Bool
is_settled (settled r) = true
is_settled (settle_rejected e) = false
is_settled (settle_failed e) = false

-- What a settlement answers.
abbrev pub result_of : SettleInput → ℕ → Tab → SettleResult
result_of data' amount t = record {
  amount_cents = amount;
  tip_cents = data'.tip_cents;
  change_cents =
      if is_cash data'.method then data'.cash_tendered_cents - (amount + data'.tip_cents) else 0;
  closed = length (filter is_open_row t.lines) == 0;
}

module _ (verify_pin : String → String → Bool) (b : String) where
  -- A settlement that went through.
  abbrev pub IsSettledBy :
      String → SettleInput → Option Operator → ℕ → SettleOutcome → Floor → Floor → Type 0
  IsSettledBy payment_id data' granted now out s s' =
      (op : Operator) × (throttle : Store) × (e : Edit) × (amount : ℕ) × (t : Tab) × (granted
        ≡ some op)
      × (settle_gate verify_pin b data' op now s ≡ (none, throttle))
      × (prepare_settle payment_id data' (record s { throttle = throttle }) ≡ ok (e, amount))
      × (commit_edit data'.order_id e (record s { throttle = throttle }) ≡ some (t, s'))
      × (out ≡ settled (result_of data' amount t))

  pub settle_tab-cases :
      (payment_id : String) (data' : SettleInput) (granted : Option Operator) (now : ℕ)
      (out : SettleOutcome) (s s' : Floor)
      → settle_tab verify_pin b payment_id data' granted now s ≡ (out, s')
      → ((throttle : Store) × (s' ≡ record s { throttle = throttle }) × (is_settled out ≡ false))
        ⊎ IsSettledBy payment_id data' granted now out s s'
  unfolding settle_tab
  settle_tab-cases payment_id data' none now out s s' h =
      let done : ◌≡◌ {A = SettleOutcome × Floor} (settle_failed not_allowed, s) (out, s') = h in
      let is : settle_failed not_allowed ≡ out = cc in inl (s.throttle, cc, rw (← is) refl)
  settle_tab-cases payment_id data' (some op) now out s s' h =
      let throttle = (settle_gate verify_pin b data' op now s).1 in
      let s1 = record s { throttle = throttle } in
      elim (Option-cases (settle_gate verify_pin b data' op now s).0) [
        | inr (x, f) ↦
            let done : ◌≡◌ {A = SettleOutcome × Floor} (settle_rejected x, s1) (out, s') =
              rw (f, settle_tab) at h in
            let is : settle_rejected x ≡ out = cc in inl (throttle, cc, rw (← is) refl)
        | inl f ↦ elim (Result-cases (prepare_settle payment_id data' s1)) [
          | inr (x, g) ↦
              let done : ◌≡◌ {A = SettleOutcome × Floor} (settle_failed x, s1) (out, s') =
                rw (f, g, settle_tab) at h in
              let is : settle_failed x ≡ out = cc in inl (throttle, cc, rw (← is) refl)
          | inl ((e, amount), g) ↦ elim (Option-cases (commit_edit data'.order_id e s1)) [
            | inl c ↦
                let done : ◌≡◌ {A = SettleOutcome × Floor} (settle_failed changed, s1) (out, s') =
                  rw (f, g, c, settle_tab) at h in
                let is : settle_failed changed ≡ out = cc in inl (throttle, cc, rw (← is) refl)
            | inr ((t, s2), c) ↦
                let done : ◌≡◌ {A = SettleOutcome × Floor} (settled (result_of data' amount t), s2)
                    (out, s') =
                  rw (f, g, c, settle_tab) at h in
                let same : s2 ≡ s' = cc in
                inr (op, throttle, e, amount, t, refl, rw (← f) refl, g, rw same at c, cc)
          ]
        ]
      ]
