-- ===== src/Payments/Settled.antt =====
-- The money of QR sales is that of the captured sessions.
use Prim.Native.String.{String}
use text.Mathlib.Text.{◌==◌ as str_eq}
use text.Mathlib.TextEquality.{eq_iff}
use valla_pos.Base.{
  ℕ, ◌+◌, ◌≤◌, ◌≡◌, ◌⊎◌, refl, Bool, true, false, Option, none, some, List, [], ◌∷◌, map, filter,
  length, sum_by, inl, inr, Bool-cases, Option-cases, if◌then◌else◌, arith, ◌==◌,
}
use valla_pos.Inventory.{apply_stock_decrements}
use valla_pos.Payments.{
  SessionStatus, awaiting, captured, failed, expired, SessionRow, QrPayment, Rail, SaleSettlement,
  SettleOutcome, is_awaiting, flips, flip_row, link_row, flip, find_session_row, find_by_client,
  create_or_reuse_checkout_session, order_stock_lines, lines_of_order, capture_row, is_foreign,
  amount_matches, capture_qr_sale, transition_open, fail_qr_sale, expire_qr_sale, was_failed,
  was_expired, already_settled,
}

-- How many sessions have an id; it is a primary key.
abbrev pub sessions_with : String → List SessionRow → ℕ
sessions_with id = sum_by (λ (r : SessionRow). if str_eq r.id id then 1 else 0)

abbrev pub HasSessionKeys : Rail → Type 0
HasSessionKeys s = (id : String) → sessions_with id s.sessions ≤ 1

abbrev pub captured_cents : SessionRow → ℕ
captured_cents r = elim r.status [ captured ↦ r.amount_cents | _ ↦ 0 ]

-- The payments come to what the captured sessions were for.
abbrev pub IsSettled : Rail → Type 0
IsSettled s =
    sum_by (λ (p : QrPayment). p.amount_cents) s.payments ≡ sum_by captured_cents s.sessions

abbrev flipped_cents : String → SessionRow → ℕ
flipped_cents id r = if flips id r then r.amount_cents else 0

captured-row :
    (id payment_id : String) (r : SessionRow)
    → captured_cents (link_row id payment_id (flip_row id captured r))
      ≡ captured_cents r + flipped_cents id r
captured-row id payment_id r = ground arith

captured-flip :
    (id payment_id : String) (rows : List SessionRow)
    → sum_by captured_cents (map (link_row id payment_id) (map (flip_row id captured) rows))
      ≡ sum_by captured_cents rows + sum_by (flipped_cents id) rows
captured-flip id payment_id [] = refl
captured-flip id payment_id (r ∷ rs) =
    omega (arith, captured-row id payment_id r, captured-flip id payment_id rs)

-- A status other than captured.
abbrev pub is_other : SessionStatus → Bool
is_other captured = false
is_other awaiting = true
is_other failed = true
is_other expired = true

other-row :
    (id : String) (to : SessionStatus) (r : SessionRow)
    → is_other to ≡ true
    → captured_cents (flip_row id to r) ≡ captured_cents r
other-row id to r other = ground arith

other-flip :
    (id : String) (to : SessionStatus) (rows : List SessionRow)
    → is_other to ≡ true
    → sum_by captured_cents (map (flip_row id to) rows) ≡ sum_by captured_cents rows
other-flip id to [] other = refl
other-flip id to (r ∷ rs) other = omega (arith, other-row id to r other, other-flip id to rs other)

pub found-counted :
    (key : String) (rows : List SessionRow) (r : SessionRow)
    → find_session_row key rows ≡ some r
    → 1 ≤ sessions_with r.id rows
unfolding find_session_row
found-counted key [] r h = absurd (cc)
found-counted key (x ∷ xs) r h = elim (Bool-cases (str_eq x.stripe_session_id key)) [
  | inl e ↦
      let found : some x ≡ some r = rw (e, find_session_row) at h in
      let same : x ≡ r = cc in
      let own : str_eq r.id r.id ≡ true = (eq_iff r.id r.id).1 refl in rw (same, own) (omega arith)
  | inr e ↦
      let later = found-counted key xs r (rw (e, find_session_row) at h) in omega (arith, later)
]

absent-flips :
    (id : String) (rows : List SessionRow)
    → sessions_with id rows ≡ 0
    → (length (filter (flips id) rows) ≡ 0) × (sum_by (flipped_cents id) rows ≡ 0)
absent-flips id [] h = (refl, refl)
absent-flips id (r ∷ rs) h = ground (arith, absent-flips id rs)

-- A compare-and-set by the id of a row flips just that row, if it is awaiting.
pub flips-found :
    (key : String) (rows : List SessionRow) (r : SessionRow)
    → find_session_row key rows ≡ some r
    → sessions_with r.id rows ≤ 1
    → (length (filter (flips r.id) rows) ≡ (if is_awaiting r then 1 else 0))
      × (sum_by (flipped_cents r.id) rows ≡ (if is_awaiting r then r.amount_cents else 0))
unfolding find_session_row
flips-found key [] r h keys = absurd (cc)
flips-found key (x ∷ xs) r h keys = elim (Bool-cases (str_eq x.stripe_session_id key)) [
  | inl e ↦
      let found : some x ≡ some r = rw (e, find_session_row) at h in
      let same : x ≡ r = cc in
      let own : str_eq r.id r.id ≡ true = (eq_iff r.id r.id).1 refl in
      let here : sessions_with r.id (r ∷ xs) ≤ 1 = rw same at keys in
      let gone : sessions_with r.id xs ≡ 0 = ground arith in
      rw same (ground (arith, absent-flips r.id xs gone))
  | inr e ↦
      let found : find_session_row key xs ≡ some r = rw (e, find_session_row) at h in
      let counted = found-counted key xs r found in
      let apart : str_eq x.id r.id ≡ false = ground arith in
      let rest : sessions_with r.id xs ≤ 1 = omega arith in
      rw apart (ground (arith, flips-found key xs r found rest))
]

-- The events of the rail: a session is created, or a webhook captures, fails or expires one.
pub data Event : Type 0 where
  create : String → SessionRow → Event
  capture : String → SaleSettlement → Option String → Event
  fail : SaleSettlement → Option String → Event
  expire : SaleSettlement → Option String → Event

-- The rows after a handler; one that throws leaves them as they were.
abbrev rows_after : {A : Type 0} → Rail → Option (A × Rail) → Rail
rows_after s none = s
rows_after s (some (out, s')) = s'

abbrev pub handle : (String → String) → Event → Rail → Rail
handle upper (create new_id input) s =
    rows_after s (create_or_reuse_checkout_session new_id input s)
handle upper (capture new_id settlement account) s =
    rows_after s (capture_qr_sale upper new_id settlement account s)
handle upper (fail settlement account) s = (fail_qr_sale settlement account s).1
handle upper (expire settlement account) s = (expire_qr_sale settlement account s).1

-- How the transaction of a capture has ended.
pub capture_row-cases :
    (new_id : String) (settlement : SaleSettlement) (row : SessionRow) (s s' : Rail)
    (out : SettleOutcome)
    → capture_row new_id settlement row s ≡ some (out, s')
    → ((s' ≡ s) × (out ≡ already_settled) × (length (filter (flips row.id) s.sessions) ≡ 0))
      ⊎ (((length (filter (flips row.id) s.sessions) == 0) ≡ false)
          × (s'.sessions ≡ map (link_row row.id new_id) (map (flip_row row.id captured) s.sessions))
          × (sum_by (λ (p : QrPayment). p.amount_cents) s'.payments
              ≡ row.amount_cents + sum_by (λ (p : QrPayment). p.amount_cents) s.payments))
unfolding capture_row flip
capture_row-cases new_id settlement row s s' out h =
    elim (Bool-cases (length (filter (flips row.id) s.sessions) == 0)) [
      | inl e ↦
          let done : ◌≡◌ {A = Option (SettleOutcome × Rail)} (some (already_settled, s))
              (some (out, s')) =
            rw (e, capture_row) at h in
          inl (cc, cc, ground arith)
      | inr e ↦
          elim (Option-cases (
            apply_stock_decrements
              (order_stock_lines s.stock (lines_of_order row.order_id s.orders)) s.stock)) [
                | inl f ↦ absurd (ground arith)
                | inr (stock, f) ↦ inr (e, ground arith, ground arith)
              ]
    ]

transition_open-IsSettled :
    (settlement : SaleSettlement) (account : Option String) (to : SessionStatus)
    (done : SettleOutcome) (s : Rail)
    → is_other to ≡ true
    → IsSettled s
    → IsSettled (transition_open settlement account to done s).1
unfolding transition_open flip
transition_open-IsSettled settlement account to done s other settled =
    elim (Option-cases (find_session_row settlement.stripe_session_id s.sessions)) [
      | inl e ↦ rw (e, transition_open) settled
      | inr (row, e) ↦ ground (arith, other-flip row.id to s.sessions other)
    ]

capture_qr_sale-IsSettled :
    (upper : String → String) (new_id : String) (settlement : SaleSettlement)
    (account : Option String) (out : SettleOutcome) (s s' : Rail)
    → HasSessionKeys s
    → IsSettled s
    → capture_qr_sale upper new_id settlement account s ≡ some (out, s')
    → IsSettled s'
unfolding capture_qr_sale flip
capture_qr_sale-IsSettled upper new_id settlement account out s s' keys settled h =
    elim (Option-cases (find_session_row settlement.stripe_session_id s.sessions)) [
      | inl e ↦ let same : s ≡ s' = ground arith in rw same at settled
      | inr (row, e) ↦ elim (Bool-cases (is_foreign account row)) [
        | inl f ↦ let same : s ≡ s' = ground arith in rw same at settled
        | inr f ↦ elim (Bool-cases (amount_matches upper settlement row)) [
          | inr g ↦
              let failed_rows = map (flip_row row.id failed) s.sessions in
              let same : record s { sessions = failed_rows } ≡ s' = ground arith in
              rw (← same) (omega (arith, settled, other-flip row.id failed s.sessions refl))
          | inl g ↦
              let done : capture_row new_id settlement row s ≡ some (out, s') = ground arith in
              elim (capture_row-cases new_id settlement row s s' out done) [
                | inl (same, is, none_flipped) ↦ rw same settled
                | inr (flipped, rows, paid) ↦
                    let counted =
                      flips-found settlement.stripe_session_id s.sessions row e (keys row.id) in
                    let open_row : is_awaiting row ≡ true = ground arith in
                    let money : sum_by (flipped_cents row.id) s.sessions ≡ row.amount_cents =
                      rw open_row at counted.1 in
                    rw rows
                      (omega (arith, settled, paid, money, captured-flip row.id new_id s.sessions))
              ]
        ]
      ]
    ]

-- The payments are the captured sessions' money after every event, whether or not its handler goes
-- through: where ids of sessions are primary keys and the payments add up to the amounts of the
-- captured sessions, they do so afterwards.
pub handle-IsSettled :
    (upper : String → String) (e : Event) (s : Rail)
    → HasSessionKeys s
    → IsSettled s
    → IsSettled (handle upper e s)
unfolding create_or_reuse_checkout_session capture_qr_sale flip
handle-IsSettled upper (create new_id input) s keys settled =
    elim (Option-cases (find_by_client input.client_uuid s.sessions)) [
      | inl e ↦ elim (Option-cases (find_session_row input.stripe_session_id s.sessions)) [
        | inl f ↦ rw (e, f, create_or_reuse_checkout_session, handle) (omega (arith, settled))
        | inr (taken, f) ↦ rw (e, f, create_or_reuse_checkout_session, handle) settled
      ]
      | inr (row, e) ↦ rw (e, create_or_reuse_checkout_session, handle) settled
    ]
handle-IsSettled upper (capture new_id settlement account) s keys settled =
    elim (Option-cases (capture_qr_sale upper new_id settlement account s)) [
      | inl e ↦ rw (e, handle) settled
      | inr ((out, s'), e) ↦
          rw (e, handle)
            (capture_qr_sale-IsSettled upper new_id settlement account out s s' keys settled e)
    ]
handle-IsSettled upper (fail settlement account) s keys settled =
    transition_open-IsSettled settlement account failed was_failed s refl settled
handle-IsSettled upper (expire settlement account) s keys settled =
    transition_open-IsSettled settlement account expired was_expired s refl settled
