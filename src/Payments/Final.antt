-- ===== src/Payments/Final.antt =====
-- A captured session stays captured, and is captured once.
use Prim.Native.String.{String}
use text.Mathlib.Text.{◌==◌ as str_eq}
use text.Mathlib.TextEquality.{eq_iff}
use valla_pos.Base.{
  ◌≡◌, ◌⊎◌, ap, ◌∙◌, refl, Bool, true, false, Option, none, some, List, [], ◌∷◌, map, filter,
  length, inl, inr, Bool-cases, Option-cases, arith, ◌==◌,
}
use valla_pos.Payments.{
  SessionStatus, captured, failed, expired, SessionRow, Rail, SaleSettlement, SettleOutcome,
  is_awaiting, flips, flip_row, link_row, flip, find_session_row, find_by_client,
  create_or_reuse_checkout_session, capture_row, is_foreign, amount_matches, capture_qr_sale,
  transition_open, was_failed, was_expired, was_captured, already_settled, unknown_session,
  account_mismatch, amount_mismatch,
}
use valla_pos.Payments.Settled.{
  HasSessionKeys, flips-found, Event, create, capture, fail, expire, handle, capture_row-cases,
}

-- The session with this signed id is captured.
abbrev pub IsCaptured : String → Rail → Type 0
IsCaptured key s =
    (r : SessionRow) × (find_session_row key s.sessions ≡ some r) × (r.status ≡ captured)

abbrev pub is_capture : SettleOutcome → Bool
is_capture (was_captured p o) = true
is_capture was_failed = false
is_capture was_expired = false
is_capture already_settled = false
is_capture unknown_session = false
is_capture account_mismatch = false
is_capture amount_mismatch = false

find-map :
    (f : SessionRow → SessionRow) (key : String) (rows : List SessionRow) (r : SessionRow)
    → ((x : SessionRow) → (f x).stripe_session_id ≡ x.stripe_session_id)
    → find_session_row key rows ≡ some r
    → find_session_row key (map f rows) ≡ some (f r)
unfolding find_session_row
find-map f key [] r keeps h = absurd (cc)
find-map f key (x ∷ xs) r keeps h = elim (Bool-cases (str_eq x.stripe_session_id key)) [
  | inl e ↦
      let found : some x ≡ some r = rw (e, find_session_row) at h in
      let same : x ≡ r = cc in
      let here : str_eq (f x).stripe_session_id key ≡ true =
        ap (λ (k : String). str_eq k key) (keeps x) ∙ e in
      rw (here, same) refl
  | inr e ↦
      let apart : str_eq (f x).stripe_session_id key ≡ false =
        ap (λ (k : String). str_eq k key) (keeps x) ∙ e in
      rw apart (find-map f key xs r keeps (rw (e, find_session_row) at h))
]

flip_row-stripe :
    (id : String) (to : SessionStatus) (x : SessionRow)
    → (flip_row id to x).stripe_session_id ≡ x.stripe_session_id
flip_row-stripe id to x = ground arith

flip_row-captured :
    (id : String) (to : SessionStatus) (x : SessionRow) → x.status ≡ captured → flip_row id to x ≡ x
flip_row-captured id to x h = ground arith

link_row-stripe :
    (id p : String) (x : SessionRow) → (link_row id p x).stripe_session_id ≡ x.stripe_session_id
link_row-stripe id p x = ground arith

link_row-status : (id p : String) (x : SessionRow) → (link_row id p x).status ≡ x.status
link_row-status id p x = ground arith

flipped-IsCaptured :
    (key id : String) (to : SessionStatus) (s : Rail)
    → IsCaptured key s
    → IsCaptured key (record s { sessions = map (flip_row id to) s.sessions })
flipped-IsCaptured key id to s (r, found, is) = (
  flip_row id to r,
  find-map (flip_row id to) key s.sessions r (flip_row-stripe id to) found,
  rw (flip_row-captured id to r is) is,
)

transition_open-IsCaptured :
    (key : String) (settlement : SaleSettlement) (account : Option String) (to : SessionStatus)
    (done : SettleOutcome) (s : Rail)
    → IsCaptured key s
    → IsCaptured key (transition_open settlement account to done s).1
unfolding transition_open flip
transition_open-IsCaptured key settlement account to done s c =
    elim (Option-cases (find_session_row settlement.stripe_session_id s.sessions)) [
      | inl e ↦ rw (e, transition_open) c
      | inr (row, e) ↦ elim (Bool-cases (is_foreign account row)) [
        | inl f ↦ rw (e, f, transition_open) c
        | inr f ↦ elim (Bool-cases (length (filter (flips row.id) s.sessions) == 0)) [
          | inl g ↦ rw (e, f, g, transition_open) c
          | inr g ↦ rw (e, f, g, transition_open) (flipped-IsCaptured key row.id to s c)
        ]
      ]
    ]

-- What a capture that goes through has done to the sessions.
capture_qr_sale-rows :
    (upper : String → String) (new_id : String) (settlement : SaleSettlement)
    (account : Option String) (out : SettleOutcome) (s s' : Rail)
    → capture_qr_sale upper new_id settlement account s ≡ some (out, s')
    → ((s' ≡ s) × (is_capture out ≡ false))
      ⊎ (((id : String) × (s'.sessions ≡ map (flip_row id failed) s.sessions)
            × (s'.payments ≡ s.payments)
            × (is_capture out ≡ false))
          ⊎ ((row : SessionRow) × (find_session_row settlement.stripe_session_id s.sessions
                ≡ some row)
              × (capture_row new_id settlement row s ≡ some (out, s'))))
unfolding capture_qr_sale flip
capture_qr_sale-rows upper new_id settlement account out s s' h =
    elim (Option-cases (find_session_row settlement.stripe_session_id s.sessions)) [
      | inl e ↦
          let done : ◌≡◌ {A = Option (SettleOutcome × Rail)} (some (unknown_session, s))
              (some (out, s')) =
            rw (e, capture_qr_sale) at h in
          let is : unknown_session ≡ out = cc in inl (cc, rw (← is) refl)
      | inr (row, e) ↦ elim (Bool-cases (is_foreign account row)) [
        | inl f ↦
            let done : ◌≡◌ {A = Option (SettleOutcome × Rail)} (some (account_mismatch, s))
                (some (out, s')) =
              rw (e, f, capture_qr_sale) at h in
            let is : account_mismatch ≡ out = cc in inl (cc, rw (← is) refl)
        | inr f ↦ elim (Bool-cases (amount_matches upper settlement row)) [
          | inr g ↦
              let s2 = record s { sessions = map (flip_row row.id failed) s.sessions } in
              let done : ◌≡◌ {A = Option (SettleOutcome × Rail)} (some (amount_mismatch, s2))
                  (some (out, s')) =
                rw (e, f, g, capture_qr_sale) at h in
              let is : amount_mismatch ≡ out = cc in
              let same : s2 ≡ s' = cc in
              inr (inl (row.id, rw (← same) refl, rw (← same) refl, rw (← is) refl))
          | inl g ↦ inr (inr (row, e, rw (e, f, g, capture_qr_sale) at h))
        ]
      ]
    ]

linked-IsCaptured :
    (key id new_id : String) (s : Rail)
    → IsCaptured key s
    → IsCaptured key (record s { sessions = map (link_row id new_id) s.sessions })
linked-IsCaptured key id new_id s (r, found, is) = (
  link_row id new_id r,
  find-map (link_row id new_id) key s.sessions r (link_row-stripe id new_id) found,
  link_row-status id new_id r ∙ is,
)

same_rows-IsCaptured :
    (key : String) (s s' : Rail) → s'.sessions ≡ s.sessions → IsCaptured key s → IsCaptured key s'
same_rows-IsCaptured key s s' same (r, found, is) = (r, rw same found, is)

capture_qr_sale-IsCaptured :
    (upper : String → String) (key new_id : String) (settlement : SaleSettlement)
    (account : Option String) (out : SettleOutcome) (s s' : Rail)
    → IsCaptured key s
    → capture_qr_sale upper new_id settlement account s ≡ some (out, s')
    → IsCaptured key s'
capture_qr_sale-IsCaptured upper key new_id settlement account out s s' c h =
    elim (capture_qr_sale-rows upper new_id settlement account out s s' h) [
      | inl (same, is) ↦ rw same c
      | inr (inl (id, rows, payments, is)) ↦
          same_rows-IsCaptured key (record s { sessions = map (flip_row id failed) s.sessions }) s'
            rows (flipped-IsCaptured key id failed s c)
      | inr (inr (row, e, done)) ↦ elim (capture_row-cases new_id settlement row s s' out done) [
        | inl (same, is, none_flipped) ↦ rw same c
        | inr (flipped, rows, paid) ↦
            let s2 = record s { sessions = map (flip_row row.id captured) s.sessions } in
            same_rows-IsCaptured key
              (record s2 { sessions = map (link_row row.id new_id) s2.sessions }) s' rows
              (linked-IsCaptured key row.id new_id s2 (flipped-IsCaptured key row.id captured s c))
      ]
    ]

handle-IsCaptured :
    (upper : String → String) (key : String) (e : Event) (s : Rail)
    → IsCaptured key s
    → IsCaptured key (handle upper e s)
unfolding create_or_reuse_checkout_session find_session_row
handle-IsCaptured upper key (create new_id input) s (r, found, is) =
    elim (Option-cases (find_by_client input.client_uuid s.sessions)) [
      | inr (row, e) ↦ rw (e, create_or_reuse_checkout_session, handle) (r, found, is)
      | inl e ↦ elim (Option-cases (find_session_row input.stripe_session_id s.sessions)) [
        | inr (taken, f) ↦ rw (e, f, create_or_reuse_checkout_session, handle) (r, found, is)
        | inl f ↦ elim (Bool-cases (str_eq input.stripe_session_id key)) [
          | inl k ↦
              let same : input.stripe_session_id ≡ key = (eq_iff input.stripe_session_id key).0 k in
              let missing : find_session_row key s.sessions ≡ none = rw same at f in absurd (cc)
          | inr k ↦ rw (e, f, create_or_reuse_checkout_session, handle) (r, rw k found, is)
        ]
      ]
    ]
handle-IsCaptured upper key (capture new_id settlement account) s c =
    elim (Option-cases (capture_qr_sale upper new_id settlement account s)) [
      | inl e ↦ rw (e, handle) c
      | inr ((out, s'), e) ↦
          rw (e, handle)
            (capture_qr_sale-IsCaptured upper key new_id settlement account out s s' c e)
    ]
handle-IsCaptured upper key (fail settlement account) s c =
    transition_open-IsCaptured key settlement account failed was_failed s c
handle-IsCaptured upper key (expire settlement account) s c =
    transition_open-IsCaptured key settlement account expired was_expired s c

-- Events one after the other.
abbrev pub handle_all : (String → String) → List Event → Rail → Rail
handle_all upper [] s = s
handle_all upper (e ∷ es) s = handle_all upper es (handle upper e s)

handle_all-IsCaptured :
    (upper : String → String) (key : String) (es : List Event) (s : Rail)
    → IsCaptured key s
    → IsCaptured key (handle_all upper es s)
handle_all-IsCaptured upper key [] s c = c
handle_all-IsCaptured upper key (e ∷ es) s c =
    handle_all-IsCaptured upper key es (handle upper e s) (handle-IsCaptured upper key e s c)

captured-closed : (r : SessionRow) → r.status ≡ captured → is_awaiting r ≡ false
captured-closed r h = rw h refl

-- Where a capture answers so, its session is captured.
IsCaptured-after :
    (upper : String → String) (new_id : String) (settlement : SaleSettlement)
    (account : Option String) (payment_id order_id : String) (s s' : Rail)
    → HasSessionKeys s
    → capture_qr_sale upper new_id settlement account s
      ≡ some (was_captured payment_id order_id, s')
    → IsCaptured settlement.stripe_session_id s'
IsCaptured-after upper new_id settlement account payment_id order_id s s' keys h =
    elim (capture_qr_sale-rows upper new_id settlement account (was_captured payment_id order_id) s
      s' h) [
        | inl (same, is) ↦ absurd (cc)
        | inr (inl (id, rows, payments, is)) ↦ absurd (cc)
        | inr (inr (row, e, done)) ↦
            elim (capture_row-cases new_id settlement row s s' (was_captured payment_id order_id)
              done) [
                | inl (same, is, none_flipped) ↦ absurd (cc)
                | inr (flipped, rows, paid) ↦
                    let counted =
                      (flips-found settlement.stripe_session_id s.sessions row e (keys row.id)).0 in
                    let open_row : is_awaiting row ≡ true = ground arith in
                    let own : str_eq row.id row.id ≡ true = (eq_iff row.id row.id).1 refl in
                    let now_captured : (flip_row row.id captured row).status ≡ captured =
                      rw (own, open_row) refl in
                    let s2 = record s { sessions = map (flip_row row.id captured) s.sessions } in
                    let c2 : IsCaptured settlement.stripe_session_id s2 = (
                      flip_row row.id captured row,
                      find-map (flip_row row.id captured) settlement.stripe_session_id s.sessions
                          row (flip_row-stripe row.id captured) e,
                      now_captured,
                    ) in
                    same_rows-IsCaptured settlement.stripe_session_id
                      (record s2 { sessions = map (link_row row.id new_id) s2.sessions }) s' rows
                      (linked-IsCaptured settlement.stripe_session_id row.id new_id s2 c2)
              ]
      ]

-- A QR sale is never captured twice: once a webhook has captured a session, whatever events follow, any
-- further capture of that session leaves all payments as they are and does not answer as captured.
-- Ids of sessions are primary keys.
pub captured_once :
    (upper : String → String) (new_id : String) (settlement : SaleSettlement)
    (account : Option String) (payment_id order_id : String) (s s' : Rail) (es : List Event)
    (new_id2 : String) (settlement2 : SaleSettlement) (account2 : Option String)
    (out : SettleOutcome) (u : Rail)
    → HasSessionKeys s
    → HasSessionKeys (handle_all upper es s')
    → capture_qr_sale upper new_id settlement account s
      ≡ some (was_captured payment_id order_id, s')
    → settlement2.stripe_session_id ≡ settlement.stripe_session_id
    → capture_qr_sale upper new_id2 settlement2 account2 (handle_all upper es s') ≡ some (out, u)
    → (u.payments ≡ (handle_all upper es s').payments) × (is_capture out ≡ false)
captured_once upper new_id settlement account payment_id order_id s s' es new_id2 settlement2
      account2 out u keys keys2 h same again =
    let t = handle_all upper es s' in
    let (r, found, is) =
      handle_all-IsCaptured upper settlement.stripe_session_id es s'
        (IsCaptured-after upper new_id settlement account payment_id order_id s s' keys h) in
    elim (capture_qr_sale-rows upper new_id2 settlement2 account2 out t u again) [
      | inl (unchanged, answer) ↦ (rw unchanged refl, answer)
      | inr (inl (id, rows, payments, answer)) ↦ (payments, answer)
      | inr (inr (row, e, done)) ↦
          let e2 : find_session_row settlement.stripe_session_id t.sessions ≡ some row =
            rw same at e in
          let it : r ≡ row = cc in
          let closed : is_awaiting row ≡ false = rw (← it) (captured-closed r is) in
          let counted =
            (flips-found settlement2.stripe_session_id t.sessions row e (keys2 row.id)).0 in
          let nothing : length (filter (flips row.id) t.sessions) ≡ 0 = rw closed at counted in
          elim (capture_row-cases new_id2 settlement2 row t u out done) [
            | inl (unchanged, answer, none_flipped) ↦ (rw unchanged refl, rw answer refl)
            | inr (flipped, rows, paid) ↦ absurd (ground arith)
          ]
    ]
