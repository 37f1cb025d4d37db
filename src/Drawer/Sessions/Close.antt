-- ===== src/Drawer/Sessions/Close.antt =====
-- Closing a drawer: the action up to its update, and the update at a later state
-- (`closeDrawer` of src/features/cash-drawer/actions.ts).
use Prim.Native.String.{String}
use text.Mathlib.Text.{◌==◌ as str_eq}
use text.Mathlib.TextEquality.{eq_iff}
use valla_pos.Base.{
  ℕ, ◌≤◌, ◌<◌, ◌≡◌, ◌≢◌, ◌⊎◌, refl, Bool, true, false, none, some, List, [], ◌∷◌, map, filter,
  length, inl, inr, Bool-cases, Option-cases, arith, ◌==◌, leb, ltb,
}
use valla_pos.Base.Int.{ℤ, pos, ◌+ℤ◌, int_laws}
use valla_pos.Base.Result.{Pointwise}
use valla_pos.Drawer.{reconcile, expected_cash}
use valla_pos.Drawer.Variance.{reconcile_lem}
use valla_pos.Drawer.Sessions.{
  DrawerSession, DrawerPayment, Drawers, Closing, is_open_session, is_row, cash_collected_since,
  find_open_session, prepare_close, close_row, commit_close,
}

-- The sum of the cash payments that were made from `opened` on and before `now`.
pub data Collected (opened now : ℕ) : List DrawerPayment → ℤ → Type 0 where
  no_payments : Collected opened now [] (pos 0)
  cash_in :
      {p : DrawerPayment} {ps : List DrawerPayment} {cash : ℤ}
      → p.method ≡ "CASH"
      → opened ≤ p.created_at
      → p.created_at < now
      → Collected opened now ps cash
      → Collected opened now (p ∷ ps) (p.amount_cents +ℤ cash)
  not_in :
      {p : DrawerPayment} {ps : List DrawerPayment} {cash : ℤ}
      → (p.method ≢ "CASH") ⊎ (p.created_at < opened) ⊎ (now ≤ p.created_at)
      → Collected opened now ps cash
      → Collected opened now (p ∷ ps) cash

-- An open session of this id is in the list.
abbrev pub HasOpen : String → DrawerSession → List DrawerSession → Type 0
HasOpen id d [] = ⊥
HasOpen id d (x ∷ xs) = ((d ≡ x) × (d.id ≡ id) × (d.closed_at ≡ none)) ⊎ HasOpen id d xs

-- A row before and after the update: the open rows of the id are closed with these amounts, all
-- others stay as they are.
abbrev pub IsClosed : String → ℤ → ℕ → ℤ → ℕ → DrawerSession → DrawerSession → Type 0
IsClosed id expected counted variance now x y =
    ((x.id ≡ id)
      × (x.closed_at ≡ none)
      × (y ≡ record x {
        expected_cents = some expected;
        counted_cents = some counted;
        variance_cents = some variance;
        closed_at = some now;
      }))
    ⊎ (((x.id ≢ id) ⊎ (x.closed_at ≢ none)) × (y ≡ x))

is_open-closed_at : (d : DrawerSession) → is_open_session d ≡ true → d.closed_at ≡ none
is_open-closed_at d h = elim (Option-cases d.closed_at) [
  | inl e ↦ e
  | inr (t, e) ↦ let no : false ≡ true = rw e at h in absurd (cc)
]

is_row-true :
    (id : String) (d : DrawerSession) → is_row id d ≡ true → (d.id ≡ id) × (d.closed_at ≡ none)
is_row-true id d h = elim (Bool-cases (str_eq d.id id)) [
  | inl e ↦ ((eq_iff d.id id).0 e, is_open-closed_at d (rw e at h))
  | inr e ↦ let no : false ≡ true = rw e at h in absurd (cc)
]

is_row-false :
    (id : String) (d : DrawerSession) → is_row id d ≡ false → (d.id ≢ id) ⊎ (d.closed_at ≢ none)
is_row-false id d h = elim (Option-cases d.closed_at) [
  | inl e ↦ inl (λ same.
      let yes : str_eq d.id id ≡ true = (eq_iff d.id id).1 same in
      let no : true ≡ false = rw (yes, e) at h in absurd (cc))
  | inr (t, e) ↦ inr (λ open_now. let both : some t ≡ none = rw e at open_now in absurd (cc))
]

find_open_session-HasOpen :
    (id : String) (ds : List DrawerSession) (d : DrawerSession)
    → find_open_session id ds ≡ some d
    → HasOpen id d ds × (d.id ≡ id)
unfolding find_open_session
find_open_session-HasOpen id [] d h = absurd (cc)
find_open_session-HasOpen id (x ∷ xs) d h = elim (Bool-cases (is_row id x)) [
  | inl e ↦
      let found : some x ≡ some d = rw (e, find_open_session) at h in
      let same : x ≡ d = cc in let (key, free) = is_row-true id x e in (inl (cc, cc, cc), cc)
  | inr e ↦
      let (there, key) = find_open_session-HasOpen id xs d (rw (e, find_open_session) at h) in
      (inr there, key)
]

zero_first : (x : ℤ) → pos 0 +ℤ x ≡ x
zero_first x = omega int_laws

cash_collected_since-Collected :
    (opened now : ℕ) (ps : List DrawerPayment)
    → Collected opened now ps (cash_collected_since opened now ps)
unfolding cash_collected_since
cash_collected_since-Collected opened now [] = no_payments
cash_collected_since-Collected opened now (p ∷ ps) =
    let rest = cash_collected_since-Collected opened now ps in
    let out = zero_first (cash_collected_since opened now ps) in
    elim (Bool-cases (str_eq p.method "CASH")) [
      | inr e ↦
          let other : p.method ≢ "CASH" = λ same.
            let yes : str_eq p.method "CASH" ≡ true = (eq_iff p.method "CASH").1 same in cc in
          rw (e, out) (not_in (inl other) rest)
      | inl e ↦ elim (Bool-cases (leb opened p.created_at)) [
        | inr f ↦ rw (e, f, out) (not_in (inr (inl (ground arith))) rest)
        | inl f ↦ elim (Bool-cases (ltb p.created_at now)) [
          | inr g ↦ rw (e, f, g, out) (not_in (inr (inr (ground arith))) rest)
          | inl g ↦
              rw (e, f, g)
                (cash_in ((eq_iff p.method "CASH").0 e) (ground arith) (ground arith) rest)
        ]
      ]
    ]

close_row-IsClosed :
    (c : Closing) (id : String) (counted now : ℕ) (ds : List DrawerSession)
    → c.session_id ≡ id
    → c.counted_cents ≡ counted
    → c.closed_at ≡ now
    → Pointwise
        (IsClosed id c.expected_cents counted c.variance_cents now)
        ds
        (map (close_row c) ds)
close_row-IsClosed c id counted now [] of_id count at = tt
close_row-IsClosed c id counted now (d ∷ ds) of_id count at =
    let rest = close_row-IsClosed c id counted now ds of_id count at in
    elim (Bool-cases (is_row c.session_id d)) [
      | inl e ↦ let (key, free) = is_row-true c.session_id d e in rw e (inl (cc, free, cc), rest)
      | inr e ↦ elim (is_row-false c.session_id d e) [
        | inl apart ↦ rw e (inr (inl (λ same. apart (cc)), refl), rest)
        | inr shut ↦ rw e (inr (inr shut, refl), rest)
      ]
    ]

filter-HasOpen :
    (id : String) (ds : List DrawerSession)
    → (length (filter (is_row id) ds) == 0) ≡ false
    → (d : DrawerSession) × HasOpen id d ds
filter-HasOpen id [] h = absurd (cc)
filter-HasOpen id (d ∷ ds) h = elim (Bool-cases (is_row id d)) [
  | inl e ↦ let (key, free) = is_row-true id d e in (d, inl (refl, key, free))
  | inr e ↦ let (x, there) = filter-HasOpen id ds (rw e at h) in (x, inr there)
]

-- What a prepared closing writes.
prepare_close-written :
    (allowed : Bool) (session_id : String) (counted now : ℕ) (s : Drawers) (c : Closing)
    → prepare_close allowed session_id counted now s ≡ some c
    → (allowed ≡ true)
      × ((d : DrawerSession) × HasOpen session_id d s.sessions
          × (c.session_id ≡ session_id)
          × (c.counted_cents ≡ counted)
          × (c.closed_at ≡ now)
          × (c.expected_cents
              ≡ pos d.opening_float_cents +ℤ cash_collected_since d.opened_at now s.payments)
          × (c.expected_cents +ℤ c.variance_cents ≡ pos counted))
unfolding prepare_close reconcile expected_cash
prepare_close-written allowed session_id counted now s c h = elim (Bool-cases allowed) [
  | inr e ↦ absurd (ground arith)
  | inl e ↦ elim (Option-cases (find_open_session session_id s.sessions)) [
    | inl f ↦ absurd (ground arith)
    | inr (d, f) ↦
        let collected = cash_collected_since d.opened_at now s.payments in
        let r = reconcile (pos d.opening_float_cents) collected (pos counted) in
        let written : Closing = record {
          session_id = d.id;
          expected_cents = r.expected_cents;
          counted_cents = counted;
          variance_cents = r.variance_cents;
          closed_at = now;
        } in
        let done : some written ≡ some c = rw (e, f, prepare_close) at h in
        let is : written ≡ c = cc in
        let (there, key) = find_open_session-HasOpen session_id s.sessions d f in
        rw (← is) (
          e,
          (
            d,
            there,
            key,
            refl,
            refl,
            refl,
            (reconcile_lem (pos d.opening_float_cents) collected (pos counted)).0,
          ),
        )
  ]
]

-- A drawer is closed with amounts that add up. Where a closing was prepared, and is committed at any
-- later state: the operator was allowed to; there was an open session of the id; the expected cash is
-- its float and the sum of the cash payments made from its opening on and before the closing; the expected
-- cash and the variance are the count; and the update closes the open rows of the id, of which there is
-- at least one, with these amounts, and leaves every other row and every payment as it is.
pub close_drawer_lem :
    (allowed : Bool) (session_id : String) (counted now : ℕ) (s : Drawers) (c : Closing)
    (t t' : Drawers)
    → prepare_close allowed session_id counted now s ≡ some c
    → commit_close c t ≡ some t'
    → (allowed ≡ true)
      × ((d : DrawerSession) × (cash expected variance : ℤ) × HasOpen session_id d s.sessions
          × Collected d.opened_at now s.payments cash
          × (expected ≡ pos d.opening_float_cents +ℤ cash)
          × (expected +ℤ variance ≡ pos counted)
          × Pointwise (IsClosed session_id expected counted variance now) t.sessions t'.sessions)
      × ((x : DrawerSession) × HasOpen session_id x t.sessions)
      × (t'.payments ≡ t.payments)
unfolding commit_close
close_drawer_lem allowed session_id counted now s c t t' h k =
    let (may, (d, there, key, count, at, expects, adds)) =
      prepare_close-written allowed session_id counted now s c h in
    elim (Bool-cases (length (filter (is_row c.session_id) t.sessions) == 0)) [
      | inl e ↦ let nothing : none ≡ some t' = rw (e, commit_close) at k in absurd (cc)
      | inr e ↦
          let done : some (record t { sessions = map (close_row c) t.sessions }) ≡ some t' =
            rw (e, commit_close) at k in
          let same : record t { sessions = map (close_row c) t.sessions } ≡ t' = cc in
          let cash = cash_collected_since d.opened_at now s.payments in
          rw (← same) (
            may,
            (
              d,
              cash,
              c.expected_cents,
              c.variance_cents,
              there,
              cash_collected_since-Collected d.opened_at now s.payments,
              expects,
              adds,
              close_row-IsClosed c session_id counted now t.sessions key count at,
            ),
            rw key at (filter-HasOpen c.session_id t.sessions e),
            refl,
          )
    ]
