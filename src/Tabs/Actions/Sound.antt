-- ===== src/Tabs/Actions/Sound.antt =====
-- The books of all tabs, over any sequence of actions.
use Prim.Native.String.{String}
use text.Mathlib.Text.{◌==◌ as str_eq}
use valla_pos.Base.{
  ℕ, ◌≤◌, ◌≡◌, refl, Bool, Option, some, List, [], ◌∷◌, All, inl, inr, Bool-cases, Option-cases,
  if◌then◌else◌, arith, sum_by,
}
use valla_pos.Base.Result.{ok, Result-cases}
use valla_pos.Money.Discount.{Fractions}
use valla_pos.PinThrottle.{Store}
use valla_pos.Register.Approval.{Member}
use valla_pos.Register.Resolve.{CatalogRow}
use valla_pos.Register.Checkout.{Operator}
use valla_pos.Tabs.Edits.{Tab, Edit, edit_tab}
use valla_pos.Tabs.Edits.Balance.{IsBalanced, IsDistinct}
use valla_pos.Tabs.Edits.Unpaid.{lines_of, edit_tab-IsBalanced}
use valla_pos.Tabs.Edits.Totals.{IsConsistent, edit_tab-IsConsistent}
use valla_pos.Tabs.Actions.{
  Floor, SettleInput, SettleOutcome, seats_of, find_tab, put_tab, open_tab, commit_edit,
  edit_action, settle_tab,
}
use valla_pos.Tabs.Actions.Cases.{commit_edit-cases, open_tab-cases, settle_tab-cases}
use valla_pos.Tabs.Actions.Prepared.{Request, prepare, IsFor, prepare-IsFor, prepare_settle-IsFor}

-- The stored totals are those of the lines, and the payments those of the settled lines and the tips.
abbrev pub IsSound : Bool → Tab → Type 0
IsSound inclusive t = IsConsistent inclusive t × IsBalanced inclusive t

abbrev pub IsSoundFloor : Floor → Type 0
IsSoundFloor s = All (IsSound s.tax_inclusive) s.tabs

-- How many orders have an id.
abbrev pub ids_with : String → List Tab → ℕ
ids_with id = sum_by (λ (t : Tab). if str_eq t.id id then 1 else 0)

-- Ids of lines and of orders are primary keys: the database lets no transaction store one twice.
abbrev pub HasKeys : Floor → Type 0
HasKeys s =
    All (λ (t : Tab). IsDistinct (lines_of t)) s.tabs × ((id : String) → ids_with id s.tabs ≤ 1)

pub All-find_tab {κ} :
    (P : Tab → Type κ) (id : String) (ts : List Tab) (t : Tab)
    → All P ts
    → find_tab id ts ≡ some t
    → P t
unfolding find_tab
All-find_tab P id [] t h e = absurd (cc)
All-find_tab P id (x ∷ xs) t (p, ps) e = elim (Bool-cases (str_eq x.id id)) [
  | inl f ↦
      let found : some x ≡ some t = rw (f, find_tab) at e in let same : x ≡ t = cc in rw same at p
  | inr f ↦ All-find_tab P id xs t ps (rw (f, find_tab) at e)
]

pub All-put_tab {κ} :
    (P : Tab → Type κ) (t : Tab) (ts : List Tab) → P t → All P ts → All P (put_tab t ts)
unfolding put_tab
All-put_tab P t [] p h = tt
All-put_tab P t (x ∷ xs) p (q, qs) = elim (Bool-cases (str_eq x.id t.id)) [
  | inl f ↦ rw f (p, All-put_tab P t xs p qs)
  | inr f ↦ rw f (q, All-put_tab P t xs p qs)
]

commit_edit-IsSound :
    (id : String) (e : Edit) (s : Floor) (t' : Tab) (s' : Floor)
    → IsFor id s e
    → HasKeys s
    → IsSoundFloor s
    → commit_edit id e s ≡ some (t', s')
    → IsSoundFloor s'
commit_edit-IsSound id e s t' s' (t, found, safe, under) keys sound h =
    let (t2, found2, edited, is) = commit_edit-cases id e s t' s' h in
    let same : t2 ≡ t = cc in
    let edited2 : edit_tab e t ≡ some t' = rw same at edited in
    let distinct = All-find_tab (λ (x : Tab). IsDistinct (lines_of x)) id s.tabs t keys.0 found in
    let (consistent, balanced) = All-find_tab (IsSound s.tax_inclusive) id s.tabs t sound found in
    rw is (
      All-put_tab (IsSound s.tax_inclusive) t' s.tabs
        (
          edit_tab-IsConsistent s.tax_inclusive e t t' under consistent edited2,
          edit_tab-IsBalanced s.tax_inclusive e t t' safe distinct balanced edited2,
        )
        sound)

open_tab-IsSound :
    (new_id : String) (granted : Option Operator) (table id : String) (s s' : Floor)
    → IsSoundFloor s
    → open_tab new_id granted table s ≡ ok (id, s')
    → IsSoundFloor s'
open_tab-IsSound new_id granted table id s s' sound h =
    let (op, allowed, free, is_id, is) = open_tab-cases new_id granted table id s s' h in
    rw is ((record { tax = refl; discount = refl; subtotal = refl; total = refl }, refl), sound)

module _ (fr : Fractions) (trim : String → String) (notation : ℕ → String)
    (verify_pin : String → String → Bool) (b : String) where
  edit_action-IsSound :
      (allowed : Bool) (id : String) (q : Request) (s s' : Floor)
      → HasKeys s
      → IsSoundFloor s
      → edit_action allowed id (prepare fr trim notation id q) s ≡ ok s'
      → IsSoundFloor s'
  unfolding edit_action
  edit_action-IsSound allowed id q s s' keys sound h =
      elim (Result-cases (prepare fr trim notation id q s)) [
        | inr (x, f) ↦ absurd (ground arith)
        | inl (e, f) ↦ elim (Option-cases (commit_edit id e s)) [
          | inl g ↦ absurd (ground arith)
          | inr ((t, s2), g) ↦
              let same : s2 ≡ s' = ground arith in
              rw same at (
                commit_edit-IsSound id e s t s2 (prepare-IsFor fr trim notation id q s e f) keys
                  sound g)
        ]
      ]

  settle_tab-IsSound :
      (payment_id : String) (data' : SettleInput) (granted : Option Operator) (now : ℕ)
      (out : SettleOutcome) (s s' : Floor)
      → HasKeys s
      → IsSoundFloor s
      → settle_tab verify_pin b payment_id data' granted now s ≡ (out, s')
      → IsSoundFloor s'
  settle_tab-IsSound payment_id data' granted now out s s' keys sound h =
      elim (settle_tab-cases verify_pin b payment_id data' granted now out s s' h) [
        | inl (throttle, is, unpaid) ↦ rw is sound
        | inr (op, throttle, e, amount, t, allowed, passed, prepared, committed, is) ↦
            let s1 = record s { throttle = throttle } in
            let (t0, found, opened, (is_amount, is_edit, covers)) =
              prepare_settle-IsFor payment_id data' s1 e amount prepared in
            let for_tab : IsFor data'.order_id s1 e = (
              t0,
              found,
              rw is_edit (seats_of data'.seats, refl, refl, rw is_amount refl),
              rw is_edit refl,
            ) in
            commit_edit-IsSound data'.order_id e s1 t s' for_tab keys sound committed
      ]

  -- What happens to the floor: the actions, and changes of all but the tax setting elsewhere.
  pub data Step : Floor → Floor → Type 0 where
    opened :
        {s s' : Floor} (new_id : String) (granted : Option Operator) (table id : String)
        → open_tab new_id granted table s ≡ ok (id, s')
        → Step s s'
    edited :
        {s s' : Floor} (allowed : Bool) (id : String) (q : Request)
        → edit_action allowed id (prepare fr trim notation id q) s ≡ ok s'
        → Step s s'
    paid_for :
        {s s' : Floor} (payment_id : String) (data' : SettleInput) (granted : Option Operator)
        (now : ℕ) (out : SettleOutcome)
        → settle_tab verify_pin b payment_id data' granted now s ≡ (out, s')
        → Step s s'
    elsewhere :
        {s : Floor} (catalog : List CatalogRow) (members : List Member) (rate : ℕ)
        (throttle : Store)
        → Step s (record s {
          catalog = catalog;
          members = members;
          tax_rate_bps = rate;
          throttle = throttle;
        })

  pub data Run (s : Floor) : Floor → Type 0 where
    here : Run s s
    next : {t u : Floor} → Run s t → HasKeys t → Step t u → Run s u

  Step-IsSound : {s s' : Floor} → HasKeys s → Step s s' → IsSoundFloor s → IsSoundFloor s'
  Step-IsSound {s} {s'} keys (opened new_id granted table id h) sound =
      open_tab-IsSound new_id granted table id s s' sound h
  Step-IsSound {s} {s'} keys (edited allowed id q h) sound =
      edit_action-IsSound allowed id q s s' keys sound h
  Step-IsSound {s} {s'} keys (paid_for payment_id data' granted now out h) sound =
      settle_tab-IsSound payment_id data' granted now out s s' keys sound h
  Step-IsSound keys (elsewhere catalog members rate throttle) sound = sound

  -- The books of the tabs are right after any sequence of actions, each served on its own, that starts
  -- where they are right: for every order the stored totals are the sums over its lines, and its
  -- payments are what its settled lines come to with the tips. Ids are primary keys, and
  -- the tax setting does not change.
  pub Run-IsSound : {s s' : Floor} → IsSoundFloor s → Run s s' → IsSoundFloor s'
  Run-IsSound sound here = sound
  Run-IsSound sound (next run keys step) = Step-IsSound keys step (Run-IsSound sound run)
