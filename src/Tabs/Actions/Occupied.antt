-- ===== src/Tabs/Actions/Occupied.antt =====
-- A table has at most one open tab.
use Prim.Native.String.{String}
use text.Mathlib.Text.{◌==◌ as str_eq}
use text.Mathlib.TextEquality.{eq_iff}
use valla_pos.Base.{
  ℕ, ◌≤◌, ◌≡◌, ◌⊎◌, refl, ◌∙◌, Bool, false, not, Option, some, List, any, inl, inr, Bool-cases,
  Option-cases, arith,
}
use valla_pos.Base.Result.{ok, Result-cases}
use valla_pos.Money.Discount.{Fractions}
use valla_pos.Register.Resolve.{resolve_order_lines}
use valla_pos.Register.Checkout.{Operator}
use valla_pos.Tabs.Edits.{Tab, Edit, attach_table, move_tables, same_table}
use valla_pos.Tabs.Actions.{
  Floor, holds, is_held_by_other, load_open_order, load_unpaid_row, open_tab, commit_edit,
  edit_action, prepare_merge, prepare_transfer, prepare_add, prepare_quantity, prepare_remove,
  prepare_seat,
}
use valla_pos.Tabs.Actions.Cases.{commit_edit-cases, open_tab-cases, settle_tab-cases}
use valla_pos.Tabs.Actions.Prepared.{
  Request, merge, transfer, add, quantity, remove, reseat, prepare, prepare_settle-IsFor,
}
use valla_pos.Tabs.Actions.Settled.{find_tab-id}
use valla_pos.Tabs.Actions.Sound.{
  HasKeys, Step, opened, edited, paid_for, elsewhere, Run, here, next,
}
use valla_pos.Tabs.Actions.Holders.{
  one, one-le, holders, gains, edit_tab-holds, holders-put_tab, holders-other, holders-free,
}

-- Every table has at most one open tab.
abbrev pub IsSeated : Floor → Type 0
IsSeated s = (table : String) → holders table s.tabs ≤ 1

-- A table that no other tab holds, named by its id.
free-of :
    (id table u : String) (ts : List Tab)
    → is_held_by_other id table ts ≡ false
    → (str_eq table u ≡ false) ⊎ (is_held_by_other id u ts ≡ false)
free-of id table u ts h = elim (Bool-cases (str_eq table u)) [
  | inr e ↦ inl e
  | inl e ↦ let same : table ≡ u = (eq_iff table u).0 e in inr (rw same at h)
]

commit_edit-IsSeated :
    (id : String) (e : Edit) (s : Floor) (t' : Tab) (s' : Floor)
    → HasKeys s
    → ((u : String) → (gains e u ≡ false) ⊎ (is_held_by_other id u s.tabs ≡ false))
    → IsSeated s
    → commit_edit id e s ≡ some (t', s')
    → IsSeated s'
commit_edit-IsSeated id e s t' s' keys free seated h u =
    let (t, found, changed_to, is) = commit_edit-cases id e s t' s' h in
    let (same_id, fewer) = edit_tab-holds e t t' u changed_to in
    let own : t'.id ≡ id = same_id ∙ find_tab-id id s.tabs t found in
    let counted = holders-put_tab u id s.tabs t t' (keys.1 id) found own in
    rw is (elim (free u) [
      | inl none_gained ↦
          let fewer2 : one (holds u t') ≤ one (holds u t) = ground (arith, fewer) in
          omega (arith, counted, fewer2, seated u)
      | inr unheld ↦
          let alone = holders-other u id s.tabs t (keys.1 id) found unheld in
          let most : one (holds u t') ≤ 1 = one-le (holds u t') in
          omega (arith, counted, alone, most)
    ])

module _ (fr : Fractions) (trim : String → String) (notation : ℕ → String) where
  prepare-free :
      (id : String) (q : Request) (s : Floor) (e : Edit) (u : String)
      → prepare fr trim notation id q s ≡ ok e
      → (gains e u ≡ false) ⊎ (is_held_by_other id u s.tabs ≡ false)
  unfolding prepare_merge prepare_transfer prepare_add prepare_quantity prepare_remove prepare_seat
  prepare-free id (merge table) s e u h = elim (Result-cases (load_open_order id s)) [
    | inr (x, f) ↦ absurd (ground arith)
    | inl (t, f) ↦ elim (Bool-cases (not (any (same_table table) s.tables))) [
      | inl g ↦ absurd (ground arith)
      | inr g ↦ elim (Bool-cases (is_held_by_other id table s.tabs)) [
        | inl k ↦ absurd (ground arith)
        | inr k ↦
            let is : e ≡ attach_table table = ground arith in rw is (free-of id table u s.tabs k)
      ]
    ]
  ]
  prepare-free id (transfer from_table to_table) s e u h =
      elim (Result-cases (load_open_order id s)) [
        | inr (x, f) ↦ absurd (ground arith)
        | inl (t, f) ↦ elim (Bool-cases (not (any (same_table to_table) s.tables))) [
          | inl g ↦ absurd (ground arith)
          | inr g ↦ elim (Bool-cases (is_held_by_other id to_table s.tabs)) [
            | inl k ↦ absurd (ground arith)
            | inr k ↦
                let is : e ≡ move_tables from_table to_table = ground arith in
                rw is (free-of id to_table u s.tabs k)
          ]
        ]
      ]
  prepare-free id (add new_ids seat lines) s e u h = elim (Result-cases (load_open_order id s)) [
    | inr (x, f) ↦ absurd (ground arith)
    | inl (t, f) ↦ elim (Result-cases (resolve_order_lines trim notation s.catalog lines)) [
      | inr (x, g) ↦ absurd (ground arith)
      | inl ((ls, clamped), g) ↦ let unchanged : gains e u ≡ false = ground arith in inl unchanged
    ]
  ]
  prepare-free id (quantity line_id n) s e u h =
      elim (Result-cases (load_unpaid_row id line_id s)) [
        | inr (x, f) ↦ absurd (ground arith)
        | inl (r, f) ↦ let unchanged : gains e u ≡ false = ground arith in inl unchanged
      ]
  prepare-free id (remove line_id) s e u h = elim (Result-cases (load_unpaid_row id line_id s)) [
    | inr (x, f) ↦ absurd (ground arith)
    | inl (r, f) ↦ let unchanged : gains e u ≡ false = ground arith in inl unchanged
  ]
  prepare-free id (reseat line_id seat) s e u h =
      elim (Result-cases (load_unpaid_row id line_id s)) [
        | inr (x, f) ↦ absurd (ground arith)
        | inl (r, f) ↦ let unchanged : gains e u ≡ false = ground arith in inl unchanged
      ]

open_tab-IsSeated :
    (new_id : String) (granted : Option Operator) (table id : String) (s s' : Floor)
    → IsSeated s
    → open_tab new_id granted table s ≡ ok (id, s')
    → IsSeated s'
open_tab-IsSeated new_id granted table id s s' seated h u =
    let (op, allowed, free, is_id, is) = open_tab-cases new_id granted table id s s' h in
    rw is (elim (Bool-cases (str_eq table u)) [
      | inl e ↦
          let same : table ≡ u = (eq_iff table u).0 e in
          let nobody : holders u s.tabs ≡ 0 = holders-free u s.tabs (rw same at free) in
          rw e (omega (arith, nobody))
      | inr e ↦ rw e (omega (arith, seated u))
    ])

module _ (fr : Fractions) (trim : String → String) (notation : ℕ → String)
    (verify_pin : String → String → Bool) (b : String) where
  Step-IsSeated :
      {s s' : Floor}
      → HasKeys s
      → Step fr trim notation verify_pin b s s'
      → IsSeated s
      → IsSeated s'
  unfolding edit_action
  Step-IsSeated {s} {s'} keys (opened new_id granted table id h) seated =
      open_tab-IsSeated new_id granted table id s s' seated h
  Step-IsSeated {s} {s'} keys (edited allowed id q h) seated =
      elim (Result-cases (prepare fr trim notation id q s)) [
        | inr (x, f) ↦ absurd (ground arith)
        | inl (e, f) ↦ elim (Option-cases (commit_edit id e s)) [
          | inl g ↦ absurd (ground arith)
          | inr ((t, s2), g) ↦
              let same : s2 ≡ s' = ground arith in
              rw same at (
                commit_edit-IsSeated id e s t s2 keys
                  (λ u. prepare-free fr trim notation id q s e u f) seated g)
        ]
      ]
  Step-IsSeated {s} {s'} keys (paid_for payment_id data' granted now out h) seated =
      elim (settle_tab-cases verify_pin b payment_id data' granted now out s s' h) [
        | inl (throttle, is, unpaid) ↦ rw is seated
        | inr (op, throttle, e, amount, t, allowed, passed, prepared, committed, is) ↦
            let s1 = record s { throttle = throttle } in
            let (t0, found, opened_tab, (is_amount, is_edit, covers)) =
              prepare_settle-IsFor payment_id data' s1 e amount prepared in
            commit_edit-IsSeated data'.order_id e s1 t s' keys (λ u. inl (rw is_edit refl)) seated
              committed
      ]
  Step-IsSeated keys (elsewhere catalog members rate throttle) seated = seated

  -- A table never gets a second open tab: from a floor where each table has at most one, any sequence
  -- of actions, each served on its own, leads to one where each has at most one. Ids are primary
  -- keys.
  pub Run-IsSeated :
      {s s' : Floor} → IsSeated s → Run fr trim notation verify_pin b s s' → IsSeated s'
  Run-IsSeated seated here = seated
  Run-IsSeated seated (next run keys step) = Step-IsSeated keys step (Run-IsSeated seated run)
