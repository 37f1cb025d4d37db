-- ===== src/Tabs/Edits/Unpaid.antt =====
-- Edits of unsettled lines leave the settled money of a tab alone.
use Prim.Native.String.{String}
use text.Mathlib.Text.{◌==◌ as str_eq}
use valla_pos.Base.{
  ◌+◌, ◌≡◌, refl, Bool, true, Option, none, some, List, [], ◌∷◌, ◌++◌, map, sum_by, sum_by-append,
  All, inl, inr, Bool-cases, arith,
}
use valla_pos.Tabs.{TabLine, Seats, is_unsettled}
use valla_pos.Tabs.Settle.{covered, due}
use valla_pos.Tabs.Edits.{
  Tab, TabRow, Edit, append_lines, put_quantity, drop_line, put_seat, attach_table, move_tables,
  settle_lines, find_row, update_row, delete_row, add_table, without_table, with_quantity,
  with_seat, recompute_order_totals, edit_tab,
}
use valla_pos.Tabs.Edits.Balance.{
  settled_due, IsBalanced, IsDistinct, IsLater, ids_of, settle_lines_step-IsBalanced,
}

-- The line with this id, if there is one, is unsettled.
abbrev pub IsUnpaid : Option TabRow → Type 0
IsUnpaid none = Unit
IsUnpaid (some r) = is_unsettled r.line ≡ true

abbrev pub lines_of : Tab → List TabLine
lines_of t = map (λ (r : TabRow). r.line) t.lines

-- An edit touches unsettled lines only, and a settlement is planned on the lines of the tab as they
-- are, with a payment of what these come to and the tip.
abbrev pub IsSafe : Bool → Edit → Tab → Type 0
IsSafe inclusive (append_lines b rows) t = All (λ (r : TabRow). is_unsettled r.line ≡ true) rows
IsSafe inclusive (put_quantity b id n p) t = IsUnpaid (find_row id t.lines)
IsSafe inclusive (drop_line b id) t = IsUnpaid (find_row id t.lines)
IsSafe inclusive (put_seat id seat) t = IsUnpaid (find_row id t.lines)
IsSafe inclusive (attach_table id) t = Unit
IsSafe inclusive (move_tables from_id to_id) t = Unit
IsSafe inclusive (settle_lines b payment ids tip) t =
    (seats : Seats) × (b ≡ inclusive)
    × (ids ≡ ids_of (covered seats (lines_of t)))
    × (payment.amount_cents ≡ sum_by (due inclusive) (covered seats (lines_of t)) + tip)

settled-unpaid :
    (inclusive : Bool) (rows : List TabRow)
    → All (λ (r : TabRow). is_unsettled r.line ≡ true) rows
    → sum_by (settled_due inclusive) rows ≡ 0
settled-unpaid inclusive [] h = refl
settled-unpaid inclusive (r ∷ rs) (e, more) = ground (arith, settled-unpaid inclusive rs more)

settled-update :
    (inclusive : Bool) (id : String) (f : TabRow → TabRow) (rows : List TabRow)
    → ((r : TabRow) → is_unsettled (f r).line ≡ is_unsettled r.line)
    → IsUnpaid (find_row id rows)
    → sum_by (settled_due inclusive) (update_row id f rows) ≡ sum_by (settled_due inclusive) rows
unfolding update_row find_row
settled-update inclusive id f [] keeps h = refl
settled-update inclusive id f (r ∷ rs) keeps h = elim (Bool-cases (str_eq r.line.id id)) [
  | inl e ↦
      let unpaid : is_unsettled r.line ≡ true = rw (e, find_row) at h in
      rw e (ground (arith, keeps r))
  | inr e ↦
      let later : IsUnpaid (find_row id rs) = rw (e, find_row) at h in
      rw e (omega (arith, settled-update inclusive id f rs keeps later))
]

settled-delete :
    (inclusive : Bool) (id : String) (rows : List TabRow)
    → IsUnpaid (find_row id rows)
    → sum_by (settled_due inclusive) (delete_row id rows) ≡ sum_by (settled_due inclusive) rows
unfolding delete_row find_row
settled-delete inclusive id [] h = refl
settled-delete inclusive id (r ∷ rs) h = elim (Bool-cases (str_eq r.line.id id)) [
  | inl e ↦ let unpaid : is_unsettled r.line ≡ true = rw (e, find_row) at h in rw e (ground arith)
  | inr e ↦
      let later : IsUnpaid (find_row id rs) = rw (e, find_row) at h in
      rw e (omega (arith, settled-delete inclusive id rs later))
]

-- A tab as it is, is one to which nothing has happened since.
pub IsLater-refl :
    (inclusive : Bool) (ids : List String) (rows : List TabRow)
    → IsLater inclusive ids (map (λ (r : TabRow). r.line) rows) rows
IsLater-refl inclusive ids [] = tt
IsLater-refl inclusive ids (r ∷ rs) = (refl, refl, inl refl, IsLater-refl inclusive ids rs)

recomputed-IsBalanced :
    (inclusive b : Bool) (t t' : Tab)
    → IsBalanced inclusive t
    → some (recompute_order_totals b t) ≡ some t'
    → IsBalanced inclusive t'
unfolding recompute_order_totals
recomputed-IsBalanced inclusive b t t' balanced h =
    let same : recompute_order_totals b t ≡ t' = cc in rw (← same) balanced

-- A safe edit that goes through leaves a balanced tab.
pub edit_tab-IsBalanced :
    (inclusive : Bool) (e : Edit) (t t' : Tab)
    → IsSafe inclusive e t
    → IsDistinct (lines_of t)
    → IsBalanced inclusive t
    → edit_tab e t ≡ some t'
    → IsBalanced inclusive t'
unfolding edit_tab
edit_tab-IsBalanced inclusive (append_lines b rows) t t' safe distinct balanced h =
    recomputed-IsBalanced inclusive b (record t { lines = t.lines ++ rows }) t'
      (omega (
        arith,
        balanced,
        sum_by-append (settled_due inclusive) t.lines rows,
        settled-unpaid inclusive rows safe,
      ))
      h
edit_tab-IsBalanced inclusive (put_quantity b id n p) t t' safe distinct balanced h =
    recomputed-IsBalanced inclusive b
      (record t { lines = update_row id (with_quantity n p) t.lines }) t'
      (omega
        (arith, balanced, settled-update inclusive id (with_quantity n p) t.lines (λ r. refl) safe))
      h
edit_tab-IsBalanced inclusive (drop_line b id) t t' safe distinct balanced h =
    recomputed-IsBalanced inclusive b (record t { lines = delete_row id t.lines }) t'
      (omega (arith, balanced, settled-delete inclusive id t.lines safe)) h
edit_tab-IsBalanced inclusive (put_seat id seat) t t' safe distinct balanced h =
    let same : record t { lines = update_row id (with_seat seat) t.lines } ≡ t' = cc in
    rw (← same) (
      omega
        (arith, balanced, settled-update inclusive id (with_seat seat) t.lines (λ r. refl) safe))
edit_tab-IsBalanced inclusive (attach_table id) t t' safe distinct balanced h =
    let same : record t { tables = add_table id t.tables } ≡ t' = cc in rw (← same) balanced
edit_tab-IsBalanced inclusive (move_tables from_id to_id) t t' safe distinct balanced h =
    let same : record t { tables = add_table to_id (without_table from_id t.tables) } ≡ t' = cc in
    rw (← same) balanced
edit_tab-IsBalanced inclusive (settle_lines b payment ids tip) t t' (seats, under, is, amount)
      distinct balanced h =
    (settle_lines_step-IsBalanced inclusive seats (lines_of t) payment tip t t' distinct
      (IsLater-refl inclusive (ids_of (covered seats (lines_of t))) t.lines) amount balanced
      (rw (under, is) at h)).0
