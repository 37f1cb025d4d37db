-- ===== src/Tabs/Actions/Holders.antt =====
-- How many open tabs hold a table, and what the edits make of it.
use Prim.Native.String.{String}
use text.Mathlib.Text.{◌==◌ as str_eq}
use valla_pos.Base.{
  ℕ, ◌+◌, ◌≤◌, ◌≡◌, refl, ap, Bool, true, false, none, some, List, [], ◌∷◌, ◌++◌, map, filter, any,
  length, sum_by, inl, inr, Bool-cases, arith, ◌==◌,
}
use valla_pos.Tabs.Edits.{
  Tab, TabPayment, Edit, update_row, delete_row, with_quantity, with_seat, settle_row, is_open_row,
  append_lines, put_quantity, drop_line, put_seat, attach_table, move_tables, settle_lines,
  same_table, add_table, without_table, recompute_order_totals, settled_tab, settle_lines_step,
  edit_tab, is_due,
}
use valla_pos.Tabs.Actions.{holds, find_tab, put_tab, is_occupied, is_held_by_other}
use valla_pos.Tabs.Actions.Sound.{ids_with}

abbrev pub one : Bool → ℕ
one true = 1
one false = 0

pub one-le : (b : Bool) → one b ≤ 1
one-le true = omega arith
one-le false = omega arith

-- How many open tabs hold a table.
abbrev pub holders : String → List Tab → ℕ
holders table = sum_by (λ (t : Tab). one (holds table t))

-- The table that an edit adds.
abbrev pub gains : Edit → String → Bool
gains (attach_table id) u = str_eq id u
gains (move_tables from_id to_id) u = str_eq to_id u
gains (append_lines b rows) u = false
gains (put_quantity b id n p) u = false
gains (drop_line b id) u = false
gains (put_seat id seat) u = false
gains (settle_lines b payment ids tip) u = false

any-add_table :
    (id u : String) (tables : List String)
    → one (any (same_table u) (add_table id tables))
      ≤ one (any (same_table u) tables) + one (str_eq id u)
any-add_table id u tables = elim (Bool-cases (any (same_table id) tables)) [
  | inl e ↦ rw e (omega arith)
  | inr e ↦ rw e (ground arith)
]

any-without_table :
    (id u : String) (tables : List String)
    → one (any (same_table u) (without_table id tables)) ≤ one (any (same_table u) tables)
any-without_table id u [] = omega arith
any-without_table id u (x ∷ xs) = ground (arith, any-without_table id u xs)

settled-holds :
    (b : Bool) (payment : TabPayment) (ids : List String) (tip : ℕ) (t : Tab) (u : String)
    → ((settled_tab b payment ids tip t).id ≡ t.id)
      × (one (holds u (settled_tab b payment ids tip t)) ≤ one (holds u t) + 0)
unfolding settled_tab recompute_order_totals
settled-holds b payment ids tip t u =
    elim (Bool-cases (length (filter is_open_row (map (settle_row payment.id ids) t.lines)) == 0)) [
      | inl e ↦ (refl, rw e (omega arith))
      | inr e ↦ (refl, rw e (omega arith))
    ]

-- No edit but one of the tables makes a tab hold more.
pub edit_tab-holds :
    (e : Edit) (t t' : Tab) (u : String)
    → edit_tab e t ≡ some t'
    → (t'.id ≡ t.id) × (one (holds u t') ≤ one (holds u t) + one (gains e u))
unfolding edit_tab recompute_order_totals settle_lines_step
edit_tab-holds (append_lines b rows) t t' u h =
    let same : recompute_order_totals b (record t { lines = t.lines ++ rows }) ≡ t' = cc in
    rw (← same) (refl, omega arith)
edit_tab-holds (put_quantity b id n p) t t' u h =
    let same : recompute_order_totals b
          (record t { lines = update_row id (with_quantity n p) t.lines })
        ≡ t' =
      cc in
    rw (← same) (refl, omega arith)
edit_tab-holds (drop_line b id) t t' u h =
    let same : recompute_order_totals b (record t { lines = delete_row id t.lines }) ≡ t' = cc in
    rw (← same) (refl, omega arith)
edit_tab-holds (put_seat id seat) t t' u h =
    let same : record t { lines = update_row id (with_seat seat) t.lines } ≡ t' = cc in
    rw (← same) (refl, omega arith)
edit_tab-holds (attach_table id) t t' u h =
    let same : record t { tables = add_table id t.tables } ≡ t' = cc in
    rw (← same) (refl, ground (arith, any-add_table id u t.tables))
edit_tab-holds (move_tables from_id to_id) t t' u h =
    let same : record t { tables = add_table to_id (without_table from_id t.tables) } ≡ t' = cc in
    rw (← same) (
      refl,
      ground (
        arith,
        any-add_table to_id u (without_table from_id t.tables),
        any-without_table from_id u t.tables,
      ),
    )
edit_tab-holds (settle_lines b payment ids tip) t t' u h =
    elim (Bool-cases (length (filter (is_due ids) t.lines) == length ids)) [
      | inr e ↦
          let nothing : none ≡ some t' = rw (e, edit_tab, settle_lines_step) at h in absurd (cc)
      | inl e ↦
          let done : some (settled_tab b payment ids tip t) ≡ some t' =
            rw (e, edit_tab, settle_lines_step) at h in
          let same : settled_tab b payment ids tip t ≡ t' = cc in
          rw (← same) (settled-holds b payment ids tip t u)
    ]

put_tab-absent :
    (id : String) (ts : List Tab) (t' : Tab) → ids_with id ts ≡ 0 → t'.id ≡ id → put_tab t' ts ≡ ts
unfolding put_tab
put_tab-absent id [] t' h same = refl
put_tab-absent id (x ∷ xs) t' h same =
    let unlike : str_eq x.id id ≡ false = ground arith in
    let apart : str_eq x.id t'.id ≡ false = rw same unlike in
    rw apart (ap (◌∷◌ x) (put_tab-absent id xs t' (ground arith) same))

-- Replacing a tab counts it anew.
pub holders-put_tab :
    (u id : String) (ts : List Tab) (t t' : Tab)
    → ids_with id ts ≤ 1
    → find_tab id ts ≡ some t
    → t'.id ≡ id
    → (holders u (put_tab t' ts) + one (holds u t) ≡ holders u ts + one (holds u t'))
unfolding find_tab put_tab
holders-put_tab u id [] t t' keys found same = absurd (cc)
holders-put_tab u id (x ∷ xs) t t' keys found same = elim (Bool-cases (str_eq x.id id)) [
  | inl e ↦
      let is : some x ≡ some t = rw (e, find_tab) at found in
      let it : x ≡ t = cc in
      let gone : put_tab t' xs ≡ xs = put_tab-absent id xs t' (ground arith) same in
      let here : str_eq x.id t'.id ≡ true = rw same e in rw (here, gone, it) (omega arith)
  | inr e ↦
      let apart : str_eq x.id t'.id ≡ false = rw same e in
      rw apart (
        omega (arith, holders-put_tab u id xs t t' (ground arith) (rw (e, find_tab) at found) same))
]

holders-others :
    (u id : String) (ts : List Tab)
    → ids_with id ts ≡ 0
    → is_held_by_other id u ts ≡ false
    → holders u ts ≡ 0
unfolding is_held_by_other
holders-others u id [] keys free = refl
holders-others u id (x ∷ xs) keys free = ground (arith, holders-others u id xs)

-- Where no other tab holds a table, the tab itself is all that counts.
pub holders-other :
    (u id : String) (ts : List Tab) (t : Tab)
    → ids_with id ts ≤ 1
    → find_tab id ts ≡ some t
    → is_held_by_other id u ts ≡ false
    → holders u ts ≡ one (holds u t)
unfolding find_tab is_held_by_other
holders-other u id [] t keys found free = absurd (cc)
holders-other u id (x ∷ xs) t keys found free = elim (Bool-cases (str_eq x.id id)) [
  | inl e ↦
      let is : some x ≡ some t = rw (e, find_tab) at found in
      let it : x ≡ t = cc in
      rw (← it) (omega (arith, holders-others u id xs (ground arith) (ground arith)))
  | inr e ↦
      let unheld : holds u x ≡ false = ground arith in
      rw unheld (
        omega (
          arith,
          holders-other u id xs t (ground arith) (rw (e, find_tab) at found) (ground arith),
        ))
]

pub holders-free : (u : String) (ts : List Tab) → is_occupied u ts ≡ false → holders u ts ≡ 0
unfolding is_occupied
holders-free u [] h = refl
holders-free u (t ∷ ts) h = ground (arith, holders-free u ts)
