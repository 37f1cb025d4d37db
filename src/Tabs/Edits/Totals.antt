-- ===== src/Tabs/Edits/Totals.antt =====
-- The stored totals of a tab are those of its lines.
use Prim.Native.String.{String}
use valla_pos.Base.{
  ℕ, ◌+◌, ◌≡◌, refl, ◌∙◌, sym, Bool, true, false, Option, none, some, List, [], ◌∷◌, sum_by, inl,
  inr, Bool-cases, if◌then◌else◌, arith, ◌==◌, filter, length,
}
use valla_pos.Tabs.{line_amount_due}
use valla_pos.Tabs.Edits.{
  Tab, TabRow, Edit, append_lines, put_quantity, drop_line, put_seat, attach_table, move_tables,
  settle_lines, recompute_order_totals, update_row, with_seat, add_table, without_table,
  settle_lines_step, settled_tab, edit_tab, is_due,
}

-- The totals are the sums over the lines; the total is what all lines come to with the tip.
pub record IsConsistent (inclusive : Bool) (t : Tab) : Type 0 where
  pub tax : t.tax_cents ≡ sum_by (λ (r : TabRow). r.line.tax_cents) t.lines
  pub discount : t.discount_cents ≡ sum_by (λ (r : TabRow). r.discount_cents) t.lines
  pub subtotal :
      t.subtotal_cents ≡ sum_by (λ (r : TabRow). r.line.total_cents) t.lines + t.discount_cents
  pub total :
      t.total_cents
      ≡ sum_by (λ (r : TabRow). line_amount_due r.line inclusive) t.lines + t.tip_cents

dues-split :
    (inclusive : Bool) (rows : List TabRow)
    → sum_by (λ (r : TabRow). line_amount_due r.line inclusive) rows
      ≡ sum_by (λ (r : TabRow). r.line.total_cents) rows
        + (if inclusive then 0 else sum_by (λ (r : TabRow). r.line.tax_cents) rows)
unfolding line_amount_due
dues-split true [] = refl
dues-split false [] = refl
dues-split true (r ∷ rs) = omega (arith, dues-split true rs)
dues-split false (r ∷ rs) = omega (arith, dues-split false rs)

recompute-IsConsistent :
    (inclusive : Bool) (t : Tab) → IsConsistent inclusive (recompute_order_totals inclusive t)
unfolding recompute_order_totals
recompute-IsConsistent inclusive t = record {
  tax = refl;
  discount = refl;
  subtotal = refl;
  total = omega (arith, dues-split inclusive t.lines);
}

recomputed :
    (inclusive b : Bool) (t t' : Tab)
    → b ≡ inclusive
    → some (recompute_order_totals b t) ≡ some t'
    → IsConsistent inclusive t'
recomputed inclusive b t t' u h =
    let same : recompute_order_totals b t ≡ t' = cc in rw (← same, ← u) (recompute-IsConsistent b t)

due_of :
    (inclusive : Bool) (seat : Option ℕ) (r : TabRow)
    → line_amount_due (with_seat seat r).line inclusive ≡ line_amount_due r.line inclusive
unfolding line_amount_due
due_of inclusive seat r = refl

-- A change of seats leaves every sum as it was.
sum_by-with_seat :
    (f : TabRow → ℕ) (id : String) (seat : Option ℕ) (rows : List TabRow)
    → ((r : TabRow) → f (with_seat seat r) ≡ f r)
    → sum_by f (update_row id (with_seat seat) rows) ≡ sum_by f rows
unfolding update_row
sum_by-with_seat f id seat [] same = refl
sum_by-with_seat f id seat (r ∷ rs) same =
    ground (arith, same r, sum_by-with_seat f id seat rs same)

-- The setting that an edit was prepared under.
abbrev pub IsUnder : Bool → Edit → Type 0
IsUnder inclusive (append_lines b rows) = b ≡ inclusive
IsUnder inclusive (put_quantity b id n p) = b ≡ inclusive
IsUnder inclusive (drop_line b id) = b ≡ inclusive
IsUnder inclusive (settle_lines b payment ids tip) = b ≡ inclusive
IsUnder inclusive (put_seat id seat) = Unit
IsUnder inclusive (attach_table id) = Unit
IsUnder inclusive (move_tables from_id to_id) = Unit

-- The totals stay those of the lines under every transaction that goes through, whatever was read
-- for it and whenever, as long as the tax setting is the same.
pub edit_tab-IsConsistent :
    (inclusive : Bool) (e : Edit) (t t' : Tab)
    → IsUnder inclusive e
    → IsConsistent inclusive t
    → edit_tab e t ≡ some t'
    → IsConsistent inclusive t'
unfolding edit_tab settle_lines_step settled_tab
edit_tab-IsConsistent inclusive (append_lines b rows) t t' u c h = recomputed inclusive b _ t' u h
edit_tab-IsConsistent inclusive (put_quantity b id n p) t t' u c h = recomputed inclusive b _ t' u h
edit_tab-IsConsistent inclusive (drop_line b id) t t' u c h = recomputed inclusive b _ t' u h
edit_tab-IsConsistent inclusive (put_seat id seat) t t' u c h =
    let same : record t { lines = update_row id (with_seat seat) t.lines } ≡ t' = cc in
    rw (← same) (record {
      tax = c.tax ∙ sym (sum_by-with_seat (λ r. r.line.tax_cents) id seat t.lines (λ r. refl));
      discount =
          c.discount ∙ sym (sum_by-with_seat (λ r. r.discount_cents) id seat t.lines (λ r. refl));
      subtotal = omega (
        arith,
        c.subtotal,
        sum_by-with_seat (λ r. r.line.total_cents) id seat t.lines (λ r. refl),
      );
      total = omega (
        arith,
        c.total,
        sum_by-with_seat (λ r. line_amount_due r.line inclusive) id seat t.lines
            (due_of inclusive seat),
      );
    })
edit_tab-IsConsistent inclusive (attach_table id) t t' u c h =
    let same : record t { tables = add_table id t.tables } ≡ t' = cc in
    rw (← same)
      (record { tax = c.tax; discount = c.discount; subtotal = c.subtotal; total = c.total })
edit_tab-IsConsistent inclusive (move_tables from_id to_id) t t' u c h =
    let same : record t { tables = add_table to_id (without_table from_id t.tables) } ≡ t' = cc in
    rw (← same)
      (record { tax = c.tax; discount = c.discount; subtotal = c.subtotal; total = c.total })
edit_tab-IsConsistent inclusive (settle_lines b payment ids tip) t t' u c h =
    elim (Bool-cases (length (filter (is_due ids) t.lines) == length ids)) [
      | inl e ↦ recomputed inclusive b _ t' u (rw (e, edit_tab, settle_lines_step) at h)
      | inr e ↦
          let nothing : none ≡ some t' = rw (e, edit_tab, settle_lines_step) at h in absurd (cc)
    ]
