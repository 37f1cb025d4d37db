-- ===== src/Inventory/Moves.antt =====
-- Selling and restocking move the counts by the quantities of the lines, and undo one another.
use Prim.Native.String.{String}
use text.Mathlib.Text.{◌==◌ as str_eq}
use text.Mathlib.TextEquality.{eq_iff}
use valla_pos.Base.{
  ◌≡◌, ◌↔◌, ◌⊎◌, refl, ap, ◌∙◌, true, false, Option, none, some, List, [], ◌∷◌, arith, inl, inr,
  Bool-cases, Option-cases, if◌then◌else◌,
}
use valla_pos.Base.Int.{ℤ, pos, ◌+ℤ◌, ◌-ℤ◌, int_laws}
use valla_pos.Inventory.{
  Variation, moved, update_stock, StockDecrementLine, decrement_line, apply_stock_decrements,
  is_tracked, low, out, untracked, is_out_of_stock, is_low_stock, stock_status,
}

-- The badges agree with the classification, for tracked and untracked stock.
pub stock_status_lem :
    (stock : Option ℤ)
    → ((is_out_of_stock stock ≡ true) ↔ (stock_status stock ≡ out))
      × ((is_low_stock stock ≡ true) ↔ (stock_status stock ≡ low))
      × ((stock ≡ none) ↔ (stock_status stock ≡ untracked))
unfolding is_out_of_stock is_low_stock stock_status
stock_status_lem none = ground arith
stock_status_lem (some n) = ground arith

-- The stock of a variation; the outer `none` is a row that is not there.
abbrev pub stock_at : String → List Variation → Option (Option ℤ)
stock_at id [] = none
stock_at id (v ∷ vs) = if str_eq v.id id then some v.stock else stock_at id vs

abbrev pub at_moved : ℤ → Option (Option ℤ) → Option (Option ℤ)
at_moved x none = none
at_moved x (some o) = some (moved x o)

pub at_moved_twice :
    (x y : ℤ) (o : Option (Option ℤ)) → at_moved x (at_moved y o) ≡ at_moved (y +ℤ x) o
at_moved_twice x y none = refl
at_moved_twice x y (some none) = refl
at_moved_twice x y (some (some n)) = let e : n +ℤ y +ℤ x ≡ n +ℤ (y +ℤ x) = omega int_laws in rw e

pub at_moved_zero : (o : Option (Option ℤ)) → at_moved (pos 0) o ≡ o
at_moved_zero none = refl
at_moved_zero (some none) = refl
at_moved_zero (some (some n)) = let e : n +ℤ pos 0 ≡ n = omega int_laws in rw e

update_stock-cons :
    (j : String) (x : ℤ) (v : Variation) (vs ws : List Variation)
    → update_stock j x (v ∷ vs) ≡ some ws
    → ((str_eq v.id j ≡ true) × (ws ≡ record v { stock = moved x v.stock } ∷ vs))
      ⊎ ((str_eq v.id j ≡ false)
          × ((us : List Variation) × (update_stock j x vs ≡ some us) × (ws ≡ v ∷ us)))
unfolding update_stock
update_stock-cons j x v vs ws h = ground arith

pub stock_at-update_stock :
    (id j : String) (x : ℤ) (vs ws : List Variation)
    → update_stock j x vs ≡ some ws
    → stock_at id ws ≡ at_moved (if str_eq j id then x else pos 0) (stock_at id vs)
unfolding update_stock
stock_at-update_stock id j x [] ws h = cc
stock_at-update_stock id j x (v ∷ vs) ws h = elim (update_stock-cons j x v vs ws h) [
  | inl (same, e) ↦ rw e (
      grind (
        arith,
        eq_iff v.id j,
        eq_iff v.id id,
        eq_iff j id,
        at_moved_zero (some v.stock),
        at_moved_zero (stock_at id vs),
      ))
  | inr (other, (us, q, e)) ↦ rw e (
      grind (
        arith,
        eq_iff v.id j,
        eq_iff v.id id,
        eq_iff j id,
        at_moved_zero (some v.stock),
        stock_at-update_stock id j x vs us q,
      ))
]

pub is_tracked-update_stock :
    (id j : String) (x : ℤ) (vs ws : List Variation)
    → update_stock j x vs ≡ some ws
    → is_tracked ws id ≡ is_tracked vs id
unfolding update_stock is_tracked
is_tracked-update_stock id j x [] ws h = cc
is_tracked-update_stock id j x (v ∷ vs) ws h = elim (update_stock-cons j x v vs ws h) [
  | inl (same, e) ↦ rw e
  | inr (other, (us, q, e)) ↦ rw (e, is_tracked-update_stock id j x vs us q)
]

-- A tracked variation is there to be updated.
pub update_stock_total :
    (id : String) (x : ℤ) (vs : List Variation)
    → is_tracked vs id ≡ true
    → (ws : List Variation) × (update_stock id x vs ≡ some ws)
unfolding update_stock is_tracked
update_stock_total id x [] h = absurd (ground arith)
update_stock_total id x (v ∷ vs) h = elim (Bool-cases (str_eq v.id id)) [
  | inl e ↦ (record v { stock = moved x v.stock } ∷ vs, rw e)
  | inr e ↦ let (ws, q) = update_stock_total id x vs (ground arith) in (v ∷ ws, rw (e, q))
]

-- The units of one variation that a line moves, and that a list of lines moves.
abbrev pub units : String → StockDecrementLine → ℤ
units id l =
    if l.track_stock then (if str_eq l.variation_id id then pos l.quantity else pos 0) else pos 0

abbrev pub sold : String → List StockDecrementLine → ℤ
sold id [] = pos 0
sold id (l ∷ ls) = units id l +ℤ sold id ls

stock_at-decrement_line :
    (id : String) (l : StockDecrementLine) (vs ws : List Variation)
    → decrement_line l vs ≡ some ws
    → stock_at id ws ≡ at_moved (pos 0 -ℤ units id l) (stock_at id vs)
unfolding decrement_line
stock_at-decrement_line id l vs ws h = elim (Bool-cases l.track_stock) [
  | inl e ↦
      let same : update_stock l.variation_id (pos 0 -ℤ pos l.quantity) vs ≡ some ws =
        ground arith in
      let sign : (if str_eq l.variation_id id then pos 0 -ℤ pos l.quantity else pos 0)
          ≡ pos 0 -ℤ units id l =
        grind int_laws in
      stock_at-update_stock id l.variation_id (pos 0 -ℤ pos l.quantity) vs ws same
      ∙ ap (λ x. at_moved x (stock_at id vs)) sign
  | inr e ↦
      let same : vs ≡ ws = ground arith in
      let none_moved : pos 0 -ℤ units id l ≡ pos 0 = rw e (omega int_laws) in
      rw (← same, none_moved, at_moved_zero)
]

-- A sale that goes through lowers the stock of every variation by exactly the units of its lines that
-- track stock, also below zero, and leaves the others alone.
pub stock_at-apply_stock_decrements :
    (id : String) (ls : List StockDecrementLine) (vs ws : List Variation)
    → apply_stock_decrements ls vs ≡ some ws
    → stock_at id ws ≡ at_moved (pos 0 -ℤ sold id ls) (stock_at id vs)
unfolding apply_stock_decrements
stock_at-apply_stock_decrements id [] vs ws h =
    let same : vs ≡ ws = ground arith in
    let nothing : pos 0 -ℤ pos 0 ≡ pos 0 = omega int_laws in rw (← same, nothing, at_moved_zero)
stock_at-apply_stock_decrements id (l ∷ ls) vs ws h = elim (Option-cases (decrement_line l vs)) [
  | inl e ↦ absurd (ground arith)
  | inr (us, e) ↦
      let rest : apply_stock_decrements ls us ≡ some ws = ground arith in
      let both : pos 0 -ℤ units id l +ℤ (pos 0 -ℤ sold id ls)
          ≡ pos 0 -ℤ (units id l +ℤ sold id ls) =
        omega int_laws in
      rw (
        stock_at-apply_stock_decrements id ls us ws rest,
        stock_at-decrement_line id l vs us e,
        at_moved_twice,
        both,
      )
]
