-- ===== src/Inventory/Restock.antt =====
-- A reversal returns the units of the order's lines, and undoes the sale's decrement.
use Prim.Native.String.{String}
use text.Mathlib.Text.{◌==◌ as str_eq}
use valla_pos.Base.{
  ℕ, ◌≡◌, refl, ◌∙◌, Bool, Option, none, some, List, [], ◌∷◌, arith, map, All, inl, inr, Bool-cases,
  if◌then◌else◌,
}
use valla_pos.Base.Int.{ℤ, pos, ◌+ℤ◌, ◌-ℤ◌, int_laws}
use valla_pos.Inventory.{
  Variation, StockDecrementLine, apply_stock_decrements, StockLine, is_tracked, restock_line,
  restock_lines, restock_order_lines,
}
use valla_pos.Inventory.Moves.{
  stock_at, at_moved, at_moved_twice, at_moved_zero, stock_at-update_stock, is_tracked-update_stock,
  update_stock_total, sold, stock_at-apply_stock_decrements,
}

-- The units of one variation that a line gives back, and that a list of lines gives back.
abbrev pub back_to : (String → Bool) → String → Option String → ℕ → ℤ
back_to tracked id none n = pos 0
back_to tracked id (some j) n = if tracked j then (if str_eq j id then pos n else pos 0) else pos 0

abbrev pub returned : (String → Bool) → String → List StockLine → ℤ
returned tracked id [] = pos 0
returned tracked id (l ∷ ls) =
    back_to tracked id l.variation_id l.quantity +ℤ returned tracked id ls

-- What a successful step has done: counts moved, and the same variations tracked.
abbrev Moves : List Variation → (String → ℤ) → List Variation → Type 0
Moves vs x ws =
    ((id : String) → stock_at id ws ≡ at_moved (x id) (stock_at id vs))
    × ((id : String) → is_tracked ws id ≡ is_tracked vs id)

restock_to :
    (before vs : List Variation) (target : Option String) (n : ℕ)
    → ((id : String) → is_tracked vs id ≡ is_tracked before id)
    → (ws : List Variation) × (restock_line before
          (record { variation_id = target; quantity = n })
          vs
        ≡ some ws)
      × Moves vs (λ id. back_to (is_tracked before) id target n) ws
unfolding restock_line
restock_to before vs none n same = (vs, refl, (λ id. rw at_moved_zero, λ id. refl))
restock_to before vs (some j) n same = elim (Bool-cases (is_tracked before j)) [
  | inl e ↦
      let (ws, q) = update_stock_total j (pos n) vs (same j ∙ e) in
      (
        ws,
        rw (e, q),
        (
          λ id. rw e (stock_at-update_stock id j (pos n) vs ws q),
          λ id. is_tracked-update_stock id j (pos n) vs ws q,
        ),
      )
  | inr e ↦ (vs, rw e, (λ id. rw (e, at_moved_zero), λ id. refl))
]

restock_lines-cons :
    (before : List Variation) (l : StockLine) (ls : List StockLine) (vs us : List Variation)
    → restock_line before l vs ≡ some us
    → restock_lines before (l ∷ ls) vs ≡ restock_lines before ls us
unfolding restock_lines
restock_lines-cons before l ls vs us h = ground arith

restock_lines_lem :
    (before : List Variation) (ls : List StockLine) (vs : List Variation)
    → ((id : String) → is_tracked vs id ≡ is_tracked before id)
    → (ws : List Variation) × (restock_lines before ls vs ≡ some ws)
      × ((id : String)
          → stock_at id ws ≡ at_moved (returned (is_tracked before) id ls) (stock_at id vs))
unfolding restock_lines
restock_lines_lem before [] vs same = (vs, refl, λ id. rw at_moved_zero)
restock_lines_lem before (l ∷ ls) vs same =
    let (us, first, here) = restock_to before vs l.variation_id l.quantity same in
    let (ws, rest, there) = restock_lines_lem before ls us (λ id. here.1 id ∙ same id) in
    (
      ws,
      restock_lines-cons before l ls vs us first ∙ rest,
      λ id. rw (there id, here.0 id, at_moved_twice),
    )

-- Restocking a reversed order always goes through, also when variations were deleted since, and
-- raises the stock of every variation by exactly the units of the lines that name it, if it still
-- exists and tracks stock.
pub restock_order_lines_total :
    (ls : List StockLine) (vs : List Variation)
    → (ws : List Variation) × (restock_order_lines ls vs ≡ some ws)
      × ((id : String)
          → stock_at id ws ≡ at_moved (returned (is_tracked vs) id ls) (stock_at id vs))
unfolding restock_order_lines
restock_order_lines_total ls vs = restock_lines_lem vs ls vs (λ id. refl)

-- The stored line of a sold line.
abbrev pub stored : StockDecrementLine → StockLine
stored l = record { variation_id = some l.variation_id; quantity = l.quantity }

abbrev pub HasFlags : (String → Bool) → List StockDecrementLine → Type 0
HasFlags tracked = All (λ (l : StockDecrementLine). l.track_stock ≡ tracked l.variation_id)

returned-sold :
    (tracked : String → Bool) (id : String) (ls : List StockDecrementLine)
    → HasFlags tracked ls
    → returned tracked id (map stored ls) ≡ sold id ls
returned-sold tracked id [] h = refl
returned-sold tracked id (l ∷ ls) (h, hs) = rw (← h, returned-sold tracked id ls hs)

-- Reversing a sale undoes its stock movement: where the lines carried the variations' own flags,
-- which still hold when the order is reversed, every count is what it was before the sale.
pub restock-apply_stock_decrements :
    (ls : List StockDecrementLine) (vs ws : List Variation)
    → apply_stock_decrements ls vs ≡ some ws
    → HasFlags (is_tracked ws) ls
    → (us : List Variation) × (restock_order_lines (map stored ls) ws ≡ some us)
      × ((id : String) → stock_at id us ≡ stock_at id vs)
restock-apply_stock_decrements ls vs ws sale flags =
    let (us, q, moves) = restock_order_lines_total (map stored ls) ws in
    let zero_sum : (x : ℤ) → pos 0 -ℤ x +ℤ x ≡ pos 0 = λ x. omega int_laws in
    (
      us,
      q,
      λ id. rw (
        moves id,
        returned-sold (is_tracked ws) id ls flags,
        stock_at-apply_stock_decrements id ls vs ws sale,
        at_moved_twice,
        zero_sum,
        at_moved_zero,
      ),
    )
