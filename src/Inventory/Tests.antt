-- ===== src/Inventory/Tests.antt =====
-- Runs of the inventory module, and its theorems at concrete inputs.
use Prim.Native.String.{String}
use valla_pos.Base.{◌≡◌, refl, true, false, none, some, List, [], ◌∷◌, map}
use valla_pos.Base.Int.{pos, negsuc, ◌+ℤ◌, ◌-ℤ◌}
use valla_pos.Inventory.{
  Variation, StockDecrementLine, apply_stock_decrements, decrement_line, update_stock, is_tracked,
  restock_order_lines,
}
use valla_pos.Inventory.Moves.{stock_at, at_moved, sold, stock_at-apply_stock_decrements}
use valla_pos.Inventory.Restock.{
  stored, returned, restock_order_lines_total, restock-apply_stock_decrements,
}

abbrev shelf : List Variation
shelf =
    record { id = "tea"; stock = some (pos 2); track_stock = true }
    ∷ record { id = "cup"; stock = none; track_stock = false }
    ∷ []

abbrev basket : List StockDecrementLine
basket =
    record { variation_id = "tea"; quantity = 3; track_stock = true }
    ∷ record { variation_id = "cup"; quantity = 1; track_stock = false }
    ∷ []

abbrev oversold : List Variation
oversold =
    record { id = "tea"; stock = some (negsuc 0); track_stock = true }
    ∷ record { id = "cup"; stock = none; track_stock = false }
    ∷ []

sells : apply_stock_decrements basket shelf ≡ some oversold
unfolding apply_stock_decrements decrement_line update_stock ◌+ℤ◌ ◌-ℤ◌
sells = refl

stock_at-apply_stock_decrements_example :
    stock_at "tea" oversold ≡ at_moved (pos 0 -ℤ sold "tea" basket) (stock_at "tea" shelf)
stock_at-apply_stock_decrements_example =
    stock_at-apply_stock_decrements "tea" basket shelf oversold sells

flags : (true ≡ is_tracked oversold "tea") × ((false ≡ is_tracked oversold "cup") × Unit {0})
unfolding is_tracked
flags = (refl, (refl, tt))

restock-apply_stock_decrements_example :
    (us : List Variation) × (restock_order_lines (map stored basket) oversold ≡ some us)
    × ((id : String) → stock_at id us ≡ stock_at id shelf)
restock-apply_stock_decrements_example =
    restock-apply_stock_decrements basket shelf oversold sells flags

restock_order_lines_total_example :
    (us : List Variation) × (restock_order_lines (map stored basket) oversold ≡ some us)
    × ((id : String)
        → stock_at id us
          ≡ at_moved (returned (is_tracked oversold) id (map stored basket)) (stock_at id oversold))
restock_order_lines_total_example = restock_order_lines_total (map stored basket) oversold
