-- ===== src/Inventory.antt =====
-- Stock counts: the decrement of a sale (src/features/register/stock-decrement.ts), the restock of a
-- reversal (src/features/orders/actions.ts), and their display (src/features/catalog/stock.ts).
pub mod Moves
pub mod Restock
pub mod Tests
use Prim.Native.String.{String}
use text.Mathlib.Text.{◌==◌ as str_eq}
use valla_pos.Base.{
  ℕ, Bool, true, false, Option, none, some, List, [], ◌∷◌, any, not, ◌&&◌, if◌then◌else◌,
}
use valla_pos.Base.Int.{ℤ, pos, ◌+ℤ◌, ◌-ℤ◌, leb_ℤ, ltb_ℤ}

-- A row of the variation table, with its item's flag. A stock of `none` is SQL's NULL, to which an
-- increment does nothing.
pub record Variation : Type 0 where
  pub id : String
  pub stock : Option ℤ
  pub track_stock : Bool

abbrev pub moved : ℤ → Option ℤ → Option ℤ
moved x none = none
moved x (some n) = some (n +ℤ x)

-- `tx.variation.update({ where: { id }, data: { stock: { increment } } })`: ids are unique, and the
-- update throws (`none`) where there is no such row.
unfoldable pub update_stock : String → ℤ → List Variation → Option (List Variation)
update_stock id x [] = none
update_stock id x (v ∷ vs) =
    if str_eq v.id id
    then some (record v { stock = moved x v.stock } ∷ vs)
    else elim (update_stock id x vs) [ none ↦ none | some ws ↦ some (v ∷ ws) ]

pub record StockDecrementLine : Type 0 where
  pub variation_id : String
  pub quantity : ℕ
  pub track_stock : Bool

-- One round of the loop of `applyStockDecrements`.
unfoldable pub decrement_line : StockDecrementLine → List Variation → Option (List Variation)
decrement_line l vs =
    if not l.track_stock then some vs else update_stock l.variation_id (pos 0 -ℤ pos l.quantity) vs

-- `applyStockDecrements`
unfoldable pub apply_stock_decrements :
    List StockDecrementLine → List Variation → Option (List Variation)
apply_stock_decrements [] vs = some vs
apply_stock_decrements (l ∷ ls) vs = elim (decrement_line l vs) [
  | none ↦ none
  | some ws ↦ apply_stock_decrements ls ws
]

-- A line of a stored order; its variation may have been deleted.
pub record StockLine : Type 0 where
  pub variation_id : Option String
  pub quantity : ℕ

-- `tracked.has(id)`: the variation still exists and its item tracks stock.
unfoldable pub is_tracked : List Variation → String → Bool
is_tracked vs id = any (λ (v : Variation). str_eq v.id id && v.track_stock) vs

-- One round of the loop of `restockOrderLines`, for the variations that were read before it.
unfoldable pub restock_line : List Variation → StockLine → List Variation → Option (List Variation)
restock_line before l vs = elim l.variation_id [
  | none ↦ some vs
  | some id ↦ if is_tracked before id then update_stock id (pos l.quantity) vs else some vs
]

unfoldable pub restock_lines :
    List Variation → List StockLine → List Variation → Option (List Variation)
restock_lines before [] vs = some vs
restock_lines before (l ∷ ls) vs = elim (restock_line before l vs) [
  | none ↦ none
  | some ws ↦ restock_lines before ls ws
]

-- `restockOrderLines`
unfoldable pub restock_order_lines : List StockLine → List Variation → Option (List Variation)
restock_order_lines lines vs = restock_lines vs lines vs

abbrev pub low_stock_threshold : ℕ
low_stock_threshold = 5

pub data StockStatus : Type 0 where
  plenty low out untracked : StockStatus

-- `isOutOfStock`, `isLowStock` and `stockStatus`
unfoldable pub is_out_of_stock : Option ℤ → Bool
is_out_of_stock none = false
is_out_of_stock (some n) = leb_ℤ n (pos 0)

unfoldable pub is_low_stock : Option ℤ → Bool
is_low_stock none = false
is_low_stock (some n) = ltb_ℤ (pos 0) n && leb_ℤ n (pos low_stock_threshold)

unfoldable pub stock_status : Option ℤ → StockStatus
stock_status none = untracked
stock_status (some n) =
    if leb_ℤ n (pos 0) then out else if leb_ℤ n (pos low_stock_threshold) then low else plenty
