-- ===== src/Register/Resolve.antt =====
-- Resolution of order lines against the catalog (src/features/register/resolve-lines.ts): real prices,
-- modifiers validated by group, and the bounded trust in the prices of an offline sale.
--
-- `rows` are what the query finds: the business's variations among those asked for, each with its
-- item's fields. Two functions of the runtime are parameters: `trim` of a string, and the decimal
-- notation of a number.
pub mod Trust
pub mod Groups
pub mod Prices
use Prim.Native.String.{String, ◌++◌ as str_append}
use text.Mathlib.Text.{◌==◌ as str_eq}
use valla_pos.Base.{
  ℕ, ◌+◌, ◌/◌, Bool, true, false, not, Option, none, some, List, [], ◌∷◌, ◌++◌, map, filter, any,
  ltb, leb, ◌||◌, ◌&&◌, if◌then◌else◌,
}
use valla_pos.Base.Result.{Result, ok, err, ◌>>=◌, traverse}
use valla_pos.Money.Totals.{or_zero}
use valla_pos.Register.Pricing.{
  ResolvedModifier, GroupConstraint, PricedLineInput, SelectionError, has_id,
  validate_group_selection, or_empty,
}

pub record Modifier : Type 0 where
  pub id : String
  pub name : String
  pub price_delta_cents : ℕ

pub record ModifierGroup : Type 0 where
  pub id : String
  pub min_select : ℕ
  pub max_select : ℕ
  pub modifiers : List Modifier

-- A variation with its item's name, flag and linked groups.
pub record CatalogRow : Type 0 where
  pub id : String
  pub name : String
  pub price_cents : ℕ
  pub item_name : String
  pub track_stock : Bool
  pub groups : List ModifierGroup

pub record CustomModifier : Type 0 where
  pub name : String
  pub price_delta_cents : ℕ

pub record PriceOverride : Type 0 where
  pub unit_price_cents : ℕ
  pub modifier_deltas : Option (List (String × ℕ))

pub record LineInput : Type 0 where
  pub variation_id : String
  pub quantity : ℕ
  pub line_discount_cents : Option ℕ
  pub modifier_ids : Option (List String)
  pub custom_modifiers : Option (List CustomModifier)
  pub price_override : Option PriceOverride

pub record ResolvedLine : Type 0 where
  pub variation_id : String
  pub unit_price_cents : ℕ
  pub quantity : ℕ
  pub line_discount_cents : ℕ
  pub modifiers : List ResolvedModifier
  pub name_snapshot : String
  pub track_stock : Bool

-- `floorTrust`: the trusted amount, and whether it was clamped. `floor(catalog * 0.5)` is a halving.
unfoldable pub floor_trust : ℕ → ℕ → ℕ × Bool
floor_trust quoted catalog =
    if leb catalog 0
    then (quoted, false)
    else if ltb quoted (catalog / 2)
    then (catalog, true)
    else (quoted, false)

-- The amount for a quote that may be missing.
unfoldable pub trusted : Option ℕ → ℕ → ℕ × Bool
trusted none catalog = (catalog, false)
trusted (some quoted) catalog = floor_trust quoted catalog

pub data ResolveError : Type 0 where
  unknown_item : String → ResolveError
  unknown_modifier : String → ResolveError
  bad_selection : SelectionError → ResolveError

-- `byId.get(id)`: ids of rows are unique.
unfoldable pub row_of : String → List CatalogRow → Option CatalogRow
row_of id [] = none
row_of id (r ∷ rows) = if str_eq r.id id then some r else row_of id rows

-- `deltas?.[id]`
unfoldable pub delta_of : String → List (String × ℕ) → Option ℕ
delta_of id [] = none
delta_of id ((k, n) ∷ deltas) = if str_eq k id then some n else delta_of id deltas

abbrev pub quoted_delta : Option PriceOverride → String → Option ℕ
quoted_delta none id = none
quoted_delta (some o) id = delta_of id (or_empty o.modifier_deltas)

abbrev pub quoted_unit : Option PriceOverride → Option ℕ
quoted_unit none = none
quoted_unit (some o) = some o.unit_price_cents

-- What `modifierById.set` stores for a modifier, and whether its price was clamped.
abbrev pub resolved_modifier : Option PriceOverride → Modifier → ResolvedModifier
resolved_modifier over m = record {
  id = m.id;
  name_snapshot = m.name;
  price_delta_cents = (trusted (quoted_delta over m.id) m.price_delta_cents).0;
}

-- The modifiers of all groups, in the order of the two loops.
unfoldable pub all_modifiers : List ModifierGroup → List Modifier
all_modifiers [] = []
all_modifiers (g ∷ groups) = g.modifiers ++ all_modifiers groups

-- `modifierById.get(id)`: the last one that was set.
unfoldable pub modifier_by_id : String → List Modifier → Option Modifier
modifier_by_id id [] = none
modifier_by_id id (m ∷ ms) = elim (modifier_by_id id ms) [
  | some later ↦ some later
  | none ↦ if str_eq m.id id then some m else none
]

-- `chosenIds.map((id) => modifierById.get(id)!)` after the loop that throws on an unknown id.
unfoldable pub chosen_modifier :
    Option PriceOverride → List Modifier → String → Result ResolveError ResolvedModifier
chosen_modifier over ms id = elim (modifier_by_id id ms) [
  | none ↦ err (unknown_modifier id)
  | some m ↦ ok (resolved_modifier over m)
]

abbrev pub id_of : Modifier → String
id_of m = m.id

-- The constraint of a group, and the chosen ids that are its own.
abbrev pub constraint_of : ModifierGroup → GroupConstraint
constraint_of g = record {
  group_id = g.id;
  min_select = g.min_select;
  max_select = g.max_select;
  modifier_ids = map id_of g.modifiers;
}

abbrev pub chosen_in : ModifierGroup → List String → List String
chosen_in g chosen = filter (has_id (map id_of g.modifiers)) chosen

-- The loop that validates every group.
unfoldable pub validate_groups : List ModifierGroup → List String → Result ResolveError (Unit {0})
validate_groups [] chosen = ok tt
validate_groups (g ∷ groups) chosen =
    elim (validate_group_selection (constraint_of g) (chosen_in g chosen)) [
      | some e ↦ err (bad_selection e)
      | none ↦ validate_groups groups chosen
    ]

-- Whether a price of the line was clamped.
unfoldable pub line_clamped : Option PriceOverride → CatalogRow → Bool
line_clamped over row =
    (trusted (quoted_unit over) row.price_cents).1
    || any (λ (m : Modifier). (trusted (quoted_delta over m.id) m.price_delta_cents).1)
        (all_modifiers row.groups)

-- The name on the receipt.
unfoldable pub name_snapshot_of : CatalogRow → String
name_snapshot_of row =
    if not (str_eq row.name "") && not (str_eq row.name "Default")
    then str_append row.item_name (str_append " — " row.name)
    else row.item_name

-- The price engine's input for a resolved line.
abbrev pub money_line : ResolvedLine → PricedLineInput
money_line l = record {
  unit_price_cents = l.unit_price_cents;
  quantity = l.quantity;
  line_discount_cents = some l.line_discount_cents;
  modifiers = some l.modifiers;
}

module _ (trim : String → String) (notation : ℕ → String) where
  -- `customModifiers.map((c, i) => ...)` from index `i` on.
  unfoldable pub custom_modifiers_from : ℕ → List CustomModifier → List ResolvedModifier
  custom_modifiers_from i [] = []
  custom_modifiers_from i (c ∷ cs) =
      record {
        id = str_append "custom_" (notation i);
        name_snapshot = trim c.name;
        price_delta_cents = c.price_delta_cents;
      }
      ∷ custom_modifiers_from (i + 1) cs

  -- The record of a line whose row was found and whose modifiers were accepted.
  abbrev pub resolved_line : LineInput → CatalogRow → List ResolvedModifier → ResolvedLine
  resolved_line line row chosen = record {
    variation_id = row.id;
    unit_price_cents = (trusted (quoted_unit line.price_override) row.price_cents).0;
    quantity = line.quantity;
    line_discount_cents = or_zero line.line_discount_cents;
    modifiers = chosen ++ custom_modifiers_from 0 (or_empty line.custom_modifiers);
    name_snapshot = name_snapshot_of row;
    track_stock = row.track_stock;
  }

  -- One round of the callback: the record of the line, and whether a price was clamped.
  unfoldable pub resolve_line :
      List CatalogRow → LineInput → Result ResolveError (ResolvedLine × Bool)
  resolve_line rows line = elim (row_of line.variation_id rows) [
    | none ↦ err (unknown_item line.variation_id)
    | some row ↦
        let ids = or_empty line.modifier_ids in
        traverse (chosen_modifier line.price_override (all_modifiers row.groups)) ids >>= λ chosen.
        validate_groups row.groups ids >>= λ _.
        ok (resolved_line line row chosen, line_clamped line.price_override row)
  ]

  -- `resolveOrderLines`: the records, of which `map money_line` gives `moneyLines`, and
  -- `snapshotClamped`.
  unfoldable pub resolve_order_lines :
      List CatalogRow → List LineInput → Result ResolveError (List ResolvedLine × Bool)
  resolve_order_lines rows lines = traverse (resolve_line rows) lines >>= λ rs.
      ok (map (λ (r : ResolvedLine × Bool). r.0) rs, any (λ (r : ResolvedLine × Bool). r.1) rs)
