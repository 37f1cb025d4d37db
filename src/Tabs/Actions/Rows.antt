-- ===== src/Tabs/Actions/Rows.antt =====
-- The rows that the actions on tabs read (src/features/tabs/actions.ts), and the guards.
use Prim.Native.String.{String}
use text.Mathlib.Text.{◌==◌ as str_eq}
use valla_pos.Base.{
  ℕ, Bool, true, false, not, Option, none, some, List, [], ◌∷◌, any, ◌&&◌, if◌then◌else◌,
}
use valla_pos.Base.Result.{Result, ok, err}
use valla_pos.Orders.Actions.{OrderStatus}
use valla_pos.PinThrottle.{Store}
use valla_pos.Register.Resolve.{CatalogRow, ResolveError}
use valla_pos.Register.Approval.{Member}
use valla_pos.Tabs.{SettlementError}
use valla_pos.Tabs.Edits.{Tab, same_table}

pub record Floor : Type 0 where
  pub tables : List String
  pub tabs : List Tab
  pub counter : Option ℕ
  pub catalog : List CatalogRow
  pub members : List Member
  pub tax_rate_bps : ℕ
  pub tax_inclusive : Bool
  pub throttle : Store

-- What the actions throw.
pub data TabError : Type 0 where
  not_allowed tab_not_found table_not_found table_taken item_not_found already_paid short_cash
        changed :
      TabError
  unresolved : ResolveError → TabError
  unplanned : SettlementError → TabError

abbrev pub is_open : Tab → Bool
is_open t = elim t.status [ OrderStatus.open_tab ↦ true | _ ↦ false ]

abbrev pub holds : String → Tab → Bool
holds table t = is_open t && any (same_table table) t.tables

unfoldable pub find_tab : String → List Tab → Option Tab
find_tab id [] = none
find_tab id (t ∷ ts) = if str_eq t.id id then some t else find_tab id ts

-- `loadOpenOrder`, with the order that it finds.
unfoldable pub load_open_order : String → Floor → Result TabError Tab
load_open_order id s = elim (find_tab id s.tabs) [
  | none ↦ err tab_not_found
  | some t ↦ if is_open t then ok t else err tab_not_found
]

-- `occupied`, and `otherTab`
unfoldable pub is_occupied : String → List Tab → Bool
is_occupied table tabs = any (holds table) tabs

unfoldable pub is_held_by_other : String → String → List Tab → Bool
is_held_by_other id table tabs = any (λ (t : Tab). not (str_eq t.id id) && holds table t) tabs
