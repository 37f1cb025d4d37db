-- ===== src/Staff.antt =====
-- Roles (src/lib/roles.ts), capabilities (src/lib/capabilities.ts) and time sheets
-- (src/features/employees/duration.ts).
pub mod Grants
pub mod Sheets
pub mod Tests
use Prim.Native.String.{String}
use text.Mathlib.Text.{◌==◌ as str_eq}
use valla_pos.Base.{
  ℕ, ◌-◌, ◌/◌, Bool, true, false, Option, none, some, List, [], ◌∷◌, ◌++◌, any, filter, sum_by, leb,
  ◌||◌, if◌then◌else◌,
}

pub data Role : Type 0 where
  cashier manager owner : Role

-- `ROLE_RANK`
abbrev pub role_rank : Role → ℕ
role_rank cashier = 0
role_rank manager = 1
role_rank owner = 2

-- `roleAtLeast`
unfoldable pub role_at_least : Role → Role → Bool
role_at_least role least = leb (role_rank least) (role_rank role)

-- `canGrantRole`
unfoldable pub can_grant_role : Role → Role → Bool
can_grant_role caller target = leb (role_rank target) (role_rank caller)

-- `CAPABILITIES`
abbrev pub capabilities : List String
capabilities =
    "take_orders" ∷ "approve_unverified_tender" ∷ "refund_void" ∷ "manage_products" ∷ "view_reports"
    ∷ "cash_drawer" ∷ "manage_team" ∷ "manage_settings" ∷ []

-- `values.includes(value)`
abbrev pub includes : List String → String → Bool
includes values value = any (λ v. str_eq v value) values

-- `isCapability`
unfoldable pub is_capability : String → Bool
is_capability value = includes capabilities value

-- `[...new Set(values)]`: the first of equal values stays.
unfoldable pub distinct_after : List String → List String → List String
distinct_after seen [] = []
distinct_after seen (v ∷ vs) =
    let rest = distinct_after (v ∷ seen) vs in
    if includes seen v then distinct_after seen vs else v ∷ rest

-- `sanitizeCapabilities`
unfoldable pub sanitize_capabilities : List String → List String
sanitize_capabilities values = distinct_after [] (filter is_capability values)

-- `defaultCapabilitiesFor`
unfoldable pub default_capabilities_for : Role → List String
default_capabilities_for owner = capabilities
default_capabilities_for manager = capabilities
default_capabilities_for cashier = "take_orders" ∷ "cash_drawer" ∷ "view_reports" ∷ []

-- `role === "OWNER"`
abbrev pub is_owner : Role → Bool
is_owner owner = true
is_owner _ = false

-- `can`
unfoldable pub can : Role → List String → String → Bool
can role permissions cap = is_owner role || includes permissions cap

-- A shift, in milliseconds; it is open while there is no `clock_out_at`.
pub record TimeInterval : Type 0 where
  pub clock_in_at : ℕ
  pub clock_out_at : Option ℕ

abbrev pub end_of : TimeInterval → ℕ → ℕ
end_of entry now = elim entry.clock_out_at [ none ↦ now | some t ↦ t ]

-- `entryDurationSeconds`. Subtraction of naturals clamps negative spans.
unfoldable pub entry_duration_seconds : TimeInterval → ℕ → ℕ
entry_duration_seconds entry now = (end_of entry now - entry.clock_in_at) / 1000

-- `totalDurationSeconds`
unfoldable pub total_duration_seconds : List TimeInterval → ℕ → ℕ
total_duration_seconds entries now = sum_by (λ e. entry_duration_seconds e now) entries
