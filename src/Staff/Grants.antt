-- ===== src/Staff/Grants.antt =====
-- Who may do and grant what.
use Prim.Native.String.{String}
use text.Mathlib.Text.{◌==◌ as str_eq}
use text.Mathlib.TextEquality.{eq_iff}
use valla_pos.Base.{
  ℕ, ◌≤◌, ◌≡◌, ◌↔◌, refl, true, false, List, [], ◌∷◌, filter, sum_by, leb, ◌||◌, ◌&&◌,
  if◌then◌else◌, arith,
}
use valla_pos.Staff.{
  Role, cashier, manager, owner, role_rank, role_at_least, can_grant_role, includes, is_capability,
  distinct_after, sanitize_capabilities, is_owner, can,
}

-- No role can be granted by one below it: whoever can grant a role has at least that role, only an
-- owner can grant ownership, and what a granted role can grant its grantor could.
pub can_grant_role-bounded :
    (caller target next : Role)
    → (can_grant_role caller target ≡ role_at_least caller target)
      × ((can_grant_role caller owner ≡ true) ↔ (caller ≡ owner))
      × (can_grant_role caller target ≡ true
          → can_grant_role target next ≡ true
          → can_grant_role caller next ≡ true)
unfolding can_grant_role role_at_least
can_grant_role-bounded caller target next = (refl, owner_only caller, λ h g. ground arith)
  where
    owner_only : (r : Role) → (leb (role_rank owner) (role_rank r) ≡ true) ↔ (r ≡ owner)
    owner_only cashier = ground arith
    owner_only manager = ground arith
    owner_only owner = (λ e. refl, λ e. refl)

includes-distinct_after :
    (seen vs : List String) (v : String)
    → includes (distinct_after seen vs) v
      ≡ (includes vs v && (if includes seen v then false else true))
unfolding distinct_after
includes-distinct_after seen [] v = refl
includes-distinct_after seen (w ∷ vs) v =
    ground (
      arith,
      eq_iff w v,
      includes-distinct_after seen vs v,
      includes-distinct_after (w ∷ seen) vs v,
    )

includes-filter :
    (vs : List String) (v : String)
    → includes (filter is_capability vs) v ≡ (includes vs v && is_capability v)
includes-filter [] v = refl
includes-filter (w ∷ vs) v = ground (arith, eq_iff w v, includes-filter vs v)

-- How often a value occurs.
abbrev pub occurrences : String → List String → ℕ
occurrences v = sum_by (λ w. if str_eq w v then 1 else 0)

occurrences-distinct_after :
    (seen vs : List String) (v : String)
    → occurrences v (distinct_after seen vs) ≤ (if includes seen v then 0 else 1)
unfolding distinct_after
occurrences-distinct_after seen [] v = omega arith
occurrences-distinct_after seen (w ∷ vs) v = ground (
  arith,
  eq_iff w v,
  occurrences-distinct_after seen vs v,
  occurrences-distinct_after (w ∷ seen) vs v,
)

-- Accepting permissions from a client keeps exactly the known ones: a value is among the result just
-- if it was sent and is a capability, and it is there once at most. So after it a member who is no
-- owner can do just what was sent and is a capability, and an owner can do everything.
pub sanitize_capabilities_lem :
    (role : Role) (values : List String) (cap : String)
    → (can role (sanitize_capabilities values) cap
        ≡ (is_owner role || (includes values cap && is_capability cap)))
      × (occurrences cap (sanitize_capabilities values) ≤ 1)
unfolding can sanitize_capabilities
sanitize_capabilities_lem role values cap = ground (
  arith,
  includes-distinct_after [] (filter is_capability values) cap,
  includes-filter values cap,
  occurrences-distinct_after [] (filter is_capability values) cap,
)
