-- ===== src/Register/Resolve/Groups.antt =====
-- Validated groups, and modifiers that were found.
use Prim.Native.String.{String}
use valla_pos.Base.{
  ◌≤◌, ◌≡◌, refl, Option, some, List, [], ◌∷◌, length, All, inl, inr, Option-cases, arith,
}
use valla_pos.Base.Result.{ok, Pointwise, traverse-Pointwise, traverse}
use valla_pos.Register.Pricing.{ResolvedModifier, validate_group_selection}
use valla_pos.Register.Pricing.Selection.{validate_group_selection_iff}
use valla_pos.Register.Resolve.{
  Modifier, ModifierGroup, PriceOverride, constraint_of, chosen_in, validate_groups, modifier_by_id,
  chosen_modifier, resolved_modifier, quoted_delta,
}
use valla_pos.Register.Resolve.Trust.{IsTrusted, trusted-IsTrusted}

-- Within a group the number of chosen ids lies between its bounds.
abbrev pub IsWithin : List String → ModifierGroup → Type 0
IsWithin chosen g =
    (g.min_select ≤ length (chosen_in g chosen)) × (length (chosen_in g chosen) ≤ g.max_select)

pub validate_groups-IsWithin :
    (groups : List ModifierGroup) (chosen : List String)
    → validate_groups groups chosen ≡ ok tt
    → All (IsWithin chosen) groups
unfolding validate_groups
validate_groups-IsWithin [] chosen h = tt
validate_groups-IsWithin (g ∷ groups) chosen h =
    elim (Option-cases (validate_group_selection (constraint_of g) (chosen_in g chosen))) [
      | inl e ↦
          let fits = (validate_group_selection_iff (constraint_of g) (chosen_in g chosen)).0 e in
          ((fits.1, fits.2), validate_groups-IsWithin groups chosen (rw (e, validate_groups) at h))
      | inr (x, e) ↦ absurd (ground arith)
    ]

-- A resolved modifier is one of the item's, at a trusted price.
abbrev pub IsListed : Option PriceOverride → List Modifier → String → ResolvedModifier → Type 0
IsListed over ms id r =
    (m : Modifier) × (modifier_by_id id ms ≡ some m)
    × (r.name_snapshot ≡ m.name)
    × IsTrusted (quoted_delta over m.id) m.price_delta_cents r.price_delta_cents

chosen_modifier-IsListed :
    (over : Option PriceOverride) (ms : List Modifier) (id : String) (r : ResolvedModifier)
    → chosen_modifier over ms id ≡ ok r
    → IsListed over ms id r
unfolding chosen_modifier
chosen_modifier-IsListed over ms id r h = elim (Option-cases (modifier_by_id id ms)) [
  | inl e ↦ absurd (ground arith)
  | inr (m, e) ↦
      let same : resolved_modifier over m ≡ r = ground arith in
      rw (← same) (m, e, refl, trusted-IsTrusted (quoted_delta over m.id) m.price_delta_cents)
]

pub chosen_modifiers-IsListed :
    (over : Option PriceOverride) (ms : List Modifier) (ids : List String)
    (rs : List ResolvedModifier)
    → traverse (chosen_modifier over ms) ids ≡ ok rs
    → Pointwise (IsListed over ms) ids rs
chosen_modifiers-IsListed over ms ids rs h =
    traverse-Pointwise (chosen_modifier over ms) (IsListed over ms)
      (chosen_modifier-IsListed over ms) ids rs h
