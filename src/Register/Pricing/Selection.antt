-- ===== src/Register/Pricing/Selection.antt =====
-- `validateGroupSelection` accepts exactly the selections that meet the group's constraints.
use Prim.Native.String.{String}
use text.Mathlib.Text.{◌==◌ as str_eq}
use text.Mathlib.TextEquality.{eq_iff}
use valla_pos.Base.{
  ◌≤◌, ◌≡◌, ◌↔◌, refl, true, false, none, some, List, [], ◌∷◌, arith, length, All, All-map, inl,
  inr, Bool-cases,
}
use valla_pos.Register.Pricing.{
  GroupConstraint, foreign, has_id, first_foreign, validate_group_selection,
}

-- `id` is one of the ids, as an inductive relation.
pub data IsOneOf (id : String) : List String → Type 0 where
  here : (ids : List String) → IsOneOf id (id ∷ ids)
  there : (j : String) (ids : List String) → IsOneOf id ids → IsOneOf id (j ∷ ids)

pub has_id-IsOneOf : (ids : List String) (id : String) → has_id ids id ≡ true → IsOneOf id ids
unfolding has_id
has_id-IsOneOf [] id h = cc
has_id-IsOneOf (j ∷ ids) id h = elim (Bool-cases (str_eq j id)) [
  | inl same ↦ rw ((eq_iff j id).0 same) (here ids)
  | inr other ↦ there j ids (has_id-IsOneOf ids id (ground arith))
]

pub IsOneOf-has_id : {id : String} {ids : List String} → IsOneOf id ids → has_id ids id ≡ true
unfolding has_id
IsOneOf-has_id {id} (here ids) = ground (arith, eq_iff id id)
IsOneOf-has_id {id} (there j ids m) = ground (arith, IsOneOf-has_id m)

abbrev AllIn : List String → List String → Type 0
AllIn allowed chosen = All (λ id. has_id allowed id ≡ true) chosen

first_foreign-none :
    (allowed chosen : List String) → (first_foreign allowed chosen ≡ none) ↔ AllIn allowed chosen
unfolding first_foreign
first_foreign-none allowed [] = (λ _. tt, λ _. refl)
first_foreign-none allowed (c ∷ cs) = ground (arith, first_foreign-none allowed cs)

All-IsOneOf :
    (allowed chosen : List String) → AllIn allowed chosen ↔ All (λ id. IsOneOf id allowed) chosen
All-IsOneOf allowed chosen = (
  All-map (λ id. has_id allowed id ≡ true) (λ id. IsOneOf id allowed) chosen
      (λ id. has_id-IsOneOf allowed id),
  All-map (λ id. IsOneOf id allowed) (λ id. has_id allowed id ≡ true) chosen
      (λ id m. IsOneOf-has_id m),
)

-- A selection is accepted exactly when every chosen id belongs to the group and the number of
-- choices, repeated ones counted each time, lies between the group's minimum and maximum.
pub validate_group_selection_iff :
    (g : GroupConstraint) (chosen : List String)
    → (validate_group_selection g chosen ≡ none) ↔ (
        All (λ id. IsOneOf id g.modifier_ids) chosen
        × (g.min_select ≤ length chosen)
        × (length chosen ≤ g.max_select))
unfolding validate_group_selection
validate_group_selection_iff g chosen =
    ground (arith, first_foreign-none g.modifier_ids chosen, All-IsOneOf g.modifier_ids chosen)

first_foreign-some :
    (allowed chosen : List String) (id : String)
    → first_foreign allowed chosen ≡ some id
    → (has_id allowed id ≡ false) × IsOneOf id chosen
unfolding first_foreign
first_foreign-some allowed [] id h = cc
first_foreign-some allowed (c ∷ cs) id h = elim (Bool-cases (has_id allowed c)) [
  | inl old ↦
      let later = first_foreign-some allowed cs id (ground arith) in (later.0, there c cs later.1)
  | inr new ↦ let same : c ≡ id = ground arith in (rw same at new, rw same (here cs))
]

-- An id that is refused as foreign was chosen and is none of the group's ids.
pub validate_group_selection-foreign :
    (g : GroupConstraint) (chosen : List String) (id : String)
    → validate_group_selection g chosen ≡ some (foreign id)
    → (¬ IsOneOf id g.modifier_ids) × IsOneOf id chosen
unfolding validate_group_selection
validate_group_selection-foreign g chosen id h =
    let bad = first_foreign-some g.modifier_ids chosen id (ground arith) in
    (λ m. let has = IsOneOf-has_id m in cc, bad.1)
