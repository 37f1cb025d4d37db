-- ===== src/Register/Resolve/Prices.antt =====
-- What a resolved order costs, line by line.
use Prim.Native.String.{String}
use valla_pos.Base.{
  ℕ, ◌≡◌, refl, Bool, some, List, [], ◌∷◌, ◌++◌, map, All, inl, inr, Option-cases, arith,
}
use valla_pos.Base.Result.{ok, ◌>>=◌, >>=-ok_steps, Pointwise, traverse, traverse-Pointwise}
use valla_pos.Register.Pricing.{ResolvedModifier, or_empty}
use valla_pos.Register.Resolve.{
  CatalogRow, LineInput, ResolvedLine, row_of, all_modifiers, chosen_modifier, validate_groups,
  custom_modifiers_from, resolved_line, line_clamped, quoted_unit, resolve_line,
  resolve_order_lines,
}
use valla_pos.Register.Resolve.Trust.{IsTrusted, trusted-IsTrusted}
use valla_pos.Register.Resolve.Groups.{
  IsWithin, validate_groups-IsWithin, IsListed, chosen_modifiers-IsListed,
}

module _ (trim : String → String) (notation : ℕ → String) where
  -- A line is sold from a row of the catalog, at a trusted price; its modifiers are of that row's item, within the bounds of every group, and then
  -- those that were typed in.
  abbrev pub IsFair : List CatalogRow → LineInput → ResolvedLine → Type 0
  IsFair rows line l =
      (row : CatalogRow) × (chosen : List ResolvedModifier) × (row_of line.variation_id rows
        ≡ some row)
      × IsTrusted (quoted_unit line.price_override) row.price_cents l.unit_price_cents
      × (l.quantity ≡ line.quantity)
      × Pointwise (IsListed line.price_override (all_modifiers row.groups))
          (or_empty line.modifier_ids) chosen
      × All (IsWithin (or_empty line.modifier_ids)) row.groups
      × (l.modifiers
          ≡ chosen ++ custom_modifiers_from trim notation 0 (or_empty line.custom_modifiers))

  resolve_line-IsFair :
      (rows : List CatalogRow) (line : LineInput) (r : ResolvedLine × Bool)
      → resolve_line trim notation rows line ≡ ok r
      → IsFair rows line r.0
  unfolding resolve_line
  resolve_line-IsFair rows line r h = elim (Option-cases (row_of line.variation_id rows)) [
    | inl e ↦ absurd (ground arith)
    | inr (row, e) ↦
        let ids : List String = or_empty line.modifier_ids in
        let ms = all_modifiers row.groups in
        let found : (traverse (chosen_modifier line.price_override ms) ids >>= λ chosen.
        validate_groups row.groups ids >>= λ _.
        ok (resolved_line trim notation line row chosen, line_clamped line.price_override row))
            ≡ ok r =
          rw (e, resolve_line) at h in
        let (chosen, listed, more) =
          >>=-ok_steps (traverse (chosen_modifier line.price_override ms) ids) _ found in
        let (u, within, last) = >>=-ok_steps (validate_groups row.groups ids) _ more in
        let same : (
          resolved_line trim notation line row chosen,
          line_clamped line.price_override row,
        )
            ≡ r =
          cc in
        rw (← same) (
          row,
          chosen,
          e,
          trusted-IsTrusted (quoted_unit line.price_override) row.price_cents,
          refl,
          chosen_modifiers-IsListed line.price_override ms ids chosen listed,
          validate_groups-IsWithin row.groups ids within,
          refl,
        )
  ]

  first-Pointwise :
      (rows : List CatalogRow) (lines : List LineInput) (rs : List (ResolvedLine × Bool))
      → Pointwise (λ line (r : ResolvedLine × Bool). IsFair rows line r.0) lines rs
      → Pointwise (IsFair rows) lines (map (λ (r : ResolvedLine × Bool). r.0) rs)
  first-Pointwise rows [] [] h = tt
  first-Pointwise rows [] (r ∷ rs) h = absurd h
  first-Pointwise rows (l ∷ ls) [] h = absurd h
  first-Pointwise rows (l ∷ ls) (r ∷ rs) (fair, more) = (fair, first-Pointwise rows ls rs more)

  -- Lines that are resolved are sold as the catalog says, one record to each line in order: each is
  -- a known variation, at its catalog price, or where an offline quote overrides it at the quote if
  -- that is at least half of the catalog price; the chosen modifiers belong to the item, in numbers
  -- within the bounds of each of its groups, and are priced the same way.
  pub resolve_order_lines-IsFair :
      (rows : List CatalogRow) (lines : List LineInput) (ls : List ResolvedLine) (clamped : Bool)
      → resolve_order_lines trim notation rows lines ≡ ok (ls, clamped)
      → Pointwise (IsFair rows) lines ls
  unfolding resolve_order_lines
  resolve_order_lines-IsFair rows lines ls clamped h =
      let (rs, resolved, last) =
        >>=-ok_steps (traverse (resolve_line trim notation rows) lines) _ h in
      let each =
        traverse-Pointwise (resolve_line trim notation rows)
          (λ line (r : ResolvedLine × Bool). IsFair rows line r.0) (resolve_line-IsFair rows) lines
          rs resolved in
      let same : map (λ (r : ResolvedLine × Bool). r.0) rs ≡ ls = ground arith in
      rw same at (first-Pointwise rows lines rs each)
