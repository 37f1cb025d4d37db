-- ===== src/Staff/Tests.antt =====
-- The theorems on roles, capabilities and shifts at concrete inputs.
use Prim.Native.String.{String}
use valla_pos.Base.{◌≤◌, ◌≡◌, ◌↔◌, refl, true, List, [], ◌∷◌, ◌||◌, ◌&&◌}
use valla_pos.Staff.{
  cashier, manager, owner, role_at_least, can_grant_role, includes, is_capability, distinct_after,
  sanitize_capabilities, is_owner, can,
}
use valla_pos.Staff.Grants.{occurrences, can_grant_role-bounded, sanitize_capabilities_lem}

abbrev asked : List String
asked = "refund_void" ∷ "fly" ∷ "refund_void" ∷ "cash_drawer" ∷ []

cleaned : sanitize_capabilities asked ≡ "refund_void" ∷ "cash_drawer" ∷ []
unfolding sanitize_capabilities is_capability distinct_after
cleaned = refl

can_grant_role-bounded_example :
    (can_grant_role manager cashier ≡ role_at_least manager cashier)
    × ((can_grant_role manager owner ≡ true) ↔ (manager ≡ owner))
    × (can_grant_role manager cashier ≡ true
        → can_grant_role cashier cashier ≡ true
        → can_grant_role manager cashier ≡ true)
can_grant_role-bounded_example = can_grant_role-bounded manager cashier cashier

sanitize_capabilities_lem_example :
    (can cashier (sanitize_capabilities asked) "refund_void"
      ≡ (is_owner cashier || (includes asked "refund_void" && is_capability "refund_void")))
    × (occurrences "refund_void" (sanitize_capabilities asked) ≤ 1)
sanitize_capabilities_lem_example = sanitize_capabilities_lem cashier asked "refund_void"
