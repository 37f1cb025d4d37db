-- ===== src/Register/Approval.antt =====
-- The manager's approval of an unverified tender (src/features/register/manager-approval.ts), over
-- the throttle of failed PINs. `verify_pin pin hash` is `verifyPin`, which calls scrypt.
pub mod Denial
use Prim.Native.String.{String}
use valla_pos.Base.{
  ℕ, Bool, true, false, Option, none, some, List, [], ◌∷◌, filter, ◌&&◌, if◌then◌else◌,
}
use valla_pos.Staff.{Role, can}
use valla_pos.PinThrottle.{
  Store, assert_approval_not_locked, record_success, record_approval_success,
  record_approval_failure,
}

pub record Member : Type 0 where
  pub id : String
  pub role : Role
  pub permissions : List String
  pub active : Bool
  pub pin_hash : Option String

abbrev pub approve_unverified_tender : String
approve_unverified_tender = "approve_unverified_tender"

-- The query's condition: active, with a PIN, and owner or with the capability.
unfoldable pub is_candidate : Member → Bool
is_candidate m = m.active && elim m.pin_hash [
  | none ↦ false
  | some h ↦ can m.role m.permissions approve_unverified_tender
]

module _ (verify_pin : String → String → Bool) where
  abbrev pub matches : String → Member → Bool
  matches pin m = elim m.pin_hash [ none ↦ false | some h ↦ verify_pin pin h ]

  -- The loop over the candidates, to the first whose PIN matches.
  unfoldable pub first_match : String → List Member → Option Member
  first_match pin [] = none
  first_match pin (m ∷ ms) = if matches pin m then some m else first_match pin ms

  -- `verifyManagerApproval` in the business `b`, at `now`: its answer, and the throttle's new store.
  unfoldable pub verify_manager_approval : String → List Member → String → ℕ → Store → Bool × Store
  verify_manager_approval b members pin now store =
      let (locked, s) = assert_approval_not_locked b now store in
      if locked then (false, s) else elim (first_match pin (filter is_candidate members)) [
        | some m ↦ (true, record_approval_success b (record_success b m.id s))
        | none ↦ (false, record_approval_failure b now s)
      ]
