-- ===== src/Register/Approval/Denial.antt =====
-- Who can approve, and what a wrong PIN counts.
use Prim.Native.String.{String}
use valla_pos.Base.{
  ℕ, ◌≡◌, ◌≢◌, ◌∙◌, Bool, true, false, some, List, [], ◌∷◌, filter, ◌⊎◌, inl, inr, Bool-cases,
  Option-cases, arith,
}
use valla_pos.Staff.{can}
use valla_pos.PinThrottle.{
  Store, get, approval_key, assert_approval_not_locked, assert_key_not_locked,
  record_approval_failure,
}
use valla_pos.PinThrottle.Store.{record_key-isolated}
use valla_pos.Register.Approval.{
  Member, is_candidate, matches, first_match, approve_unverified_tender, verify_manager_approval,
}

module _ (verify_pin : String → String → Bool) where
  -- An active member whose own PIN this is and who may approve.
  abbrev pub Approver : String → List Member → Type 0
  Approver pin [] = ⊥
  Approver pin (m ∷ ms) =
      ((m.active ≡ true)
        × (can m.role m.permissions approve_unverified_tender ≡ true)
        × (matches verify_pin pin m ≡ true))
      ⊎ Approver pin ms

  candidate-parts :
      (m : Member)
      → is_candidate m ≡ true
      → (m.active ≡ true) × (can m.role m.permissions approve_unverified_tender ≡ true)
  unfolding is_candidate
  candidate-parts m h = elim (Option-cases m.pin_hash) [
    | inl e ↦ absurd (ground arith)
    | inr (hash, e) ↦ (ground arith, ground arith)
  ]

  first_match-Approver :
      (pin : String) (ms : List Member) (m : Member)
      → first_match verify_pin pin (filter is_candidate ms) ≡ some m
      → Approver pin ms
  unfolding first_match
  first_match-Approver pin [] m h = absurd (cc)
  first_match-Approver pin (x ∷ ms) m h = elim (Bool-cases (is_candidate x)) [
    | inl c ↦ elim (Bool-cases (matches verify_pin pin x)) [
      | inl e ↦ let (active, may) = candidate-parts x c in inl (active, may, e)
      | inr e ↦ inr (first_match-Approver pin ms m (rw (c, e, first_match) at h))
    ]
    | inr c ↦ inr (first_match-Approver pin ms m (rw c at h))
  ]

  -- An approval is granted only for the PIN of an active member who may approve unverified tenders,
  -- and never while the approval surface is locked.
  pub verify_manager_approval-granted :
      (b : String) (members : List Member) (pin : String) (now : ℕ) (store : Store)
      → (verify_manager_approval verify_pin b members pin now store).0 ≡ true
      → Approver pin members × ((assert_approval_not_locked b now store).0 ≡ false)
  unfolding verify_manager_approval assert_approval_not_locked
  verify_manager_approval-granted b members pin now store h =
      elim (Bool-cases (assert_key_not_locked (approval_key b) now store).0) [
        | inl locked ↦ absurd (ground arith)
        | inr free ↦
            elim (Option-cases (first_match verify_pin pin (filter is_candidate members))) [
              | inl e ↦ absurd (ground arith)
              | inr (m, e) ↦ (first_match-Approver pin members m e, free)
            ]
      ]

  -- A denied approval counts against the approval surface alone: the throttle's entry of every other
  -- key, such as the members' own, is as before.
  pub verify_manager_approval-denied :
      (b : String) (members : List Member) (pin : String) (now : ℕ) (store : Store) (j : String)
      → (verify_manager_approval verify_pin b members pin now store).0 ≡ false
      → approval_key b ≢ j
      → get j (verify_manager_approval verify_pin b members pin now store).1 ≡ get j store
  unfolding verify_manager_approval assert_approval_not_locked record_approval_failure
  verify_manager_approval-denied b members pin now store j h apart =
      let s = (assert_key_not_locked (approval_key b) now store).1 in
      let untouched = (record_key-isolated j (approval_key b) now store apart).0 in
      elim (Bool-cases (assert_key_not_locked (approval_key b) now store).0) [
        | inl locked ↦ rw (locked, verify_manager_approval) untouched
        | inr free ↦
            elim (Option-cases (first_match verify_pin pin (filter is_candidate members))) [
              | inl e ↦
                  rw (free, e, verify_manager_approval)
                    ((record_key-isolated j (approval_key b) now s apart).1 ∙ untouched)
              | inr (m, e) ↦ absurd (ground arith)
            ]
      ]
