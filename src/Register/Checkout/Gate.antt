-- ===== src/Register/Checkout/Gate.antt =====
-- An unverified tender needs an approval.
use Prim.Native.String.{String}
use valla_pos.Base.{ℕ, ◌≡◌, Bool, true, false, none, some, inl, inr, Option-cases, arith}
use valla_pos.Money.Discount.{Fractions}
use valla_pos.Staff.{can}
use valla_pos.Register.Approval.{approve_unverified_tender, verify_manager_approval}
use valla_pos.Register.Approval.Denial.{Approver, verify_manager_approval-granted}
use valla_pos.Register.Checkout.{
  CheckoutInput, Operator, Till, Receipt, Outcome, receipt, rejected, find_sale, is_unverified,
  is_offline_replay, gate, checkout,
}

module _ (verify_pin : String → String → Bool) (b : String) where
  gate-open :
      (data' : CheckoutInput) (op : Operator) (now : ℕ) (s : Till)
      → is_unverified data'.method ≡ true
      → is_offline_replay data' ≡ false
      → can op.role op.permissions approve_unverified_tender ≡ false
      → (gate verify_pin b data' op now s).0 ≡ none
      → (pin : String) × (data'.manager_pin ≡ some pin) × Approver verify_pin pin s.members
  unfolding gate
  gate-open data' op now s u o c h = elim (Option-cases data'.manager_pin) [
    | inl e ↦ absurd (ground arith)
    | inr (pin, e) ↦
        let answer = verify_manager_approval verify_pin b s.members pin now s.throttle in
        let granted : answer.0 ≡ true = ground arith in
        (
          pin,
          e,
          (verify_manager_approval-granted verify_pin b s.members pin now s.throttle granted).0,
        )
  ]

  -- Who may not approve unverified tenders cannot record one alone: where such an operator's online
  -- checkout of a QR or manual tender returns a receipt for a key that had no sale, a PIN was sent
  -- that is that of an active member who may approve.
  pub checkout-gated :
      (fr : Fractions) (trim : String → String) (notation : ℕ → String) (data' : CheckoutInput)
      (op : Operator) (now : ℕ) (id : String) (s s' : Till) (r : Receipt)
      → is_unverified data'.method ≡ true
      → is_offline_replay data' ≡ false
      → can op.role op.permissions approve_unverified_tender ≡ false
      → find_sale data'.client_uuid s.sales ≡ none
      → checkout fr trim notation verify_pin b data' (some op) now id s ≡ (receipt r, s')
      → (pin : String) × (data'.manager_pin ≡ some pin) × Approver verify_pin pin s.members
  unfolding checkout
  checkout-gated fr trim notation data' op now id s s' r u o c e h =
      let verdict = (gate verify_pin b data' op now s).0 in
      elim (Option-cases verdict) [
        | inl f ↦ gate-open data' op now s u o c f
        | inr (x, f) ↦
            let done : ◌≡◌ {A = Outcome × Till}
                (rejected x, record s { throttle = (gate verify_pin b data' op now s).1 })
                (receipt r, s') =
              rw (e, f, checkout) at h in
            absurd (cc)
      ]
