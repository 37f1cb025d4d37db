-- ===== src/Orders/Actions/Cases.antt =====
-- How a void and a refund that return have ended: nothing changed, or a reversal committed.
use Prim.Native.String.{String}
use valla_pos.Base.{
  ℕ, ◌≤◌, ◌<◌, ◌≡◌, refl, Bool, true, false, Option, none, some, List, [], ◌∷◌, arith, inl, inr,
  Option-cases, ◌⊎◌,
}
use valla_pos.Base.Int.{ℤ, pos, negsuc, ◌-ℤ◌}
use valla_pos.Money.Discount.{Fractions}
use valla_pos.Orders.Refund.{
  PaymentMovement, PartialRefundPlan, net_collected_total, plan_full_reversal, plan_partial_refund,
}
use valla_pos.Orders.Actions.{
  Order, OrderStatus, Shop, RefundVoidResult, success, failure, nothing_collected, done, find_order,
  put_order, movements, ref_tag, apply_reversal, amounts_sum, cash_refunded, manual_refunded,
  commit, void_found, void_order, next_status, is_refunded, refund_full, refund_partial,
  refund_found, refund_order,
}

-- What a commit that goes through has written.
pub commit-done :
    (o : Order) (flip restock : Bool) (rs : List PaymentMovement) (st : OrderStatus)
    (uuid : Option String) (s s' : Shop) (r : RefundVoidResult)
    → commit o flip restock rs st uuid s ≡ done r s'
    → (s'.orders ≡ put_order (apply_reversal o flip rs st (ref_tag uuid)) s.orders)
      × (r ≡ success st (pos 0 -ℤ amounts_sum rs) (cash_refunded rs) (manual_refunded rs))
unfolding commit
commit-done o flip restock rs st uuid s s' r h = ground arith

-- Where an order is found and the action is allowed, the rest of the action decides.
pub void_order-found :
    (allowed : Bool) (id : String) (uuid : Option String) (s s' : Shop) (r : RefundVoidResult)
    → void_order allowed id uuid s ≡ done r s'
    → (s' ≡ s) ⊎ ((o : Order) × (void_found uuid o s ≡ done r s'))
unfolding void_order
void_order-found false id uuid s s' r h = absurd (ground arith)
void_order-found true id uuid s s' r h = elim (Option-cases (find_order id s.orders)) [
  | inl e ↦ inl (ground arith)
  | inr (o, e) ↦ inr (o, ground arith)
]

pub void_found-cases :
    (uuid : Option String) (o : Order) (s s' : Shop) (r : RefundVoidResult)
    → void_found uuid o s ≡ done r s'
    → (s' ≡ s)
      ⊎ (commit o true true (plan_full_reversal (movements o)) OrderStatus.voided uuid s
          ≡ done r s')
unfolding void_found
void_found-cases uuid o s s' r h = ground arith

pub list-cases :
    (rs : List PaymentMovement)
    → (rs ≡ []) ⊎ ((p : PaymentMovement) × (ps : List PaymentMovement) × (rs ≡ p ∷ ps))
list-cases [] = inl refl
list-cases (p ∷ ps) = inr (p, ps, refl)

pub refund_full-cases :
    (uuid : Option String) (o : Order) (s s' : Shop) (r : RefundVoidResult)
    → refund_full uuid o s ≡ done r s'
    → (s' ≡ s)
      ⊎ (commit o true true (plan_full_reversal (movements o)) OrderStatus.refunded uuid s
          ≡ done r s')
unfolding refund_full
refund_full-cases uuid o s s' r h = elim (list-cases (plan_full_reversal (movements o))) [
  | inl e ↦
      let stop : done (failure nothing_collected) s ≡ done r s' = rw (e, refund_full) at h in
      inl (cc)
  | inr (p, ps, e) ↦ inr (rw e (rw (e, refund_full) at h))
]

module _ (fr : Fractions) (after : String → String → Bool) where
  pub refund_partial-cases :
      (x : ℤ) (uuid : Option String) (o : Order) (s s' : Shop) (r : RefundVoidResult)
      → refund_partial fr after x uuid o s ≡ done r s'
      → (s' ≡ s)
        ⊎ ((rs : List PaymentMovement) × (plan_partial_refund fr after (movements o) x
              ≡ PartialRefundPlan.ok rs)
            × (commit o
                  (is_refunded (next_status (movements o) rs))
                  false
                  rs
                  (next_status (movements o) rs)
                  uuid
                  s
                ≡ done r s'))
  unfolding refund_partial
  refund_partial-cases x uuid o s s' r h = ground arith

  pub refund_order-found :
      (allowed : Bool) (id : String) (amount : Option ℤ) (uuid : Option String) (s s' : Shop)
      (r : RefundVoidResult)
      → refund_order fr after allowed id amount uuid s ≡ done r s'
      → (s' ≡ s) ⊎ ((o : Order) × (refund_found fr after amount uuid o s ≡ done r s'))
  unfolding refund_order
  refund_order-found false id amount uuid s s' r h = absurd (ground arith)
  refund_order-found true id amount uuid s s' r h = elim (Option-cases (find_order id s.orders)) [
    | inl e ↦ inl (ground arith)
    | inr (o, e) ↦ inr (o, ground arith)
  ]

  refund_found-partial :
      (x : ℤ) (uuid : Option String) (o : Order) (s s' : Shop) (r : RefundVoidResult)
      → refund_found fr after (some x) uuid o s ≡ done r s'
      → (s' ≡ s) ⊎ (refund_partial fr after x uuid o s ≡ done r s')
  unfolding refund_found
  refund_found-partial x uuid o s s' r h = ground arith

  pub refund_found-cases :
      (amount : Option ℤ) (uuid : Option String) (o : Order) (s s' : Shop) (r : RefundVoidResult)
      → refund_found fr after amount uuid o s ≡ done r s'
      → (s' ≡ s)
        ⊎ (refund_full uuid o s ≡ done r s')
        ⊎ ((x : ℤ) × (refund_partial fr after x uuid o s ≡ done r s'))
  unfolding refund_found
  refund_found-cases none uuid o s s' r h = ground arith
  refund_found-cases (some x) uuid o s s' r h = elim (refund_found-partial x uuid o s s' r h) [
    | inl same ↦ inl same
    | inr p ↦ inr (inr (x, p))
  ]

  -- A partial plan that succeeds is for a positive amount that is still collected.
  pub plan-positive :
      (ps rs : List PaymentMovement) (x : ℤ)
      → plan_partial_refund fr after ps x ≡ PartialRefundPlan.ok rs
      → (n : ℕ) × (x ≡ pos n) × (0 < n) × (n ≤ net_collected_total ps)
  unfolding plan_partial_refund net_collected_total
  plan-positive ps rs (pos n) h = (n, refl, ground arith, ground arith)
  plan-positive ps rs (negsuc n) h = absurd (ground arith)
