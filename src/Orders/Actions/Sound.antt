-- ===== src/Orders/Actions/Sound.antt =====
-- Settled orders hold nothing more, through every void and refund.
use Prim.Native.String.{String}
use valla_pos.Base.{
  ℕ, ◌≤◌, ◌≡◌, refl, ap, ◌∙◌, Bool, true, false, Option, List, [], ◌∷◌, ◌++◌, arith, map, All, inl,
  inr,
}
use valla_pos.Base.Int.{ℤ, pos, ◌-ℤ◌, neg_ℕ_parts, int_laws}
use valla_pos.Money.Discount.{Fractions}
use valla_pos.Orders.Refund.{
  PaymentMovement, PartialRefundPlan, net_collected_total, plan_full_reversal, plan_partial_refund,
  reversing, values_sum,
}
use valla_pos.Orders.Refund.Settle.{plan_full_reversal_settles, net_collected_total-reversing}
use valla_pos.Orders.Refund.Partial.{plan_partial_refund-entries}
use valla_pos.Orders.Actions.{
  Order, OrderStatus, Shop, RefundVoidResult, done, movements, ref_tag, apply_reversal, amounts_sum,
  commit, is_settled, void_order, next_status, is_refunded, refund_order,
}
use valla_pos.Orders.Actions.Cases.{
  commit-done, void_order-found, void_found-cases, refund_full-cases, refund_partial-cases,
  refund_order-found, refund_found-cases, plan-positive,
}
use valla_pos.Orders.Actions.Rows.{All-put_order, movements-apply_reversal}

-- An order that is refunded or voided has nothing left that could be given back.
abbrev pub HoldsNothing : Order → Type 0
HoldsNothing o = is_settled o.status ≡ true → net_collected_total (movements o) ≡ 0

abbrev pub IsSound : Shop → Type 0
IsSound s = All HoldsNothing s.orders

commit-IsSound :
    (o : Order) (flip restock : Bool) (rs : List PaymentMovement) (st : OrderStatus)
    (uuid : Option String) (s s' : Shop) (r : RefundVoidResult)
    → (is_settled st ≡ true → net_collected_total (movements o ++ rs) ≡ 0)
    → IsSound s
    → commit o flip restock rs st uuid s ≡ done r s'
    → IsSound s'
commit-IsSound o flip restock rs st uuid s s' r clean sound h =
    let row = apply_reversal o flip rs st (ref_tag uuid) in
    let status : row.status ≡ st = unfold apply_reversal in refl in
    rw ((commit-done o flip restock rs st uuid s s' r h).0) (
      All-put_order HoldsNothing s.orders row sound
        (λ e. rw (movements-apply_reversal o flip rs st (ref_tag uuid)) (clean (rw status at e))))

-- Voiding keeps settled orders empty: after any void that returns, whatever it returns, every voided
-- or refunded order has nothing left that could be given back, if that was so before.
pub void_order-IsSound :
    (allowed : Bool) (id : String) (uuid : Option String) (s s' : Shop) (r : RefundVoidResult)
    → IsSound s
    → void_order allowed id uuid s ≡ done r s'
    → IsSound s'
void_order-IsSound allowed id uuid s s' r sound h =
    elim (void_order-found allowed id uuid s s' r h) [
      | inl same ↦ rw same sound
      | inr (o, f) ↦ elim (void_found-cases uuid o s s' r f) [
        | inl same ↦ rw same sound
        | inr c ↦
            commit-IsSound o true true (plan_full_reversal (movements o)) OrderStatus.voided uuid s
              s' r (λ _. (plan_full_reversal_settles (movements o)).0) sound c
      ]
    ]

pub amounts_sum-reversing :
    (es : List (String × ℕ)) → amounts_sum (map reversing es) ≡ pos 0 -ℤ pos (values_sum es)
amounts_sum-reversing [] = omega int_laws
amounts_sum-reversing ((k, n) ∷ es) = grind (int_laws, neg_ℕ_parts, amounts_sum-reversing es)

module _ (fr : Fractions) (after : String → String → Bool) where
  next_status-settled :
      (ps rs : List PaymentMovement) (n : ℕ)
      → amounts_sum rs ≡ pos 0 -ℤ pos n
      → is_settled (next_status ps rs) ≡ true
      → net_collected_total ps ≤ n
  unfolding next_status is_settled
  next_status-settled ps rs n sum h = grind int_laws

  partial-clean :
      (ps rs : List PaymentMovement) (x : ℤ)
      → plan_partial_refund fr after ps x ≡ PartialRefundPlan.ok rs
      → is_settled (next_status ps rs) ≡ true
      → net_collected_total (ps ++ rs) ≡ 0
  partial-clean ps rs x h settled =
      let (n, e, positive, le) = plan-positive fr after ps rs x h in
      let (es, plan, sum, each) = plan_partial_refund-entries fr after ps n positive le in
      let at_n : plan_partial_refund fr after ps (pos n) ≡ PartialRefundPlan.ok rs = rw e at h in
      let same : rs ≡ map reversing es = cc in
      let total : amounts_sum rs ≡ pos 0 -ℤ pos n =
        rw same (amounts_sum-reversing es ∙ ap (λ k. pos 0 -ℤ pos k) sum) in
      let all : net_collected_total ps ≤ n = next_status-settled ps rs n total settled in
      rw same (omega (arith, net_collected_total-reversing ps es each))

  -- Refunding keeps settled orders empty: after any refund that returns, full or partial, every voided
  -- or refunded order has nothing left that could be given back, if that was so before. In
  -- particular a partial refund marks its order refunded only when it drains it.
  pub refund_order-IsSound :
      (allowed : Bool) (id : String) (amount : Option ℤ) (uuid : Option String) (s s' : Shop)
      (r : RefundVoidResult)
      → IsSound s
      → refund_order fr after allowed id amount uuid s ≡ done r s'
      → IsSound s'
  refund_order-IsSound allowed id amount uuid s s' r sound h =
      elim (refund_order-found fr after allowed id amount uuid s s' r h) [
        | inl same ↦ rw same sound
        | inr (o, f) ↦ elim (refund_found-cases fr after amount uuid o s s' r f) [
          | inl same ↦ rw same sound
          | inr (inl full) ↦ elim (refund_full-cases uuid o s s' r full) [
            | inl same ↦ rw same sound
            | inr c ↦
                commit-IsSound o true true (plan_full_reversal (movements o)) OrderStatus.refunded
                  uuid s s' r (λ _. (plan_full_reversal_settles (movements o)).0) sound c
          ]
          | inr (inr (x, part)) ↦ elim (refund_partial-cases fr after x uuid o s s' r part) [
            | inl same ↦ rw same sound
            | inr (rs, plan, c) ↦
                let next = next_status (movements o) rs in
                commit-IsSound o (is_refunded next) false rs next uuid s s' r
                  (partial-clean (movements o) rs x plan) sound c
          ]
        ]
      ]
