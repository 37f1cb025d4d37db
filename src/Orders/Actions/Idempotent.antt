-- ===== src/Orders/Actions/Idempotent.antt =====
-- A refund request that is sent again with its key changes nothing more.
use Prim.Native.String.{String}
use valla_pos.Base.{
  ℕ, ◌≡◌, refl, Bool, true, false, Option, none, some, List, [], ◌∷◌, arith, map, inl, inr,
  Option-cases, ◌⊎◌,
}
use valla_pos.Base.Int.{ℤ, pos}
use valla_pos.Money.Discount.{Fractions}
use valla_pos.Orders.Refund.{
  PaymentMovement, PartialRefundPlan, plan_full_reversal, plan_partial_refund, reversing,
  values_sum,
}
use valla_pos.Orders.Refund.Partial.{plan_partial_refund-entries}
use valla_pos.Orders.Actions.{
  Order, OrderStatus, Shop, RefundVoidResult, success, failure, nothing_collected, done, find_order,
  movements, ref_tag, apply_reversal, commit, has_prior_reversal, next_status, is_refunded,
  refund_full, refund_partial, refund_found, refund_order,
}
use valla_pos.Orders.Actions.Rows.{find_order-id, find_order-put_order, has_prior-apply_reversal}
use valla_pos.Orders.Actions.Cases.{commit-done, list-cases, plan-positive}

-- The request ended by committing at least one reversing row.
abbrev Committed : String → Order → Shop → Shop → RefundVoidResult → Type 0
Committed uuid o s s' r =
    (flip : Bool) × (restock : Bool) × (p : PaymentMovement) × (ps : List PaymentMovement)
    × (st : OrderStatus) × (commit o flip restock (p ∷ ps) st (some uuid) s ≡ done r s')

refund_full-Committed :
    (uuid : String) (o : Order) (s s' : Shop) (st : OrderStatus) (x c m : ℤ)
    → refund_full (some uuid) o s ≡ done (success st x c m) s'
    → Committed uuid o s s' (success st x c m)
unfolding refund_full
refund_full-Committed uuid o s s' st x c m h =
    elim (list-cases (plan_full_reversal (movements o))) [
      | inl e ↦
          let stop : done (failure nothing_collected) s ≡ done (success st x c m) s' =
            rw (e, refund_full) at h in
          absurd (cc)
      | inr (p, ps, e) ↦ (true, true, p, ps, OrderStatus.refunded, rw (e, refund_full) at h)
    ]

module _ (fr : Fractions) (after : String → String → Bool) where
  plan-cons :
      (ps rs : List PaymentMovement) (x : ℤ)
      → plan_partial_refund fr after ps x ≡ PartialRefundPlan.ok rs
      → (p : PaymentMovement) × (qs : List PaymentMovement) × (rs ≡ p ∷ qs)
  plan-cons ps rs x h =
      let (n, e, positive, le) = plan-positive fr after ps rs x h in
      let (es, plan, sum, each) = plan_partial_refund-entries fr after ps n positive le in
      let at_n : plan_partial_refund fr after ps (pos n) ≡ PartialRefundPlan.ok rs = rw e at h in
      let same : rs ≡ map reversing es = cc in first es sum same
    where
      first :
          (es : List (String × ℕ))
          → values_sum es ≡ (plan-positive fr after ps rs x h).0
          → rs ≡ map reversing es
          → (p : PaymentMovement) × (qs : List PaymentMovement) × (rs ≡ p ∷ qs)
      first [] sum same = absurd (omega (arith, (plan-positive fr after ps rs x h).2))
      first (e ∷ es) sum same = (reversing e, map reversing es, same)

  refund_partial-ended :
      (a : ℤ) (uuid : String) (o : Order) (s s' : Shop) (st : OrderStatus) (x c m : ℤ)
      → refund_partial fr after a (some uuid) o s ≡ done (success st x c m) s'
      → (rs : List PaymentMovement) × (plan_partial_refund fr after (movements o) a
          ≡ PartialRefundPlan.ok rs)
        × (commit o
              (is_refunded (next_status (movements o) rs))
              false
              rs
              (next_status (movements o) rs)
              (some uuid)
              s
            ≡ done (success st x c m) s')
  unfolding refund_partial
  refund_partial-ended a uuid o s s' st x c m h = ground arith

  full-step :
      (uuid : String) (o : Order) (s s' : Shop) (st : OrderStatus) (x c m : ℤ)
      → refund_found fr after none (some uuid) o s ≡ done (success st x c m) s'
      → ((has_prior_reversal (some uuid) o.payments ≡ true) × (s' ≡ s))
        ⊎ (refund_full (some uuid) o s ≡ done (success st x c m) s')
  unfolding refund_found
  full-step uuid o s s' st x c m h = ground arith

  partial-step :
      (a : ℤ) (uuid : String) (o : Order) (s s' : Shop) (st : OrderStatus) (x c m : ℤ)
      → refund_found fr after (some a) (some uuid) o s ≡ done (success st x c m) s'
      → ((has_prior_reversal (some uuid) o.payments ≡ true) × (s' ≡ s))
        ⊎ (refund_partial fr after a (some uuid) o s ≡ done (success st x c m) s')
  unfolding refund_found
  partial-step a uuid o s s' st x c m h = ground arith

  refund_found-Committed :
      (amount : Option ℤ) (uuid : String) (o : Order) (s s' : Shop) (st : OrderStatus) (x c m : ℤ)
      → refund_found fr after amount (some uuid) o s ≡ done (success st x c m) s'
      → ((has_prior_reversal (some uuid) o.payments ≡ true) × (s' ≡ s))
        ⊎ Committed uuid o s s' (success st x c m)
  refund_found-Committed none uuid o s s' st x c m h = elim (full-step uuid o s s' st x c m h) [
    | inl same ↦ inl same
    | inr f ↦ inr (refund_full-Committed uuid o s s' st x c m f)
  ]
  refund_found-Committed (some a) uuid o s s' st x c m h =
      elim (partial-step a uuid o s s' st x c m h) [
        | inl same ↦ inl same
        | inr f ↦
            let (rs, plan, went) = refund_partial-ended a uuid o s s' st x c m f in
            let (p, qs, e) = plan-cons (movements o) rs a plan in
            let next = next_status (movements o) (p ∷ qs) in
            inr (is_refunded next, false, p, qs, next, rw e at went)
      ]

  -- An action that succeeds was allowed, and found its order.
  refund_order-success :
      (allowed : Bool) (id : String) (amount : Option ℤ) (uuid : Option String) (s s' : Shop)
      (st : OrderStatus) (x c m : ℤ)
      → refund_order fr after allowed id amount uuid s ≡ done (success st x c m) s'
      → (allowed ≡ true)
        × ((o : Order) × (find_order id s.orders ≡ some o)
            × (refund_found fr after amount uuid o s ≡ done (success st x c m) s'))
  unfolding refund_order
  refund_order-success false id amount uuid s s' st x c m h = absurd (ground arith)
  refund_order-success true id amount uuid s s' st x c m h =
      elim (Option-cases (find_order id s.orders)) [
        | inl e ↦ absurd (ground arith)
        | inr (o, e) ↦ (refl, (o, e, ground arith))
      ]

  -- An order that carries the request's tag is left as it is.
  refund_order-again :
      (id : String) (amount : Option ℤ) (uuid : String) (s : Shop) (o : Order)
      → find_order id s.orders ≡ some o
      → has_prior_reversal (some uuid) o.payments ≡ true
      → refund_order fr after true id amount (some uuid) s
        ≡ done (success o.status (pos 0) (pos 0) (pos 0)) s
  unfolding refund_order refund_found
  refund_order-again id amount uuid s o e prior = rw (e, prior) refl

  -- A refund request that is sent again is not made twice: once a refund with a request key has
  -- succeeded, the same request on the shop it left succeeds too, reverses nothing and leaves the shop
  -- as it is.
  pub refund_order-again_changes_nothing :
      (allowed : Bool) (id : String) (amount : Option ℤ) (uuid : String) (s s' : Shop)
      (st : OrderStatus) (x c m : ℤ)
      → refund_order fr after allowed id amount (some uuid) s ≡ done (success st x c m) s'
      → (st' : OrderStatus) × (refund_order fr after allowed id amount (some uuid) s'
          ≡ done (success st' (pos 0) (pos 0) (pos 0)) s')
  refund_order-again_changes_nothing allowed id amount uuid s s' st x c m h =
      let (may, (o, e, went)) =
        refund_order-success allowed id amount (some uuid) s s' st x c m h in
      elim (refund_found-Committed amount uuid o s s' st x c m went) [
        | inl (prior, same) ↦
            (o.status, rw (may, same) (refund_order-again id amount uuid s o e prior))
        | inr (flip, restock, p, ps, next, written) ↦
            let row = apply_reversal o flip (p ∷ ps) next (ref_tag (some uuid)) in
            let (rows, result) =
              commit-done o flip restock (p ∷ ps) next (some uuid) s s' (success st x c m)
                written in
            let id_row : row.id ≡ id = unfold apply_reversal in find_order-id id s.orders o e in
            let there : find_order id s'.orders ≡ some row =
              rw rows (find_order-put_order id s.orders o row e id_row) in
            (
              row.status,
              rw may (
                  refund_order-again id amount uuid s' row there
                    (has_prior-apply_reversal o flip p ps next uuid)),
            )
      ]
