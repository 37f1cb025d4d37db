-- ===== src/Orders/Actions/Rows.antt =====
-- Rows of the order table, and what a reversal writes to an order's payments.
use Prim.Native.String.{String}
use text.Mathlib.Text.{◌==◌ as str_eq}
use text.Mathlib.TextEquality.{eq_iff}
use valla_pos.Base.{
  ◌≡◌, refl, ap, ◌∙◌, Bool, true, false, Option, some, List, [], ◌∷◌, ◌++◌, arith, map, All, any,
  ◌||◌, inl, inr, Bool-cases, if◌then◌else◌,
}
use valla_pos.Orders.Refund.{PaymentMovement}
use valla_pos.Orders.Actions.{
  Order, OrderStatus, Payment, find_order, put_order, movement, movements, flip_capture,
  reversing_row, apply_reversal, ref_tag, tag_of, has_tag, has_prior_reversal,
}

pub find_order-id :
    (id : String) (os : List Order) (o : Order) → find_order id os ≡ some o → o.id ≡ id
unfolding find_order
find_order-id id [] o h = cc
find_order-id id (p ∷ ps) o h = ground (arith, eq_iff p.id id, find_order-id id ps o)

pub find_order-put_order :
    (id : String) (os : List Order) (o p : Order)
    → find_order id os ≡ some o
    → p.id ≡ id
    → find_order id (put_order p os) ≡ some p
unfolding find_order put_order
find_order-put_order id [] o p h e = cc
find_order-put_order id (q ∷ qs) o p h e =
    ground (arith, eq_iff q.id id, eq_iff q.id p.id, eq_iff p.id id, find_order-put_order id qs o p)

-- A property of all orders is kept by a row that has it.
pub All-put_order {ℓ} :
    (P : Order → Type ℓ) (os : List Order) (p : Order) → All P os → P p → All P (put_order p os)
unfolding put_order
All-put_order P [] p hs h = tt
All-put_order P (q ∷ qs) p (g, gs) h = elim (Bool-cases (str_eq q.id p.id)) [
  | inl e ↦ rw e (h, gs)
  | inr e ↦ rw e (g, All-put_order P qs p gs h)
]

map-flip : (ps : List Payment) → map movement (map flip_capture ps) ≡ map movement ps
map-flip [] = refl
map-flip (p ∷ ps) = ap (◌∷◌ (movement p)) (map-flip ps)

map-movement_append :
    (ps : List Payment) (tag : Option String) (rs : List PaymentMovement)
    → map movement (ps ++ map (reversing_row tag) rs) ≡ map movement ps ++ rs
map-movement_append [] tag [] = refl
map-movement_append [] tag (r ∷ rs) = ap (◌∷◌ r) (map-movement_append [] tag rs)
map-movement_append (p ∷ ps) tag rs = ap (◌∷◌ (movement p)) (map-movement_append ps tag rs)

-- Whatever is flipped, the movements of the order are the old ones and then the reversals.
pub movements-apply_reversal :
    (o : Order) (flip : Bool) (rs : List PaymentMovement) (st : OrderStatus) (tag : Option String)
    → movements (apply_reversal o flip rs st tag) ≡ movements o ++ rs
unfolding apply_reversal
movements-apply_reversal o true rs st tag =
    map-movement_append (map flip_capture o.payments) tag rs
    ∙ ap (λ l. l ++ rs) (map-flip o.payments)
movements-apply_reversal o false rs st tag = map-movement_append o.payments tag rs

any-append {ℓ} :
    {A : Type ℓ} (t : A → Bool) (xs ys : List A) → any t (xs ++ ys) ≡ (any t xs || any t ys)
any-append t [] ys = refl
any-append t (x ∷ xs) ys = ground (arith, any-append t xs ys)

or_true : (b : Bool) → (b || true) ≡ true
or_true true = refl
or_true false = refl

-- A reversal with at least one row leaves its tag on the order.
pub has_prior-apply_reversal :
    (o : Order) (flip : Bool) (r : PaymentMovement) (rs : List PaymentMovement) (st : OrderStatus)
    (uuid : String)
    → has_prior_reversal
        (some uuid)
        (apply_reversal o flip (r ∷ rs) st (ref_tag (some uuid))).payments
      ≡ true
unfolding apply_reversal has_prior_reversal ref_tag
has_prior-apply_reversal o flip r rs st uuid =
    let old = if flip then map flip_capture o.payments else o.payments in
    let same : str_eq (tag_of uuid) (tag_of uuid) ≡ true =
      (eq_iff (tag_of uuid) (tag_of uuid)).1 refl in
    any-append (has_tag (tag_of uuid)) old (map (reversing_row (some (tag_of uuid))) (r ∷ rs))
    ∙ rw same (or_true _)
