-- ===== src/Orders/Refund/Partial.antt =====
-- A partial refund gives back exactly what was asked, and no method more than it still holds.
use Prim.Native.String.{String}
use text.Mathlib.Text.{◌==◌ as str_eq}
use valla_pos.Base.{
  ℕ, ◌+◌, ◌-◌, ◌*◌, ◌≤◌, ◌<◌, ◌≡◌, refl, ap, ◌∙◌, Bool, List, [], ◌∷◌, ◌++◌, arith, map, sum_by,
  ◌==◌, if◌then◌else◌, ◌⊎◌, ◌↔◌,
}
use valla_pos.Base.Int.{ℤ, pos, pos_part, neg_part, neg_ℕ_parts, ◌≤ℤ◌}
use valla_pos.Base.Sort.{sort_by, sum_by-sort_by}
use valla_pos.Money.Discount.{Fractions}
use valla_pos.Money.Discount.Shares.{leftover_bound}
use valla_pos.Orders.Refund.{
  PaymentMovement, Share, ShareRef, refs_from, has_room, amount_of, share_of, balance_behind,
  frac_behind, refund_shares, values_sum, plan_partial_refund, PartialRefundError,
  amount_not_positive, exceeds_net_collected, no_collected_payments, ok, err,
  net_collected_by_method, net_collected_total, reversing,
}
use valla_pos.Orders.Refund.Net.{collected, asked}
use valla_pos.Orders.Refund.Settle.{asked-net, net_collected_total-reversing}
use valla_pos.Orders.Refund.Shares.{
  IsCapped, balance_of, give_cents-IsCapped, balance_of-give_cents, count_index, count_room,
  sum-give_cents,
}
use valla_pos.Orders.Refund.Floors.{
  count_index-refs, room_in, count_room-refs, rests, shares-sum, shares-IsCapped, rests-le-room,
  balance_of-shares, entries, values_sum-entries, asked-entries, reversing-entries,
}

module _ (fr : Fractions) (after : String → String → Bool) (by_method : List (String × ℕ))
    (amount : ℕ) (le : amount ≤ values_sum by_method) (pos_amount : 0 < amount) where
  abbrev total : ℕ
  total = values_sum by_method

  abbrev ordered : List (String × ℕ)
  ordered = sort_by (balance_behind after) by_method

  abbrev floors : List Share
  floors = map (share_of fr amount total) ordered

  abbrev refs : List ShareRef
  refs = sort_by (frac_behind after) (refs_from 0 floors)

  floors-IsCapped : IsCapped floors
  floors-IsCapped = shares-IsCapped fr amount total ordered (omega arith) le

  refund_shares-IsCapped : IsCapped (refund_shares fr after by_method amount)
  unfolding refund_shares
  refund_shares-IsCapped = give_cents-IsCapped refs _ floors floors-IsCapped

  balance_of-refund_shares :
      (m : String) → balance_of m (refund_shares fr after by_method amount) ≡ asked m by_method
  unfolding refund_shares
  balance_of-refund_shares m =
      balance_of-give_cents m refs _ floors
      ∙ balance_of-shares fr amount total m ordered
      ∙ sum_by-sort_by (balance_behind after) _ by_method

  enough :
      (sum_by amount_of floors ≤ amount)
      × (amount - sum_by amount_of floors ≤ count_room floors refs)
  enough =
      let h : 0 < total = omega arith in
      let same : values_sum ordered ≡ total = sum_by-sort_by (balance_behind after) _ by_method in
      let room : count_room floors refs ≡ room_in floors =
        sum_by-sort_by (frac_behind after) _ (refs_from 0 floors)
        ∙ count_room-refs floors 0 floors (λ j. ap (has_room floors) (omega arith)) in
      rw room (
        leftover_bound amount (room_in floors) (sum_by amount_of floors)
          (rests fr amount total ordered) total h
          (shares-sum fr amount total ordered h ∙ ap (λ v. amount * v) same)
          (rests-le-room fr amount total ordered h le))

  sum-refund_shares : sum_by amount_of (refund_shares fr after by_method amount) ≡ amount
  unfolding refund_shares
  sum-refund_shares =
      let once : (j : ℕ) → count_index j refs ≤ 1 = λ j.
        rw
          (sum_by-sort_by (frac_behind after) (λ (r : ShareRef). if r.index == j then 1 else 0)
            (refs_from 0 floors))
          ((count_index-refs j 0 floors).0) in
      omega (
        arith,
        enough,
        sum-give_cents refs (amount - sum_by amount_of floors) floors once (enough.1),
      )

-- What a list of reversing rows gives back of one method, and in all.
abbrev pub given_back : String → List PaymentMovement → ℕ
given_back m =
    sum_by (λ (r : PaymentMovement). if str_eq r.method m then neg_part r.amount_cents else 0)

abbrev pub reversed_cents : List PaymentMovement → ℕ
reversed_cents = sum_by (λ (r : PaymentMovement). neg_part r.amount_cents)

given_back-reversing :
    (m : String) (es : List (String × ℕ)) → given_back m (map reversing es) ≡ asked m es
given_back-reversing m [] = refl
given_back-reversing m ((k, n) ∷ es) =
    rw ((neg_ℕ_parts n).1) (omega (arith, given_back-reversing m es))

reversed_cents-reversing :
    (es : List (String × ℕ)) → reversed_cents (map reversing es) ≡ values_sum es
reversed_cents-reversing [] = refl
reversed_cents-reversing ((k, n) ∷ es) =
    omega (arith, (neg_ℕ_parts n).1, reversed_cents-reversing es)

plan-ok :
    (fr : Fractions) (after : String → String → Bool) (ps : List PaymentMovement) (n : ℕ)
    → 0 < n
    → n ≤ net_collected_total ps
    → plan_partial_refund fr after ps (pos n)
      ≡ ok (map reversing (entries (refund_shares fr after (net_collected_by_method ps) n)))
unfolding plan_partial_refund net_collected_total
plan-ok fr after ps n h le =
    rw (← reversing-entries (refund_shares fr after (net_collected_by_method ps) n)) (ground arith)

-- The plan as a list of amounts by method.
pub plan_partial_refund-entries :
    (fr : Fractions) (after : String → String → Bool) (ps : List PaymentMovement) (n : ℕ)
    → 0 < n
    → n ≤ net_collected_total ps
    → (es : List (String × ℕ)) × (plan_partial_refund fr after ps (pos n) ≡ ok (map reversing es))
      × (values_sum es ≡ n)
      × ((m : String) → asked m es ≤ pos_part (collected m ps))
plan_partial_refund-entries fr after ps n h le =
    let by_method = net_collected_by_method ps in
    let le' : n ≤ values_sum by_method = unfold net_collected_total in le in
    let ss = refund_shares fr after by_method n in
    let capped = refund_shares-IsCapped fr after by_method n le' h in
    let balance = balance_of-refund_shares fr after by_method n le' h in
    (
      entries ss,
      plan-ok fr after ps n h le,
      values_sum-entries ss ∙ sum-refund_shares fr after by_method n le' h,
      λ m. omega (arith, asked-entries m ss capped, balance m, asked-net m ps),
    )

-- A partial refund of a positive amount that is still collected always succeeds, whatever the
-- collation of method names: its rows give back exactly that amount, of no method more than its
-- positive net amount, and once they are recorded the total still collected is lower by just that
-- amount.
pub plan_partial_refund_exact :
    (fr : Fractions) (after : String → String → Bool) (ps : List PaymentMovement) (n : ℕ)
    → 0 < n
    → n ≤ net_collected_total ps
    → (rs : List PaymentMovement) × (plan_partial_refund fr after ps (pos n) ≡ ok rs)
      × (reversed_cents rs ≡ n)
      × ((m : String) → given_back m rs ≤ pos_part (collected m ps))
      × (net_collected_total (ps ++ rs) + n ≡ net_collected_total ps)
plan_partial_refund_exact fr after ps n h le =
    let (es, plan, sum, each) = plan_partial_refund-entries fr after ps n h le in
    (
      map reversing es,
      plan,
      reversed_cents-reversing es ∙ sum,
      λ m. rw (given_back-reversing m es) (each m),
      omega (arith, sum, net_collected_total-reversing ps es each),
    )

-- The refusals: an amount that is not positive, then an order with nothing collected, then an amount
-- above what is collected; and no other amount is refused.
pub plan_partial_refund_refuses :
    (fr : Fractions) (after : String → String → Bool) (ps : List PaymentMovement) (x : ℤ)
    (e : PartialRefundError)
    → (plan_partial_refund fr after ps x ≡ err e) ↔ (
        ((e ≡ amount_not_positive) × (x ≤ℤ pos 0))
        ⊎ ((e ≡ no_collected_payments) × (pos 1 ≤ℤ x) × (net_collected_total ps ≡ 0))
        ⊎ ((e ≡ exceeds_net_collected)
            × (pos 1 ≤ℤ x)
            × (0 < net_collected_total ps)
            × (pos (net_collected_total ps + 1) ≤ℤ x)))
unfolding plan_partial_refund net_collected_total
plan_partial_refund_refuses fr after ps x e = ground arith
