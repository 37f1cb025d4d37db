-- ===== src/Orders/Refund.antt =====
-- Refund and void math (src/features/orders/refund.ts). Amounts of payments are signed: a captured
-- payment is positive, a reversal negative.
--
-- A JavaScript `Map` is an association list in insertion order. `String.localeCompare` is not the
-- program's: `after a b` stands for `a.localeCompare(b) > 0`, and nothing is assumed of it. The
-- fraction of a double quotient is `Fractions.frac` of Money/Discount.
pub mod Net
pub mod Settle
pub mod Shares
pub mod Floors
pub mod Partial
pub mod Tests
use Prim.Native.String.{String}
use text.Mathlib.Text.{◌==◌ as str_eq}
use valla_pos.Base.{
  ℕ, zero, suc, ◌+◌, ◌-◌, ◌*◌, ◌/◌, Bool, true, false, List, [], ◌∷◌, map, sum_by, filter, ltb,
  ◌==◌, ◌&&◌, ◌||◌, if◌then◌else◌,
}
use valla_pos.Base.Int.{ℤ, pos, negsuc, neg_ℕ, ◌+ℤ◌, pos_part, leb_ℤ}
use valla_pos.Base.Sort.{sort_by}
use valla_pos.Money.Discount.{Fractions}

-- `PaymentMovement` and `ReversingPayment`
pub record PaymentMovement : Type 0 where
  pub method : String
  pub amount_cents : ℤ

-- `net.set(method, (net.get(method) ?? 0) + amount)`
unfoldable pub add_net : String → ℤ → List (String × ℤ) → List (String × ℤ)
add_net m x [] = (m, pos 0 +ℤ x) ∷ []
add_net m x ((k, v) ∷ net) = if str_eq k m then (k, v +ℤ x) ∷ net else (k, v) ∷ add_net m x net

-- The first loop of `netCollectedByMethod`, from a map.
unfoldable pub add_movements : List (String × ℤ) → List PaymentMovement → List (String × ℤ)
add_movements net [] = net
add_movements net (p ∷ ps) = add_movements (add_net p.method p.amount_cents net) ps

-- Its second loop, which deletes the methods whose amount is not positive.
unfoldable pub drop_settled : List (String × ℤ) → List (String × ℕ)
drop_settled [] = []
drop_settled ((m, pos zero) ∷ net) = drop_settled net
drop_settled ((m, pos (suc n)) ∷ net) = (m, suc n) ∷ drop_settled net
drop_settled ((m, negsuc n) ∷ net) = drop_settled net

-- `netCollectedByMethod`. What is left is positive, so it is a natural number.
unfoldable pub net_collected_by_method : List PaymentMovement → List (String × ℕ)
net_collected_by_method payments = drop_settled (add_movements [] payments)

-- The sum of a map's values.
abbrev pub values_sum : List (String × ℕ) → ℕ
values_sum = sum_by (λ (e : String × ℕ). e.1)

-- `netCollectedTotal`
unfoldable pub net_collected_total : List PaymentMovement → ℕ
net_collected_total payments = values_sum (net_collected_by_method payments)

-- A reversing payment: the negative of an amount.
abbrev pub reversing : String × ℕ → PaymentMovement
reversing (m, n) = record { method = m; amount_cents = neg_ℕ n }

-- `planFullReversal`
unfoldable pub plan_full_reversal : List PaymentMovement → List PaymentMovement
plan_full_reversal payments = map reversing (net_collected_by_method payments)

pub data PartialRefundError : Type 0 where
  amount_not_positive exceeds_net_collected no_collected_payments : PartialRefundError

pub data PartialRefundPlan : Type 0 where
  ok : List PaymentMovement → PartialRefundPlan
  err : PartialRefundError → PartialRefundPlan

-- An entry of `shares`.
pub record Share : Type 0 where
  pub method : String
  pub balance : ℕ
  pub amount : ℕ
  pub frac : ℕ

-- An entry of `byFrac`, which is a reference to the entry of `shares` at `index`, with the two fields
-- that the sort reads.
pub record ShareRef : Type 0 where
  pub index : ℕ
  pub method : String
  pub frac : ℕ

unfoldable pub refs_from : ℕ → List Share → List ShareRef
refs_from i [] = []
refs_from i (s ∷ ss) = record { index = i; method = s.method; frac = s.frac } ∷ refs_from (i + 1) ss

-- `share.amount < share.balance`, of the entry that is referred to.
unfoldable pub has_room : List Share → ℕ → Bool
has_room [] i = false
has_room (s ∷ ss) zero = ltb s.amount s.balance
has_room (s ∷ ss) (suc i) = has_room ss i

-- `share.amount += 1`
unfoldable pub add_cent : List Share → ℕ → List Share
add_cent [] i = []
add_cent (s ∷ ss) zero = record s { amount = s.amount + 1 } ∷ ss
add_cent (s ∷ ss) (suc i) = s ∷ add_cent ss i

-- The loop over `byFrac`, which breaks when nothing is left over.
unfoldable pub give_cents : List ShareRef → ℕ → List Share → List Share
give_cents [] leftover shares = shares
give_cents (r ∷ rs) zero shares = shares
give_cents (r ∷ rs) (suc leftover) shares = elim (has_room shares r.index) [
  | true ↦ give_cents rs leftover (add_cent shares r.index)
  | false ↦ give_cents rs (suc leftover) shares
]

abbrev pub amount_of : Share → ℕ
amount_of s = s.amount

module _ (after : String → String → Bool) where
  -- `b[1] - a[1] || a[0].localeCompare(b[0])` is positive.
  abbrev pub balance_behind : String × ℕ → String × ℕ → Bool
  balance_behind (m, v) (k, w) = ltb v w || (v == w && after m k)

  -- `b.frac - a.frac || a.method.localeCompare(b.method)` is positive.
  abbrev pub frac_behind : ShareRef → ShareRef → Bool
  frac_behind a b = ltb a.frac b.frac || (a.frac == b.frac && after a.method b.method)

-- The floor of a method's proportional share.
abbrev pub share_of : Fractions → ℕ → ℕ → String × ℕ → Share
share_of fr amount total (m, balance) = record {
  method = m;
  balance = balance;
  amount = (amount * balance) / total;
  frac = fr.frac (amount * balance) total;
}

module _ (fr : Fractions) (after : String → String → Bool) where
  -- `shares` after the loop, for an amount that passed the guards.
  unfoldable pub refund_shares : List (String × ℕ) → ℕ → List Share
  unfolding sort_by
  refund_shares by_method amount =
      let total = values_sum by_method in
      let shares = map (share_of fr amount total) (sort_by (balance_behind after) by_method) in
      let allocated = sum_by amount_of shares in
      give_cents (sort_by (frac_behind after) (refs_from 0 shares)) (amount - allocated) shares

  -- `planPartialRefund`. The amount is an integer (the zod schema), so it is finite.
  unfoldable pub plan_partial_refund : List PaymentMovement → ℤ → PartialRefundPlan
  plan_partial_refund payments amount =
      let by_method = net_collected_by_method payments in
      let total = values_sum by_method in
      if leb_ℤ amount (pos 0)
      then err amount_not_positive
      else if total == 0
      then err no_collected_payments
      else if ltb total (pos_part amount)
      then err exceeds_net_collected
      else ok (
          map (λ (s : Share). reversing (s.method, s.amount))
            (filter (λ (s : Share). ltb 0 s.amount) (refund_shares by_method (pos_part amount))))
