-- ===== src/Orders/Refund/Floors.antt =====
-- The shares of a partial refund before the leftover cents: floors of exact shares, one reference to
-- each, and room enough for what is left over.
use Prim.Native.String.{String}
use native.Mathlib.Decide.{dec_lt}
use native.Mathlib.Nat.{mul-le-mul_left, mul-le-mul_right}
use valla_pos.Base.{
  ℕ, suc, ◌+◌, ◌*◌, ◌/◌, ◌%◌, ◌≤◌, ◌<◌, ◌≡◌, refl, List, [], ◌∷◌, arith, map, sum_by, ltb,
  if◌then◌else◌, inl, inr, Bool-cases, filter, lt→ltb, le→ltb,
}
use valla_pos.Money.Discount.{Fractions}
use valla_pos.Orders.Refund.{Share, refs_from, has_room, amount_of, share_of, values_sum, reversing}
use valla_pos.Orders.Refund.Net.{asked}
use valla_pos.Orders.Refund.Shares.{IsCapped, balance_of, count_index, count_room}

-- One reference to each entry.
pub count_index-refs :
    (j i : ℕ) (ss : List Share)
    → (count_index j (refs_from i ss) ≤ 1) × (j < i → count_index j (refs_from i ss) ≡ 0)
unfolding refs_from
count_index-refs j i [] = (omega arith, λ _. refl)
count_index-refs j i (s ∷ ss) = ground (arith, count_index-refs j (i + 1) ss)

abbrev pub room_in : List Share → ℕ
room_in = sum_by (λ (s : Share). if ltb s.amount s.balance then 1 else 0)

-- The references that have room are as many as the entries that have.
pub count_room-refs :
    (store : List Share) (i : ℕ) (ss : List Share)
    → ((j : ℕ) → has_room store (i + j) ≡ has_room ss j)
    → count_room store (refs_from i ss) ≡ room_in ss
unfolding refs_from has_room
count_room-refs store i [] h = refl
count_room-refs store i (s ∷ ss) h =
    let here : i + 0 ≡ i = omega arith in
    let head : has_room store i ≡ ltb s.amount s.balance = rw here at (h 0) in
    let step : (j : ℕ) → i + 1 + j ≡ i + suc j = λ j. omega arith in
    rw (head, count_room-refs store (i + 1) ss (λ j. rw (step j) (h (suc j))))

-- A share with a remainder is below its balance.
room_lem :
    (amount b total : ℕ)
    → 0 < total
    → amount ≤ total
    → ((amount * b) % total + (if ltb ((amount * b) / total) b then 1 else 0)
        ≤ total * (if ltb ((amount * b) / total) b then 1 else 0))
room_lem amount b total h le =
    let capped : amount * b ≤ total * b = mul-le-mul_right b le in
    elim (dec_lt ((amount * b) / total) b) [
      | yes p ↦ rw (lt→ltb ((amount * b) / total) b p) (grind arith)
      | no p ↦
          let above : total * b ≤ total * ((amount * b) / total) =
            mul-le-mul_left total (omega arith) in
          rw (le→ltb ((amount * b) / total) b (omega arith)) (grind arith)
    ]

module _ (fr : Fractions) (amount total : ℕ) where
  abbrev pub shares : List (String × ℕ) → List Share
  shares = map (share_of fr amount total)

  abbrev pub rests : List (String × ℕ) → ℕ
  rests = sum_by (λ (e : String × ℕ). (amount * e.1) % total)

  pub shares-sum :
      (es : List (String × ℕ))
      → 0 < total
      → total * sum_by amount_of (shares es) + rests es ≡ amount * values_sum es
  shares-sum [] h = omega arith
  shares-sum (e ∷ es) h = grind (arith, shares-sum es h)

  pub shares-IsCapped : (es : List (String × ℕ)) → 0 < total → amount ≤ total → IsCapped (shares es)
  shares-IsCapped [] h le = tt
  shares-IsCapped (e ∷ es) h le = (grind arith, shares-IsCapped es h le)

  pub rests-le-room :
      (es : List (String × ℕ))
      → 0 < total
      → amount ≤ total
      → rests es + room_in (shares es) ≤ total * room_in (shares es)
  rests-le-room [] h le = omega arith
  rests-le-room (e ∷ es) h le = omega (arith, room_lem amount e.1 total h le, rests-le-room es h le)

  pub balance_of-shares :
      (m : String) (es : List (String × ℕ)) → balance_of m (shares es) ≡ asked m es
  balance_of-shares m [] = refl
  balance_of-shares m (e ∷ es) = omega (arith, balance_of-shares m es)

  sum_by-values :
      (es : List (String × ℕ))
      → sum_by amount_of (shares es) ≡ sum_by (λ (e : String × ℕ). (amount * e.1) / total) es
  sum_by-values [] = refl
  sum_by-values (e ∷ es) = omega (arith, sum_by-values es)

-- The entries of the plan: the shares that are not zero.
abbrev pub entries : List Share → List (String × ℕ)
entries ss = map (λ (s : Share). (s.method, s.amount)) (filter (λ (s : Share). ltb 0 s.amount) ss)

pub values_sum-entries : (ss : List Share) → values_sum (entries ss) ≡ sum_by amount_of ss
values_sum-entries [] = refl
values_sum-entries (s ∷ ss) = ground (arith, values_sum-entries ss)

pub asked-entries :
    (m : String) (ss : List Share) → IsCapped ss → asked m (entries ss) ≤ balance_of m ss
asked-entries m [] h = omega arith
asked-entries m (s ∷ ss) (h, hs) = ground (arith, asked-entries m ss hs)

pub reversing-entries :
    (ss : List Share)
    → map
        (λ (s : Share). reversing (s.method, s.amount))
        (filter (λ (s : Share). ltb 0 s.amount) ss)
      ≡ map reversing (entries ss)
reversing-entries [] = refl
reversing-entries (s ∷ ss) = elim (Bool-cases (ltb 0 s.amount)) [
  | inl e ↦ rw (e, reversing-entries ss)
  | inr e ↦ rw e (reversing-entries ss)
]
