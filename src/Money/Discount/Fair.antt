-- ===== src/Money/Discount/Fair.antt =====
-- The allocation of a cart discount is exact and fair, line by line.
use native.Mathlib.Decide.{dec_le}
use valla_pos.Base.{
  ℕ, zero, suc, ◌+◌, ◌*◌, ◌/◌, ◌≤◌, ◌<◌, ◌≡◌, refl, ◌∙◌, List, arith, length, get_or, replicate,
  sum, sum-replicate_zero, min, ◌⊎◌, inl, inr,
}
use native.Mathlib.Nat.{mul-le-mul_left, mul-le-mul_right}
use valla_pos.Money.Discount.{Fractions, floors, allocate_cart_discount}
use valla_pos.Money.Discount.HandOut.{length-floors, length-hand_out}
use valla_pos.Money.Discount.Shares.{IsExact}
use valla_pos.Money.Discount.Extra.{leftover, sorted, shares, sum-shares, get_or-shares}

length-replicate : (n : ℕ) → length {A = ℕ} (replicate n 0) ≡ n
length-replicate zero = refl
length-replicate (suc n) = omega (arith, length-replicate n)

get_or-replicate : (n j : ℕ) → get_or {A = ℕ} (replicate n 0) j 0 ≡ 0
get_or-replicate zero j = refl
get_or-replicate (suc n) zero = refl
get_or-replicate (suc n) (suc j) = get_or-replicate n j

-- `f` is the floor of the share `t * b / d` and `g` the amount given for it.
share_bounds :
    (g f t b d : ℕ)
    → t ≤ d
    → f * d ≤ t * b
    → t * b < f * d + d
    → (g ≡ f) ⊎ ((g ≡ f + 1) × (f * d < t * b))
    → (g ≤ b) × (g * d < t * b + d) × (t * b < g * d + d)
share_bounds g f t b d h low high (inl e) =
    let capped : t * b ≤ d * b = mul-le-mul_right b h in
    rw e (elim (dec_le f b) [
      | yes p ↦ (p, omega arith, high)
      | no p ↦ let more : b + 1 ≤ f = omega arith in absurd (omega (arith, mul-le-mul_left d more))
    ])
share_bounds g f t b d h low high (inr (e, part)) =
    let capped : t * b ≤ d * b = mul-le-mul_right b h in
    rw e (elim (dec_le (f + 1) b) [
      | yes p ↦ (p, omega arith, omega arith)
      | no p ↦ let more : b ≤ f = omega arith in absurd (omega (arith, mul-le-mul_left d more))
    ])

-- What the program allocates, in both cases of its first test.
allocate-cases :
    (fr : Fractions) (bases : List ℕ) (cart_discount : ℕ)
    → let target = min cart_discount (sum bases) in
      ((target ≡ 0) × (allocate_cart_discount fr bases cart_discount ≡ replicate (length bases) 0))
      ⊎ ((0 < target)
          × (0 < sum bases)
          × (allocate_cart_discount fr bases cart_discount ≡ shares fr bases target))
unfolding allocate_cart_discount
allocate-cases fr bases cart_discount = ground arith

-- If the products of the target and the bases are exact as doubles, the allocation sums to exactly
-- the smaller of the cart discount and the sum of the bases: no cent is lost or invented.
pub sum-allocate_cart_discount :
    (fr : Fractions) (bases : List ℕ) (cart_discount : ℕ)
    → IsExact bases cart_discount
    → sum (allocate_cart_discount fr bases cart_discount) ≡ min cart_discount (sum bases)
sum-allocate_cart_discount fr bases d exact = elim (allocate-cases fr bases d) [
  | inl (none_left, e) ↦ rw e (omega (arith, sum-replicate_zero (length bases)))
  | inr (_, pos_total, e) ↦ rw e (sum-shares fr bases (min d (sum bases)) pos_total exact)
]

-- The allocation has one entry for each line, whatever the amounts.
pub length-allocate_cart_discount :
    (fr : Fractions) (bases : List ℕ) (cart_discount : ℕ)
    → length (allocate_cart_discount fr bases cart_discount) ≡ length bases
length-allocate_cart_discount fr bases d = elim (allocate-cases fr bases d) [
  | inl (_, e) ↦ rw e (length-replicate (length bases))
  | inr (_, _, e) ↦
      let target = min d (sum bases) in
      rw e (
        length-hand_out (sorted fr bases target) (leftover fr bases target)
          (floors target (sum bases) bases)
        ∙ length-floors target (sum bases) bases)
]

-- Under the same bound no line is allocated more than its own base, so that no taxable base falls
-- below zero and a line with base 0 gets nothing; and each line's allocation is less than a cent
-- away from its exact proportional share.
pub allocate_cart_discount_fair :
    (fr : Fractions) (bases : List ℕ) (cart_discount : ℕ) (j : ℕ)
    → IsExact bases cart_discount
    → 0 < sum bases
    → let share = min cart_discount (sum bases) * get_or bases j 0 in
      let got = get_or (allocate_cart_discount fr bases cart_discount) j 0 in
      (got ≤ get_or bases j 0)
      × (got * sum bases < share + sum bases)
      × (share < got * sum bases + sum bases)
allocate_cart_discount_fair fr bases d j exact h = elim (allocate-cases fr bases d) [
  | inl (none_left, e) ↦ rw (e, none_left, get_or-replicate (length bases) j) (omega arith)
  | inr (_, _, e) ↦
      let target = min d (sum bases) in
      let n = target * get_or bases j 0 in
      rw e (
        share_bounds _ (n / sum bases) target (get_or bases j 0) (sum bases) (omega arith)
          (grind arith) (grind arith) (get_or-shares fr bases target h exact j))
]

-- The cap alone, also where no line has a base.
pub allocate_cart_discount_capped :
    (fr : Fractions) (bases : List ℕ) (cart_discount : ℕ) (j : ℕ)
    → IsExact bases cart_discount
    → get_or (allocate_cart_discount fr bases cart_discount) j 0 ≤ get_or bases j 0
allocate_cart_discount_capped fr bases d j exact = elim (allocate-cases fr bases d) [
  | inl (none_left, e) ↦ rw (e, get_or-replicate (length bases) j) (omega arith)
  | inr (_, h, e) ↦ (allocate_cart_discount_fair fr bases d j exact h).0
]

pub allocate_cart_discount-zero :
    (fr : Fractions) (bases : List ℕ)
    → allocate_cart_discount fr bases 0 ≡ replicate (length bases) 0
allocate_cart_discount-zero fr bases = elim (allocate-cases fr bases 0) [
  | inl (_, e) ↦ e
  | inr (h, _, _) ↦ absurd (omega arith)
]
