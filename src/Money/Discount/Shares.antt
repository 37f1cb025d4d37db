-- ===== src/Money/Discount/Shares.antt =====
-- The shares of the lines and their remainders: each entry belongs to its own line, and there are
-- enough entries with a positive fraction for the cents left over.
use valla_pos.Base.{
  ℕ, zero, suc, ◌+◌, ◌-◌, ◌*◌, ◌≤◌, ◌<◌, ◌≡◌, refl, ap, ◌∙◌, List, [], ◌∷◌, arith, length, get_or,
  sum, All, All-map, min,
}
use native.Mathlib.Decide.{dec_le}
use native.Mathlib.Nat.{mul-le-mul_left}
use valla_pos.Money.Discount.{Fractions, max_exact, Remainder, floors, remainders}
use valla_pos.Money.Discount.Order.{count_pos, count_line}
use valla_pos.Money.Discount.HandOut.{rests, floors-sum, IsWithin}

module _ (fr : Fractions) (target total : ℕ) where
  -- The fraction recorded for a line is that of its own share.
  abbrev pub IsOwn : (ℕ → ℕ) → Remainder → Type 0
  IsOwn base r = r.frac ≡ fr.frac (target * base r.i) total

  pub remainders-IsOwn :
      (base : ℕ → ℕ) (i : ℕ) (bs : List ℕ)
      → ((j : ℕ) → get_or bs j 0 ≡ base (i + j))
      → All (IsOwn base) (remainders fr target total i bs)
  unfolding remainders
  remainders-IsOwn base i [] h = tt
  remainders-IsOwn base i (b ∷ bs) h =
      let here : i + 0 ≡ i = omega arith in
      let head : b ≡ base i = rw here at (h 0) in
      (cc, remainders-IsOwn base (i + 1) bs (λ j. h (suc j) ∙ ap base (omega arith)))

  pub remainders-IsWithin :
      (i n : ℕ) (bs : List ℕ) → i + length bs ≤ n → IsWithin n (remainders fr target total i bs)
  unfolding remainders
  remainders-IsWithin i n [] h = tt
  remainders-IsWithin i n (b ∷ bs) h = (omega arith, remainders-IsWithin (i + 1) n bs (omega arith))

  pub count_line-remainders :
      (j i : ℕ) (bs : List ℕ)
      → (count_line j (remainders fr target total i bs) ≤ 1)
        × (j < i → count_line j (remainders fr target total i bs) ≡ 0)
  unfolding remainders
  count_line-remainders j i [] = (omega arith, λ _. refl)
  count_line-remainders j i (b ∷ bs) = ground (arith, count_line-remainders j (i + 1) bs)

  -- At least as many shares have a fraction as there are cents left over.
  pub rests-le-count_pos :
      (i : ℕ) (bs : List ℕ)
      → 0 < total
      → All (λ b. target * b < max_exact) bs
      → rests target total bs + count_pos (remainders fr target total i bs)
        ≤ total * count_pos (remainders fr target total i bs)
  unfolding remainders
  rests-le-count_pos i [] h small = omega arith
  rests-le-count_pos i (b ∷ bs) h (p, ps) =
      grind (arith, rests-le-count_pos (i + 1) bs h ps, fr.frac_zero (target * b) total p h)

-- The hypothesis under which every dividend of the allocation is exact as a double.
abbrev pub IsExact : List ℕ → ℕ → Type 0
IsExact bases cart_discount = min cart_discount (sum bases) * sum bases < max_exact

All-le-sum : (bs : List ℕ) → All (λ b. b ≤ sum bs) bs
All-le-sum [] = tt
All-le-sum (b ∷ bs) = (
  omega arith,
  All-map (λ x. x ≤ sum bs) (λ x. x ≤ b + sum bs) bs (λ x h. omega arith) (All-le-sum bs),
)

pub get_or-le-sum : (bs : List ℕ) (j : ℕ) → get_or bs j 0 ≤ sum bs
get_or-le-sum [] j = omega arith
get_or-le-sum (b ∷ bs) zero = omega arith
get_or-le-sum (b ∷ bs) (suc j) = omega (arith, get_or-le-sum bs j)

pub leftover_bound :
    (t c s rest total : ℕ)
    → 0 < total
    → total * s + rest ≡ t * total
    → rest + c ≤ total * c
    → (s ≤ t) × (t - s ≤ c)
leftover_bound t c s rest total h e few =
    let below : s ≤ t = elim (dec_le s t) [
      | yes p ↦ p
      | no p ↦
          let more : t + 1 ≤ s = omega arith in absurd (omega (arith, mul-le-mul_left total more))
    ] in
    let enough : t ≤ s + c = elim (dec_le t (s + c)) [
      | yes p ↦ p
      | no p ↦
          let more : s + c + 1 ≤ t = omega arith in
          absurd (omega (arith, mul-le-mul_left total more))
    ] in
    (below, omega arith)

-- What is left over after the floors is covered by the lines with a positive fraction.
pub leftover-le-count_pos :
    (fr : Fractions) (target : ℕ) (bases : List ℕ)
    → 0 < sum bases
    → target * sum bases < max_exact
    → (sum (floors target (sum bases) bases) ≤ target)
      × (target - sum (floors target (sum bases) bases)
          ≤ count_pos (remainders fr target (sum bases) 0 bases))
leftover-le-count_pos fr target bases h small =
    let each =
      All-map (λ b. b ≤ sum bases) (λ b. target * b < max_exact) bases (λ b le. grind arith)
        (All-le-sum bases) in
    leftover_bound target _ _ (rests target (sum bases) bases) (sum bases) h
      (floors-sum target (sum bases) bases h)
      (rests-le-count_pos fr target (sum bases) 0 bases h each)
