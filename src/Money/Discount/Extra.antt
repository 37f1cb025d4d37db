-- ===== src/Money/Discount/Extra.antt =====
-- The cents that are handed out go to lines whose share is not whole, one at most to each.
use native.Mathlib.Decide.{ℕ_discrete}
use valla_pos.Base.{
  ℕ, ◌+◌, ◌-◌, ◌*◌, ◌/◌, ◌%◌, ◌≤◌, ◌<◌, ◌≡◌, ap, ◌∙◌, List, [], ◌∷◌, arith, length, get_or, take,
  sum, All, All-take, ◌⊎◌,
}
use native.Mathlib.Nat.{mul-le-mul_left}
use valla_pos.Money.Discount.{
  Fractions, max_exact, Remainder, floors, sort_remainders, hand_out, remainders,
}
use valla_pos.Money.Discount.Order.{
  count_pos, count_line, All-sort, sort-IsDescending, count_pos-sort, count_line-sort,
  count_line-take, take-positive,
}
use valla_pos.Money.Discount.HandOut.{
  length-floors, get_or-floors, IsWithin, hand_out_lem, sum-hand_out,
}
use valla_pos.Money.Discount.Shares.{
  IsOwn, remainders-IsOwn, remainders-IsWithin, count_line-remainders, get_or-le-sum,
  leftover-le-count_pos,
}

-- A line that gets an extra cent has a positive fraction.
extra-positive :
    (fr : Fractions) (target total : ℕ) (base : ℕ → ℕ) (j : ℕ) (rs : List Remainder)
    → All (λ (r : Remainder). 0 < r.frac) rs
    → All (IsOwn fr target total base) rs
    → 0 < count_line j rs
    → 0 < fr.frac (target * base j) total
extra-positive fr target total base j [] p own h = elim h [ ]
extra-positive fr target total base j (r ∷ rs) (p, ps) (own, owns) h = elim (ℕ_discrete r.i j) [
  | yes e ↦ let mine : r.frac ≡ fr.frac (target * base j) total = rw (← e) own in rw (← mine) p
  | no ne ↦ extra-positive fr target total base j rs ps owns (ground arith)
]

module _ (fr : Fractions) (bases : List ℕ) (target : ℕ) where
  abbrev total : ℕ
  total = sum bases

  abbrev pub leftover : ℕ
  leftover = target - sum (floors target total bases)

  abbrev pub sorted : List Remainder
  sorted = sort_remainders (remainders fr target total 0 bases)

  abbrev pub shares : List ℕ
  shares = hand_out sorted leftover (floors target total bases)

  pub sorted-IsWithin : IsWithin (length (floors target total bases)) sorted
  sorted-IsWithin =
      All-sort (λ (r : Remainder). r.i < length (floors target total bases)) _
        (remainders-IsWithin fr target total 0 _ bases
          (omega (arith, length-floors target total bases)))

module _ (fr : Fractions) (bases : List ℕ) (target : ℕ) (h : 0 < sum bases)
    (small : target * sum bases < max_exact) where
  sorted-enough : leftover fr bases target ≤ count_pos (sorted fr bases target)
  sorted-enough = omega (
    arith,
    count_pos-sort (remainders fr target (sum bases) 0 bases),
    leftover-le-count_pos fr target bases h small,
  )

  pub sum-shares : sum (shares fr bases target) ≡ target
  sum-shares = omega (
    arith,
    sum-hand_out (sorted fr bases target) (leftover fr bases target)
        (floors target (sum bases) bases) (sorted-IsWithin fr bases target) sorted-enough,
    leftover-le-count_pos fr target bases h small,
  )

  extra : ℕ → ℕ
  extra j = count_line j (take (leftover fr bases target) (sorted fr bases target))

  extra-le-one : (j : ℕ) → extra j ≤ 1
  unfolding extra
  extra-le-one j =
      let all = remainders fr target (sum bases) 0 bases in
      omega (
        arith,
        count_line-take j (leftover fr bases target) (sort_remainders all),
        count_line-sort j all,
        (count_line-remainders fr target (sum bases) j 0 bases).0,
      )

  extra-fraction : (j : ℕ) → 0 < extra j → 0 < fr.frac (target * get_or bases j 0) (sum bases)
  unfolding extra
  extra-fraction j =
      let n = leftover fr bases target in
      let ss = sorted fr bases target in
      let base = λ (k : ℕ). get_or bases k 0 in
      extra-positive fr target (sum bases) base j (take n ss)
        (take-positive n ss (sort-IsDescending (remainders fr target (sum bases) 0 bases))
          sorted-enough)
        (All-take (IsOwn fr target (sum bases) base) n ss (
          All-sort (IsOwn fr target (sum bases) base) (remainders fr target (sum bases) 0 bases)
            (remainders-IsOwn fr target (sum bases) base 0 bases (λ k. ap base (omega arith)))))

  dividend-lt : (j : ℕ) → target * get_or bases j 0 < max_exact
  dividend-lt j = omega (arith, mul-le-mul_left target (get_or-le-sum bases j))

  extra-rest : (j : ℕ) → 0 < extra j → 0 < (target * get_or bases j 0) % sum bases
  extra-rest j e = ground (
    arith,
    extra-fraction j e,
    fr.frac_zero (target * get_or bases j 0) (sum bases) (dividend-lt j) h,
  )

  -- Each line gets the floor of its share, or one cent more where the share is not whole.
  pub get_or-shares :
      (j : ℕ)
      → let floor = (target * get_or bases j 0) / sum bases in
        (get_or (shares fr bases target) j 0 ≡ floor)
        ⊎ ((get_or (shares fr bases target) j 0 ≡ floor + 1)
            × (floor * sum bases < target * get_or bases j 0))
  get_or-shares j =
      let got : get_or (shares fr bases target) j 0
          ≡ (target * get_or bases j 0) / sum bases + extra j =
        unfold extra in
        (hand_out_lem (sorted fr bases target) (leftover fr bases target)
            (floors target (sum bases) bases) j (sorted-IsWithin fr bases target)
          ∙ ap (λ f. f + extra j) (get_or-floors target (sum bases) bases j h)) in
      grind (arith, extra-le-one j, extra-rest j)
