-- ===== src/Money/Discount.antt =====
-- `allocateCartDiscount` (src/lib/money.ts): a cart discount is spread over the lines in proportion
-- to their taxable bases, by the largest-remainder method.
--
-- The program keeps the fractional part of `target * base / total` as a double and sorts by it.
-- `Fractions` stands for that subtraction of doubles: `frac n d` is `n / d - floor(n / d)` in units of
-- 2 ^ -1074, of which every double in [0, 1) is a whole multiple. All that is known of it is the
-- IEEE 754 fact that the fraction is zero exactly when `d` divides `n`, for dividends below 2 ^ 53.
pub mod Order
pub mod HandOut
pub mod Shares
pub mod Extra
pub mod Fair
use valla_pos.Base.Sort.{sort_by}
use valla_pos.Base.{
  ℕ, zero, suc, ◌+◌, ◌-◌, ◌*◌, ◌/◌, ◌%◌, ◌<◌, ◌≡◌, Bool, List, [], ◌∷◌, length, replicate, sum, min,
  ltb, leb, ◌||◌, if◌then◌else◌,
}

abbrev pub max_exact : ℕ
max_exact = 9_007_199_254_740_992

pub record Fractions : Type 0 where
  pub frac : ℕ → ℕ → ℕ
  pub frac_pos : (n d : ℕ) → n < max_exact → 0 < d → 0 < n % d → 0 < frac n d
  pub frac_zero : (n d : ℕ) → n < max_exact → 0 < d → n % d ≡ 0 → frac n d ≡ 0

-- An entry of `remainders`.
pub record Remainder : Type 0 where
  pub i : ℕ
  pub frac : ℕ

-- `alloc[i] = Math.floor((target * bases[i]) / totalBase)`
pub floors : ℕ → ℕ → List ℕ → List ℕ
floors target total [] = []
floors target total (b ∷ bs) = (target * b) / total ∷ floors target total bs

-- `remainders.sort((a, b) => b.frac - a.frac)`
abbrev pub behind : Remainder → Remainder → Bool
behind r s = ltb r.frac s.frac

unfoldable pub sort_remainders : List Remainder → List Remainder
sort_remainders = sort_by behind

-- `alloc[idx] = alloc[idx] + 1`
pub bump : List ℕ → ℕ → List ℕ
bump [] i = []
bump (a ∷ as') zero = (a + 1) ∷ as'
bump (a ∷ as') (suc i) = a ∷ bump as' i

-- The last loop: one cent to each remainder in turn while any is left over.
pub hand_out : List Remainder → ℕ → List ℕ → List ℕ
hand_out [] leftover alloc = alloc
hand_out (r ∷ rs) zero alloc = alloc
hand_out (r ∷ rs) (suc leftover) alloc = hand_out rs leftover (bump alloc r.i)

module _ (fr : Fractions) where
  -- The entries that the first loop pushes, from index `i` on.
  pub remainders : ℕ → ℕ → ℕ → List ℕ → List Remainder
  remainders target total i [] = []
  remainders target total i (b ∷ bs) =
      record { i = i; frac = fr.frac (target * b) total } ∷ remainders target total (i + 1) bs

  unfoldable pub allocate_cart_discount : List ℕ → ℕ → List ℕ
  unfolding floors remainders sort_remainders sort_by hand_out bump
  allocate_cart_discount bases cart_discount =
      let total = sum bases in
      let target = min cart_discount total in
      let alloc = floors target total bases in
      if leb target 0 || leb total 0
      then replicate (length bases) 0
      else hand_out (sort_remainders (remainders target total 0 bases)) (target - sum alloc) alloc
