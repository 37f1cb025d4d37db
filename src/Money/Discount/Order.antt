-- ===== src/Money/Discount/Order.antt =====
-- The sorted remainders: a descending permutation, so that the ones with a positive fraction stand
-- first.
use valla_pos.Base.{
  ℕ, zero, suc, ◌≤◌, ◌<◌, ◌≡◌, refl, List, [], ◌∷◌, arith, take, All, sum_by, ltb, ◌==◌,
  if◌then◌else◌,
}
use valla_pos.Base.Sort.{IsDescending, All-sort_by, sum_by-sort_by, sort_by-IsDescending}
use valla_pos.Money.Discount.{Remainder, behind, sort_remainders}

abbrev pub frac_of : Remainder → ℕ
frac_of r = r.frac

-- How many entries have a positive fraction, and how many stand for the line `j`.
abbrev pub count_pos : List Remainder → ℕ
count_pos = sum_by (λ (r : Remainder). if ltb 0 r.frac then 1 else 0)

abbrev pub count_line : ℕ → List Remainder → ℕ
count_line j = sum_by (λ (r : Remainder). if r.i == j then 1 else 0)

pub All-sort {ℓ} :
    (P : Remainder → Type ℓ) (rs : List Remainder) → All P rs → All P (sort_remainders rs)
unfolding sort_remainders
All-sort = All-sort_by behind

pub sort-IsDescending : (rs : List Remainder) → IsDescending frac_of (sort_remainders rs)
unfolding sort_remainders
sort-IsDescending =
    sort_by-IsDescending behind frac_of (λ x y h. ground arith) (λ x y h. ground arith)

pub count_pos-sort : (rs : List Remainder) → count_pos (sort_remainders rs) ≡ count_pos rs
unfolding sort_remainders
count_pos-sort rs = sum_by-sort_by behind _ rs

pub count_line-sort :
    (j : ℕ) (rs : List Remainder) → count_line j (sort_remainders rs) ≡ count_line j rs
unfolding sort_remainders
count_line-sort j rs = sum_by-sort_by behind _ rs

pub count_line-take : (j n : ℕ) (rs : List Remainder) → count_line j (take n rs) ≤ count_line j rs
count_line-take j zero rs = omega arith
count_line-take j (suc n) [] = omega arith
count_line-take j (suc n) (r ∷ rs) = omega (arith, count_line-take j n rs)

-- In a list whose entries all lie below a fraction of zero, none has a positive one.
count_pos-zero :
    (m : ℕ) (rs : List Remainder)
    → All (λ (s : Remainder). s.frac ≤ m) rs
    → m ≡ 0
    → count_pos rs ≡ 0
count_pos-zero m [] h e = refl
count_pos-zero m (r ∷ rs) (p, ps) e = ground (arith, count_pos-zero m rs ps e)

-- The first `n` entries of a descending list are positive if at least `n` of its entries are.
pub take-positive :
    (n : ℕ) (rs : List Remainder)
    → IsDescending frac_of rs
    → n ≤ count_pos rs
    → All (λ (s : Remainder). 0 < s.frac) (take n rs)
take-positive zero rs d h = tt
take-positive (suc n) [] d h = tt
take-positive (suc n) (r ∷ rs) (below, d) h =
    ground (arith, count_pos-zero r.frac rs below, take-positive n rs d)
