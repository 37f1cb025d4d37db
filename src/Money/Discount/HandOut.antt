-- ===== src/Money/Discount/HandOut.antt =====
-- The two loops of the allocation: the floors of the exact shares, and the cents handed out.
use valla_pos.Base.{
  ℕ, zero, suc, ◌+◌, ◌*◌, ◌/◌, ◌%◌, ◌≤◌, ◌<◌, ◌≡◌, refl, List, [], ◌∷◌, arith, length, get_or, take,
  sum, All, ◌==◌, if◌then◌else◌,
}
use valla_pos.Money.Discount.{Remainder, floors, bump, hand_out}
use valla_pos.Money.Discount.Order.{count_pos, count_line}

-- The exact remainders of the divisions.
abbrev pub rests : ℕ → ℕ → List ℕ → ℕ
rests target total [] = 0
rests target total (b ∷ bs) = (target * b) % total + rests target total bs

pub floors-sum :
    (target total : ℕ) (bs : List ℕ)
    → 0 < total
    → total * sum (floors target total bs) + rests target total bs ≡ target * sum bs
unfolding floors
floors-sum target total [] h = omega arith
floors-sum target total (b ∷ bs) h = grind (arith, floors-sum target total bs h)

pub length-floors : (target total : ℕ) (bs : List ℕ) → length (floors target total bs) ≡ length bs
unfolding floors
length-floors target total [] = refl
length-floors target total (b ∷ bs) = omega (arith, length-floors target total bs)

pub get_or-floors :
    (target total : ℕ) (bs : List ℕ) (j : ℕ)
    → 0 < total
    → get_or (floors target total bs) j 0 ≡ (target * get_or bs j 0) / total
unfolding floors
get_or-floors target total [] j h = grind arith
get_or-floors target total (b ∷ bs) zero h = refl
get_or-floors target total (b ∷ bs) (suc j) h = get_or-floors target total bs j h

get_or-bump :
    (alloc : List ℕ) (i j : ℕ)
    → i < length alloc
    → get_or (bump alloc i) j 0 ≡ get_or alloc j 0 + (if i == j then 1 else 0)
unfolding bump
get_or-bump [] i j h = elim h [ ]
get_or-bump (a ∷ as') zero zero h = ground arith
get_or-bump (a ∷ as') zero (suc j) h = ground arith
get_or-bump (a ∷ as') (suc i) zero h = ground arith
get_or-bump (a ∷ as') (suc i) (suc j) h = ground (arith, get_or-bump as' i j)

length-bump : (alloc : List ℕ) (i : ℕ) → length (bump alloc i) ≡ length alloc
unfolding bump
length-bump [] i = refl
length-bump (a ∷ as') zero = refl
length-bump (a ∷ as') (suc i) = omega (arith, length-bump as' i)

sum-bump : (alloc : List ℕ) (i : ℕ) → i < length alloc → sum (bump alloc i) ≡ sum alloc + 1
unfolding bump
sum-bump [] i h = elim h [ ]
sum-bump (a ∷ as') zero h = omega arith
sum-bump (a ∷ as') (suc i) h = omega (arith, sum-bump as' i (omega arith))

abbrev pub IsWithin : ℕ → List Remainder → Type 0
IsWithin n = All (λ (r : Remainder). r.i < n)

-- `hand_out` gives one cent to each of the first `leftover` entries.
pub hand_out_lem :
    (rs : List Remainder) (leftover : ℕ) (alloc : List ℕ) (j : ℕ)
    → IsWithin (length alloc) rs
    → get_or (hand_out rs leftover alloc) j 0 ≡ get_or alloc j 0 + count_line j (take leftover rs)
unfolding hand_out
hand_out_lem [] zero alloc j h = omega arith
hand_out_lem [] (suc l) alloc j h = omega arith
hand_out_lem (r ∷ rs) zero alloc j h = omega arith
hand_out_lem (r ∷ rs) (suc l) alloc j (p, ps) = ground (
  arith,
  hand_out_lem rs l (bump alloc r.i) j (rw (length-bump alloc r.i) ps),
  get_or-bump alloc r.i j p,
)

pub length-hand_out :
    (rs : List Remainder) (leftover : ℕ) (alloc : List ℕ)
    → length (hand_out rs leftover alloc) ≡ length alloc
unfolding hand_out
length-hand_out [] l alloc = refl
length-hand_out (r ∷ rs) zero alloc = refl
length-hand_out (r ∷ rs) (suc l) alloc =
    omega (arith, length-hand_out rs l (bump alloc r.i), length-bump alloc r.i)

pub sum-hand_out :
    (rs : List Remainder) (leftover : ℕ) (alloc : List ℕ)
    → IsWithin (length alloc) rs
    → leftover ≤ count_pos rs
    → sum (hand_out rs leftover alloc) ≡ sum alloc + leftover
unfolding hand_out
sum-hand_out [] l alloc h e = omega arith
sum-hand_out (r ∷ rs) zero alloc h e = omega arith
sum-hand_out (r ∷ rs) (suc l) alloc (p, ps) e = ground (
  arith,
  sum-hand_out rs l (bump alloc r.i) (rw (length-bump alloc r.i) ps),
  sum-bump alloc r.i p,
)
