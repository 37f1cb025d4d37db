-- ===== src/Register/Tender/Options.antt =====
-- What the suggested cash amounts are.
use valla_pos.Base.{
  ℕ, zero, suc, ◌≤◌, ◌<◌, ◌≡◌, refl, false, List, [], ◌∷◌, take, length, All, All-take, leb, ◌==◌,
  arith, inl, inr, Bool-cases,
}
use valla_pos.Base.Sort.{insert_by, sort_by, All-sort_by}
use valla_pos.Register.Tender.{
  bills, add_candidate, add_bills, next_dollar, is_more, quick_tender_options,
}

-- The exact total, and then amounts above it.
abbrev Above : ℕ → List ℕ → Type 0
Above total xs = All (λ x. total < x) xs

add_keeps :
    (total v : ℕ) (xs : List ℕ) → total < v → Above total xs → Above total (add_candidate v xs)
unfolding add_candidate
add_keeps total v [] h a = (h, tt)
add_keeps total v (x ∷ xs) h (b, a) = elim (Bool-cases (x == v)) [
  | inl e ↦ rw e (b, a)
  | inr e ↦ rw e (b, add_keeps total v xs h a)
]

add_first :
    (total v : ℕ) (xs : List ℕ)
    → total ≤ v
    → Above total xs
    → (ys : List ℕ) × (add_candidate v (total ∷ xs) ≡ total ∷ ys) × Above total ys
unfolding add_candidate
add_first total v xs h a = elim (Bool-cases (total == v)) [
  | inl e ↦ (xs, rw e refl, a)
  | inr e ↦ (add_candidate v xs, rw e refl, add_keeps total v xs (ground arith) a)
]

bills-first :
    (total : ℕ) (bs xs : List ℕ)
    → Above total xs
    → (ys : List ℕ) × (add_bills total bs (total ∷ xs) ≡ total ∷ ys) × Above total ys
unfolding add_bills
bills-first total [] xs a = (xs, refl, a)
bills-first total (b ∷ bs) xs a = elim (Bool-cases (leb total b)) [
  | inl e ↦
      let (ys, eq, above) = add_first total b xs (ground arith) a in
      rw (e, eq) (bills-first total bs ys above)
  | inr e ↦ rw e (bills-first total bs xs a)
]

sort-first :
    (total : ℕ) (ys : List ℕ)
    → Above total ys
    → sort_by is_more (total ∷ ys) ≡ total ∷ sort_by is_more ys
unfolding sort_by
sort-first total ys a = put (sort_by is_more ys) (All-sort_by is_more (λ x. total < x) ys a)
  where
    put : (zs : List ℕ) → Above total zs → insert_by is_more total zs ≡ total ∷ zs
    put [] b = refl
    put (z ∷ zs) (b, bs) = ground arith

length-take : (n : ℕ) (xs : List ℕ) → length (take n xs) ≤ n
length-take zero xs = omega arith
length-take (suc n) [] = omega arith
length-take (suc n) (x ∷ xs) = omega (arith, length-take n xs)

-- For a positive total the first suggestion is always the exact total, every other one is above it,
-- and there are no more than the limit.
pub quick_tender_options_lem :
    (total limit : ℕ)
    → 0 < total
    → (rest : List ℕ) × (quick_tender_options total (suc limit) ≡ total ∷ rest)
      × All (λ x. total < x) rest
      × (length rest ≤ limit)
unfolding quick_tender_options
quick_tender_options_lem total limit h =
    let up : total ≤ next_dollar total = omega arith in
    let (xs, first, a) = add_first total (next_dollar total) [] up tt in
    let (ys, eq, above) = bills-first total bills xs a in
    let some_due : leb total 0 ≡ false = ground arith in
    (
      take limit (sort_by is_more ys),
      rw (some_due, first, eq, sort-first total ys above) refl,
      All-take (λ x. total < x) limit _ (All-sort_by is_more (λ x. total < x) ys above),
      length-take limit (sort_by is_more ys),
    )
