-- ===== src/Register/Tender.antt =====
-- The suggested cash amounts of the register (`quickTenderOptions` of src/features/register/tender.ts).
pub mod Options
use valla_pos.Base.{ℕ, ◌+◌, ◌*◌, ◌/◌, Bool, List, [], ◌∷◌, take, ltb, leb, ◌==◌, if◌then◌else◌}
use valla_pos.Base.Sort.{sort_by}

abbrev pub bills : List ℕ
bills = 500 ∷ 1000 ∷ 2000 ∷ 5000 ∷ 10_000 ∷ []

-- `candidates.add(v)`
unfoldable pub add_candidate : ℕ → List ℕ → List ℕ
add_candidate v [] = v ∷ []
add_candidate v (x ∷ xs) = if x == v then x ∷ xs else x ∷ add_candidate v xs

-- The loop over the bills.
unfoldable pub add_bills : ℕ → List ℕ → List ℕ → List ℕ
add_bills total [] candidates = candidates
add_bills total (b ∷ bs) candidates =
    add_bills total bs (if leb total b then add_candidate b candidates else candidates)

-- `Math.ceil(totalCents / 100) * 100`
abbrev pub next_dollar : ℕ → ℕ
next_dollar total = ((total + 99) / 100) * 100

abbrev pub is_more : ℕ → ℕ → Bool
is_more a b = ltb b a

-- `quickTenderOptions`
unfoldable pub quick_tender_options : ℕ → ℕ → List ℕ
quick_tender_options total limit =
    if leb total 0
    then []
    else take limit
        (sort_by is_more (add_bills total bills (add_candidate (next_dollar total) (total ∷ []))))
