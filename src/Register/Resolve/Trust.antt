-- ===== src/Register/Resolve/Trust.antt =====
-- How far the price of a quote is trusted.
use valla_pos.Base.{
  ℕ, ◌/◌, ◌≤◌, ◌<◌, ◌≡◌, Option, none, some, ◌⊎◌, inl, inr, Bool-cases, leb, ltb, arith, refl,
}
use valla_pos.Register.Resolve.{floor_trust, trusted}

-- The amount for a quote that may be missing: the catalog's, or the quote, which then is at least half
-- of the catalog's amount, or the catalog's where the quote lies below that.
abbrev pub IsTrusted : Option ℕ → ℕ → ℕ → Type 0
IsTrusted none catalog amount = amount ≡ catalog
IsTrusted (some quote) catalog amount =
    ((amount ≡ quote) × (catalog / 2 ≤ quote)) ⊎ ((amount ≡ catalog) × (quote < catalog / 2))

pub trusted-IsTrusted :
    (quote : Option ℕ) (catalog : ℕ) → IsTrusted quote catalog (trusted quote catalog).0
unfolding trusted floor_trust
trusted-IsTrusted none catalog = refl
trusted-IsTrusted (some q) catalog = elim (Bool-cases (leb catalog 0)) [
  | inl e ↦ inl (ground arith, ground arith)
  | inr e ↦ elim (Bool-cases (ltb q (catalog / 2))) [
    | inl f ↦ inr (ground arith, ground arith)
    | inr f ↦ inl (ground arith, ground arith)
  ]
]
