-- ===== src/Drawer/Sessions/Cash.antt =====
-- The cash of a drawer session.
use valla_pos.Base.{
  ℕ, ◌≤◌, ◌≡◌, ◌⊎◌, ap, ◌∙◌, true, false, List, [], ◌∷◌, inl, inr, Bool-cases, arith,
}
use valla_pos.Base.Int.{ℤ, pos, ◌+ℤ◌, int_laws}
use valla_pos.Drawer.Sessions.{DrawerPayment, is_collected, cash_collected_since}

in_first : (v x y : ℤ) → (v +ℤ x) +ℤ (pos 0 +ℤ y) ≡ v +ℤ (x +ℤ y)
in_first v x y = omega int_laws

in_second : (v x y : ℤ) → (pos 0 +ℤ x) +ℤ (v +ℤ y) ≡ v +ℤ (x +ℤ y)
in_second v x y = omega int_laws

-- A payment is in one of two adjacent windows just if it is in both together, and never in both.
windows :
    (a b c : ℕ) (p : DrawerPayment)
    → a ≤ b
    → b ≤ c
    → ((is_collected a b p ≡ true) × (is_collected b c p ≡ false) × (is_collected a c p ≡ true))
      ⊎ (((is_collected a b p ≡ false) × (is_collected b c p ≡ true) × (is_collected a c p ≡ true))
          ⊎ ((is_collected a b p ≡ false)
              × (is_collected b c p ≡ false)
              × (is_collected a c p ≡ false)))
windows a b c p ab bc = elim (Bool-cases (is_collected a b p)) [
  | inl e ↦ inl (e, ground arith, ground arith)
  | inr e ↦ elim (Bool-cases (is_collected b c p)) [
    | inl f ↦ inr (inl (e, f, ground arith))
    | inr f ↦ inr (inr (e, f, ground arith))
  ]
]

-- The cash of a session that is handed over is neither lost nor counted twice: for three times in
-- order, what was collected from the first to the second and from the second to the third is what
-- was collected from the first to the third.
pub cash_collected_since-split :
    (a b c : ℕ) (ps : List DrawerPayment)
    → a ≤ b
    → b ≤ c
    → cash_collected_since a b ps +ℤ cash_collected_since b c ps ≡ cash_collected_since a c ps
unfolding cash_collected_since
cash_collected_since-split a b c [] ab bc = omega int_laws
cash_collected_since-split a b c (p ∷ ps) ab bc =
    let rest = cash_collected_since-split a b c ps ab bc in
    elim (windows a b c p ab bc) [
      | inl (x, y, z) ↦
          rw (x, y, z)
            (in_first p.amount_cents (cash_collected_since a b ps) (cash_collected_since b c ps)
              ∙ ap (p.amount_cents +ℤ◌) rest)
      | inr (inl (x, y, z)) ↦
          rw (x, y, z)
            (in_second p.amount_cents (cash_collected_since a b ps) (cash_collected_since b c ps)
              ∙ ap (p.amount_cents +ℤ◌) rest)
      | inr (inr (x, y, z)) ↦
          rw (x, y, z)
            (in_first (pos 0) (cash_collected_since a b ps) (cash_collected_since b c ps)
              ∙ ap (pos 0 +ℤ◌) rest)
    ]
