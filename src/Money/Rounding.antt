-- ===== src/Money/Rounding.antt =====
-- What the rounded rates of Money guarantee (`roundCents`, `taxOf`, `embeddedTaxOf`).
use valla_pos.Base.{ℕ, ◌+◌, ◌-◌, ◌*◌, ◌≤◌, ◌<◌, ◌≡◌, arith}
use native.Mathlib.Decide.{dec_le}
use native.Mathlib.Nat.{mul-le-mul_left, mul-le-mul_right}
use valla_pos.Money.{round_div, tax_of, embedded_tax_of}

pub round_div_bounds :
    (n d : ℕ)
    → 0 < d
    → (2 * (round_div n d * d) ≤ 2 * n + d) × (2 * n < 2 * (round_div n d * d) + d)
unfolding round_div
round_div_bounds n d h = grind arith

pub round_div_mono : (n m d : ℕ) → 0 < d → n ≤ m → round_div n d ≤ round_div m d
unfolding round_div
round_div_mono n m d h le = grind arith

-- A rounded quotient of `b * k` by `d` is at most `b` when `k` is at most `d`.
pub round_div-le : (b k d : ℕ) → 0 < d → k ≤ d → round_div (b * k) d ≤ b
unfolding round_div
round_div-le b k d h le = grind arith

-- The tax is the whole cent nearest to the exact value `base * rate / 10000`, and a tie goes up.
pub tax_of_nearest :
    (base rate : ℕ)
    → (tax_of base rate * 10_000 ≤ base * rate + 5000)
      × (base * rate < tax_of base rate * 10_000 + 5000)
unfolding tax_of round_div
tax_of_nearest base rate = omega arith

-- A smaller taxable base never carries a larger tax.
pub tax_of_mono : (a b rate : ℕ) → a ≤ b → tax_of a rate ≤ tax_of b rate
unfolding tax_of
tax_of_mono a b rate h = round_div_mono (a * rate) (b * rate) 10_000 (omega arith) (grind arith)

pub tax_of-le : (base rate : ℕ) → rate ≤ 10_000 → tax_of base rate ≤ base
unfolding tax_of
tax_of-le base rate h = round_div-le base rate 10_000 (omega arith) h

-- The tax embedded in a price never exceeds the price.
pub embedded_tax_of-le : (base rate : ℕ) → embedded_tax_of base rate ≤ base
unfolding embedded_tax_of
embedded_tax_of-le base rate = omega arith

-- A rounded share at a rate of at most one grows no faster than the amount.
round_div-add : (a e k d : ℕ) → 0 < d → k ≤ d → round_div ((a + e) * k) d ≤ round_div (a * k) d + e
round_div-add a e k d h le =
    let x = round_div ((a + e) * k) d in
    let y = round_div (a * k) d in
    elim (dec_le x (y + e)) [
      | yes p ↦ p
      | no p ↦
          let more : y + e + 1 ≤ x = omega arith in
          absurd (
            omega (
              arith,
              mul-le-mul_right d more,
              mul-le-mul_left e le,
              (round_div_bounds ((a + e) * k) d h).0,
              (round_div_bounds (a * k) d h).1,
            ))
    ]

pub round_div_step :
    (a b k d : ℕ) → 0 < d → k ≤ d → a ≤ b → round_div (b * k) d + a ≤ round_div (a * k) d + b
round_div_step a b k d h le ab =
    let e : a + (b - a) ≡ b = omega arith in
    let grown : round_div (b * k) d ≤ round_div (a * k) d + (b - a) =
      rw e at (round_div-add a (b - a) k d h le) in
    omega arith

-- A smaller price never has a larger tax embedded in it.
pub embedded_tax_of_mono : (a b rate : ℕ) → a ≤ b → embedded_tax_of a rate ≤ embedded_tax_of b rate
unfolding embedded_tax_of
embedded_tax_of_mono a b rate h =
    let d = 10_000 + rate in
    omega (
      arith,
      round_div_step a b 10_000 d (omega arith) (omega arith) h,
      round_div-le a 10_000 d (omega arith) (omega arith),
    )

-- Price a net amount exclusive of tax and add the tax on top: the tax that is then found embedded in
-- the gross price is the same tax, at every rate.
pub embedded_tax_of-add-tax_of :
    (net rate : ℕ) → embedded_tax_of (net + tax_of net rate) rate ≡ tax_of net rate
unfolding embedded_tax_of
embedded_tax_of-add-tax_of net rate =
    let gross = (net + tax_of net rate) * 10_000 in
    let d = 10_000 + rate in
    let same : round_div gross d ≡ net =
      grind (arith, round_div_bounds gross d (omega arith), tax_of_nearest net rate) in
    omega (arith, same)

-- At rates up to 100% the tax embedded in a price differs from the exclusive tax on the net part of
-- that price by at most one cent.
pub tax_of-net-near :
    (base rate : ℕ)
    → rate ≤ 10_000
    → let tax = embedded_tax_of base rate in
      (tax_of (base - tax) rate ≤ tax + 1) × (tax ≤ tax_of (base - tax) rate + 1)
unfolding embedded_tax_of
tax_of-net-near base rate h =
    let n = round_div (base * 10_000) (10_000 + rate) in
    let kept : n ≤ base = round_div-le base 10_000 (10_000 + rate) (omega arith) (omega arith) in
    let net : base - (base - n) ≡ n = omega arith in
    rw net (
      grind (
        arith,
        round_div_bounds (base * 10_000) (10_000 + rate) (omega arith),
        tax_of_nearest n rate,
      ))
