-- ===== src/Orders/Refund/Shares.antt =====
-- The loop of `planPartialRefund` that hands out the leftover cents: it never passes a balance, and it
-- gives out all that is left over.
use Prim.Native.String.{String}
use text.Mathlib.Text.{◌==◌ as str_eq}
use native.Mathlib.Decide.{ℕ_discrete}
use valla_pos.Base.{
  ℕ, zero, suc, ◌+◌, ◌≤◌, ◌≡◌, ◌≢◌, refl, ◌∙◌, true, List, [], ◌∷◌, arith, sum_by, All, ◌==◌,
  if◌then◌else◌, inl, inr, Bool-cases,
}
use valla_pos.Orders.Refund.{Share, ShareRef, has_room, add_cent, give_cents, amount_of}

abbrev pub IsCapped : List Share → Type 0
IsCapped = All (λ (s : Share). s.amount ≤ s.balance)

-- The methods and balances that the loop leaves alone, added up for one method.
abbrev pub balance_of : String → List Share → ℕ
balance_of m = sum_by (λ (s : Share). if str_eq s.method m then s.balance else 0)

add_cent-IsCapped :
    (shares : List Share) (i : ℕ)
    → has_room shares i ≡ true
    → IsCapped shares
    → IsCapped (add_cent shares i)
unfolding has_room add_cent
add_cent-IsCapped [] i r h = cc
add_cent-IsCapped (s ∷ ss) zero r (h, hs) = (ground arith, hs)
add_cent-IsCapped (s ∷ ss) (suc i) r (h, hs) = (h, add_cent-IsCapped ss i r hs)

pub give_cents-IsCapped :
    (rs : List ShareRef) (leftover : ℕ) (shares : List Share)
    → IsCapped shares
    → IsCapped (give_cents rs leftover shares)
unfolding give_cents
give_cents-IsCapped [] l shares h = h
give_cents-IsCapped (r ∷ rs) zero shares h = h
give_cents-IsCapped (r ∷ rs) (suc l) shares h = elim (Bool-cases (has_room shares r.index)) [
  | inl e ↦
      rw (e, give_cents)
        (give_cents-IsCapped rs l (add_cent shares r.index) (add_cent-IsCapped shares r.index e h))
  | inr e ↦ rw (e, give_cents) (give_cents-IsCapped rs (suc l) shares h)
]

balance_of-add_cent :
    (m : String) (shares : List Share) (i : ℕ)
    → balance_of m (add_cent shares i) ≡ balance_of m shares
unfolding add_cent
balance_of-add_cent m [] i = refl
balance_of-add_cent m (s ∷ ss) zero = refl
balance_of-add_cent m (s ∷ ss) (suc i) = omega (arith, balance_of-add_cent m ss i)

pub balance_of-give_cents :
    (m : String) (rs : List ShareRef) (leftover : ℕ) (shares : List Share)
    → balance_of m (give_cents rs leftover shares) ≡ balance_of m shares
unfolding give_cents
balance_of-give_cents m [] l shares = refl
balance_of-give_cents m (r ∷ rs) zero shares = refl
balance_of-give_cents m (r ∷ rs) (suc l) shares = elim (Bool-cases (has_room shares r.index)) [
  | inl e ↦
      rw (e, give_cents)
        (balance_of-give_cents m rs l (add_cent shares r.index)
          ∙ balance_of-add_cent m shares r.index)
  | inr e ↦ rw (e, give_cents) (balance_of-give_cents m rs (suc l) shares)
]

has_room-add_cent :
    (shares : List Share) (i j : ℕ) → i ≢ j → has_room (add_cent shares i) j ≡ has_room shares j
unfolding has_room add_cent
has_room-add_cent [] i j h = refl
has_room-add_cent (s ∷ ss) zero zero h = absurd (h refl)
has_room-add_cent (s ∷ ss) zero (suc j) h = refl
has_room-add_cent (s ∷ ss) (suc i) zero h = refl
has_room-add_cent (s ∷ ss) (suc i) (suc j) h = has_room-add_cent ss i j (omega arith)

sum-add_cent :
    (shares : List Share) (i : ℕ)
    → has_room shares i ≡ true
    → sum_by amount_of (add_cent shares i) ≡ sum_by amount_of shares + 1
unfolding has_room add_cent
sum-add_cent [] i h = cc
sum-add_cent (s ∷ ss) zero h = omega arith
sum-add_cent (s ∷ ss) (suc i) h = omega (arith, sum-add_cent ss i h)

-- How often an index is referred to, and how many references have room.
abbrev pub count_index : ℕ → List ShareRef → ℕ
count_index j = sum_by (λ (r : ShareRef). if r.index == j then 1 else 0)

abbrev pub count_room : List Share → List ShareRef → ℕ
count_room shares = sum_by (λ (r : ShareRef). if has_room shares r.index then 1 else 0)

count_room-add_cent :
    (shares : List Share) (i : ℕ) (rs : List ShareRef)
    → count_index i rs ≡ 0
    → count_room (add_cent shares i) rs ≡ count_room shares rs
count_room-add_cent shares i [] h = refl
count_room-add_cent shares i (r ∷ rs) h = elim (ℕ_discrete r.index i) [
  | yes e ↦ absurd (ground arith)
  | no ne ↦ rw (
    has_room-add_cent shares i r.index (λ e. ne (ground arith)),
    count_room-add_cent shares i rs (ground arith),
  )
]

-- With one reference to each entry, all that is left over is given out if enough entries have room.
pub sum-give_cents :
    (rs : List ShareRef) (leftover : ℕ) (shares : List Share)
    → ((j : ℕ) → count_index j rs ≤ 1)
    → leftover ≤ count_room shares rs
    → sum_by amount_of (give_cents rs leftover shares) ≡ sum_by amount_of shares + leftover
unfolding give_cents
sum-give_cents [] l shares once h = omega arith
sum-give_cents (r ∷ rs) zero shares once h = omega arith
sum-give_cents (r ∷ rs) (suc l) shares once h =
    let later : (j : ℕ) → count_index j rs ≤ 1 = λ j. let o = once j in omega arith in
    elim (Bool-cases (has_room shares r.index)) [
      | inl e ↦
          let head = once r.index in
          let alone : count_index r.index rs ≡ 0 = ground arith in
          let enough : suc l ≤ 1 + count_room shares rs = rw e at h in
          let rest : l ≤ count_room (add_cent shares r.index) rs =
            rw (count_room-add_cent shares r.index rs alone) (omega arith) in
          rw (e, give_cents)
            (omega (
              arith,
              sum-give_cents rs l (add_cent shares r.index) later rest,
              sum-add_cent shares r.index e,
            ))
      | inr e ↦
          let enough : suc l ≤ 0 + count_room shares rs = rw e at h in
          rw (e, give_cents) (sum-give_cents rs (suc l) shares later (omega arith))
    ]
