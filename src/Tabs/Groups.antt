-- ===== src/Tabs/Groups.antt =====
-- The groups of a tab add up to its totals, and hold the lines of their own seat.
use valla_pos.Base.{
  ℕ, ◌+◌, ◌≡◌, refl, ◌∙◌, Bool, Option, List, [], ◌∷◌, map, sum_by, sum_by-append, arith, inl, inr,
  Bool-cases,
}
use native.Mathlib.Nat.{zero-add}
use valla_pos.Base.Sort.{sum_by-sort_by}
use valla_pos.Tabs.{
  TabLine, SeatGroup, same_seat, add_to_seat, by_seats, seat_group, group_after, group_by_seat,
  tab_totals,
}

-- The sum of a cost over the lines of every entry of the map.
abbrev entry_sum : (TabLine → ℕ) → Option ℕ × List TabLine → ℕ
entry_sum f (seat, ls) = sum_by f ls

add_to_seat-sum :
    (f : TabLine → ℕ) (l : TabLine) (m : List (Option ℕ × List TabLine))
    → sum_by (entry_sum f) (add_to_seat l m) ≡ f l + sum_by (entry_sum f) m
unfolding add_to_seat
add_to_seat-sum f l [] = omega arith
add_to_seat-sum f l ((seat, ls) ∷ m) = elim (Bool-cases (same_seat seat l.seat)) [
  | inl e ↦ rw e (omega (arith, sum_by-append f ls (l ∷ [])))
  | inr e ↦ rw e (omega (arith, add_to_seat-sum f l m))
]

by_seats-sum :
    (f : TabLine → ℕ) (m : List (Option ℕ × List TabLine)) (ls : List TabLine)
    → sum_by (entry_sum f) (by_seats m ls) ≡ sum_by (entry_sum f) m + sum_by f ls
unfolding by_seats
by_seats-sum f m [] = omega arith
by_seats-sum f m (l ∷ ls) =
    omega (arith, by_seats-sum f (add_to_seat l m) ls, add_to_seat-sum f l m)

-- A figure of the groups that is a cost summed over their lines.
sum-groups :
    (inclusive : Bool) (figure : SeatGroup → ℕ) (f : TabLine → ℕ)
    → ((e : Option ℕ × List TabLine) → figure (seat_group inclusive e) ≡ entry_sum f e)
    → (m : List (Option ℕ × List TabLine))
    → sum_by figure (map (seat_group inclusive) m) ≡ sum_by (entry_sum f) m
sum-groups inclusive figure f same [] = refl
sum-groups inclusive figure f same (e ∷ m) =
    omega (arith, same e, sum-groups inclusive figure f same m)

group_by_seat-sum :
    (inclusive : Bool) (figure : SeatGroup → ℕ) (f : TabLine → ℕ)
    → ((e : Option ℕ × List TabLine) → figure (seat_group inclusive e) ≡ entry_sum f e)
    → (lines : List TabLine) → sum_by figure (group_by_seat lines inclusive) ≡ sum_by f lines
unfolding group_by_seat
group_by_seat-sum inclusive figure f same lines =
    sum_by-sort_by group_after figure (map (seat_group inclusive) (by_seats [] lines))
    ∙ sum-groups inclusive figure f same (by_seats [] lines)
    ∙ (by_seats-sum f [] lines ∙ zero-add (sum_by f lines))

-- No cent of a tab is lost or counted twice between its seats: over the groups, the subtotals, taxes,
-- amounts due and unsettled amounts add up to the totals of the tab.
pub group_by_seat-totals :
    (lines : List TabLine) (inclusive : Bool)
    → let gs = group_by_seat lines inclusive in
      let t = tab_totals lines inclusive in
      (sum_by (λ (g : SeatGroup). g.subtotal_cents) gs ≡ t.subtotal_cents)
      × (sum_by (λ (g : SeatGroup). g.tax_cents) gs ≡ t.tax_cents)
      × (sum_by (λ (g : SeatGroup). g.amount_due_cents) gs ≡ t.amount_due_cents)
      × (sum_by (λ (g : SeatGroup). g.unsettled_amount_cents) gs ≡ t.remaining_cents)
unfolding tab_totals seat_group
group_by_seat-totals lines inclusive = (
  group_by_seat-sum inclusive (λ g. g.subtotal_cents) _ (λ e. refl) lines,
  group_by_seat-sum inclusive (λ g. g.tax_cents) _ (λ e. refl) lines,
  group_by_seat-sum inclusive (λ g. g.amount_due_cents) _ (λ e. refl) lines,
  group_by_seat-sum inclusive (λ g. g.unsettled_amount_cents) _ (λ e. refl) lines,
)
