-- ===== src/Tabs/Settle.antt =====
-- What a planned settlement covers, and what it leaves.
use Prim.Native.String.{String}
use valla_pos.Base.{
  ℕ, ◌+◌, ◌≤◌, ◌<◌, ◌≡◌, ◌↔◌, ◌⊎◌, refl, sym, ap, Bool, true, false, some, List, [], ◌∷◌, map,
  length, every, filter, sum_by, ◌==◌, ◌&&◌, if◌then◌else◌, arith,
}
use valla_pos.Tabs.{
  TabLine, line_amount_due, is_unsettled, has_seat, pick_seats, Seats, all, chosen, SettlementError,
  planned, refused, already_settled, nothing_selected, plan_settlement, tab_totals, all_settled,
}

-- Whether a settlement for `seats` is to cover a line.
abbrev pub is_wanted : Seats → TabLine → Bool
is_wanted all l = true
is_wanted (chosen seats) l = has_seat seats l

-- A tab after payment `p` for `seats`: the unsettled lines of those seats carry it.
abbrev pub pay : String → Seats → TabLine → TabLine
pay p seats l =
    if is_unsettled l && is_wanted seats l then record l { settled_by_payment_id = some p } else l

abbrev pub covered : Seats → List TabLine → List TabLine
covered seats lines = filter (is_wanted seats) (filter is_unsettled lines)

abbrev pub due : Bool → TabLine → ℕ
due inclusive l = line_amount_due l inclusive

abbrev unsettled_due : Bool → TabLine → ℕ
unsettled_due inclusive l = if is_unsettled l then line_amount_due l inclusive else 0

remaining-pay :
    (p : String) (seats : Seats) (inclusive : Bool) (lines : List TabLine)
    → sum_by (unsettled_due inclusive) lines
      ≡ sum_by (due inclusive) (covered seats lines)
        + sum_by (unsettled_due inclusive) (map (pay p seats) lines)
unfolding line_amount_due
remaining-pay p seats inclusive [] = refl
remaining-pay p seats inclusive (l ∷ ls) = ground (arith, remaining-pay p seats inclusive ls)

filter-every :
    (seats : Seats) (lines : List TabLine)
    → length (covered seats lines) ≤ length (filter is_unsettled lines)
filter-every seats [] = omega arith
filter-every seats (l ∷ ls) = ground (arith, filter-every seats ls)

closes :
    (p : String) (seats : Seats) (lines : List TabLine)
    → (length (covered seats lines) ≡ length (filter is_unsettled lines))
      ↔ (every (λ l. if is_unsettled l then false else true) (map (pay p seats) lines) ≡ true)
closes p seats [] = (λ e. refl, λ e. refl)
closes p seats (l ∷ ls) = ground (arith, closes p seats ls, filter-every seats ls)

filter-true : (ls : List TabLine) → filter (λ l. true) ls ≡ ls
filter-true [] = refl
filter-true (l ∷ ls) = ap (◌∷◌ l) (filter-true ls)

pub pick_seats-covered :
    (seats : Seats) (lines : List TabLine)
    → pick_seats seats (filter is_unsettled lines) ≡ covered seats lines
unfolding pick_seats
pick_seats-covered all lines = sym (filter-true (filter is_unsettled lines))
pick_seats-covered (chosen ss) lines = refl

covered-nonempty :
    (p : String) (seats : Seats) (lines : List TabLine)
    → 0 < length (covered seats lines)
    → 0 < length (map (pay p seats) lines)
covered-nonempty p seats [] h = h
covered-nonempty p seats (l ∷ ls) h = omega arith

-- A settlement for which some unsettled line is chosen is always planned: it covers exactly the
-- unsettled lines of the chosen seats; what the tab still owes falls by exactly the planned amount
-- once they are paid; and it says that the tab closes exactly when no line is unsettled then.
pub plan_settlement_settles :
    (p : String) (lines : List TabLine) (seats : Seats) (inclusive : Bool)
    → 0 < length (covered seats lines)
    → (ids : List String) × (amount : ℕ) × (closes_tab : Bool) × (plan_settlement lines seats
          inclusive
        ≡ planned ids amount closes_tab)
      × (ids ≡ map (λ (l : TabLine). l.id) (covered seats lines))
      × ((tab_totals lines inclusive).remaining_cents
          ≡ amount + (tab_totals (map (pay p seats) lines) inclusive).remaining_cents)
      × ((closes_tab ≡ true) ↔ (all_settled (map (pay p seats) lines) ≡ true))
unfolding tab_totals plan_settlement all_settled
plan_settlement_settles p lines seats inclusive h =
    let some_left = filter-every seats lines in
    let same = pick_seats-covered seats lines in
    let cs = covered seats lines in
    let more = covered-nonempty p seats lines h in
    (
      map (λ (l : TabLine). l.id) cs,
      sum_by (due inclusive) cs,
      (length cs == length (filter is_unsettled lines)),
      rw same (ground arith),
      refl,
      remaining-pay p seats inclusive lines,
      ground (arith, closes p seats lines),
    )

-- A settlement is refused exactly when it covers no line: as settled already when the tab has no
-- unsettled line, and as selecting nothing when it has some, but none of the chosen seats.
pub plan_settlement_refuses :
    (lines : List TabLine) (seats : Seats) (inclusive : Bool) (e : SettlementError)
    → (plan_settlement lines seats inclusive ≡ refused e) ↔ (
        ((e ≡ already_settled) × (length (filter is_unsettled lines) ≡ 0))
        ⊎ ((e ≡ nothing_selected)
            × (0 < length (filter is_unsettled lines))
            × (length (covered seats lines) ≡ 0)))
unfolding plan_settlement
plan_settlement_refuses lines seats inclusive e =
    let same = pick_seats-covered seats lines in rw same (ground arith)
