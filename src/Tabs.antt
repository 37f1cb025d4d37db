-- ===== src/Tabs.antt =====
-- Open tabs and split checks (src/features/tabs/tab-math.ts). A seat of `none` is the shared group.
pub mod Settle
pub mod Groups
pub mod Edits
pub mod Actions
pub mod Tests
use Prim.Native.String.{String}
use valla_pos.Base.{
  ℕ, ◌+◌, Bool, true, false, Option, none, some, List, [], ◌∷◌, ◌++◌, map, length, filter, every,
  sum_by, any, ltb, ◌==◌, ◌&&◌, if◌then◌else◌,
}
use valla_pos.Base.Sort.{sort_by}

pub record TabLine : Type 0 where
  pub id : String
  pub seat : Option ℕ
  pub total_cents : ℕ
  pub tax_cents : ℕ
  pub settled_by_payment_id : Option String

-- `lineAmountDue`
unfoldable pub line_amount_due : TabLine → Bool → ℕ
line_amount_due line tax_inclusive =
    line.total_cents + (if tax_inclusive then 0 else line.tax_cents)

pub record SeatGroup : Type 0 where
  pub seat : Option ℕ
  pub lines : List TabLine
  pub subtotal_cents : ℕ
  pub tax_cents : ℕ
  pub amount_due_cents : ℕ
  pub settled : Bool
  pub unsettled_amount_cents : ℕ

abbrev pub is_unsettled : TabLine → Bool
is_unsettled l = elim l.settled_by_payment_id [ none ↦ true | some p ↦ false ]

-- `seatSortKey(a) - seatSortKey(b) > 0`, for seats below `Number.MAX_SAFE_INTEGER`.
unfoldable pub seat_after : Option ℕ → Option ℕ → Bool
seat_after none none = false
seat_after none (some n) = true
seat_after (some m) none = false
seat_after (some m) (some n) = ltb n m

-- The keys of a `Map` compare as values.
unfoldable pub same_seat : Option ℕ → Option ℕ → Bool
same_seat none none = true
same_seat (some m) (some n) = m == n
same_seat _ _ = false

-- `bySeat.set(line.seat, [...(bySeat.get(line.seat) ?? []), line])`, the map in insertion order.
unfoldable pub add_to_seat :
    TabLine → List (Option ℕ × List TabLine) → List (Option ℕ × List TabLine)
add_to_seat l [] = (l.seat, l ∷ []) ∷ []
add_to_seat l ((seat, ls) ∷ by_seat) =
    if same_seat seat l.seat
    then (seat, ls ++ l ∷ []) ∷ by_seat
    else (seat, ls) ∷ add_to_seat l by_seat

unfoldable pub by_seats :
    List (Option ℕ × List TabLine) → List TabLine → List (Option ℕ × List TabLine)
by_seats by_seat [] = by_seat
by_seats by_seat (l ∷ ls) = by_seats (add_to_seat l by_seat) ls

-- The sums over the lines of one seat.
unfoldable pub seat_group : Bool → Option ℕ × List TabLine → SeatGroup
seat_group tax_inclusive (seat, ls) = record {
  seat = seat;
  lines = ls;
  subtotal_cents = sum_by (λ (l : TabLine). l.total_cents) ls;
  tax_cents = sum_by (λ (l : TabLine). l.tax_cents) ls;
  amount_due_cents = sum_by (λ l. line_amount_due l tax_inclusive) ls;
  settled = every (λ l. if is_unsettled l then false else true) ls;
  unsettled_amount_cents =
      sum_by (λ l. if is_unsettled l then line_amount_due l tax_inclusive else 0) ls;
}

abbrev pub group_after : SeatGroup → SeatGroup → Bool
group_after a b = seat_after a.seat b.seat

-- `groupBySeat`
unfoldable pub group_by_seat : List TabLine → Bool → List SeatGroup
group_by_seat lines tax_inclusive =
    sort_by group_after (map (seat_group tax_inclusive) (by_seats [] lines))

pub record TabTotals : Type 0 where
  pub subtotal_cents : ℕ
  pub tax_cents : ℕ
  pub amount_due_cents : ℕ
  pub remaining_cents : ℕ

-- `tabTotals`
unfoldable pub tab_totals : List TabLine → Bool → TabTotals
tab_totals lines tax_inclusive = record {
  subtotal_cents = sum_by (λ (l : TabLine). l.total_cents) lines;
  tax_cents = sum_by (λ (l : TabLine). l.tax_cents) lines;
  amount_due_cents = sum_by (λ l. line_amount_due l tax_inclusive) lines;
  remaining_cents =
      sum_by (λ l. if is_unsettled l then line_amount_due l tax_inclusive else 0) lines;
}

-- `allSettled`
unfoldable pub all_settled : List TabLine → Bool
all_settled lines =
    ltb 0 (length lines) && every (λ l. if is_unsettled l then false else true) lines

-- `opts.seats`
pub data Seats : Type 0 where
  all : Seats
  chosen : List (Option ℕ) → Seats

-- The messages of `SettlementError`.
pub data SettlementError : Type 0 where
  already_settled nothing_selected : SettlementError

pub data SettlementPlan : Type 0 where
  planned : List String → ℕ → Bool → SettlementPlan
  refused : SettlementError → SettlementPlan

-- `wanted.has(l.seat)`
abbrev pub has_seat : List (Option ℕ) → TabLine → Bool
has_seat seats l = any (λ s. same_seat s l.seat) seats

-- The lines that are covered, of the unsettled ones.
unfoldable pub pick_seats : Seats → List TabLine → List TabLine
pick_seats all unsettled = unsettled
pick_seats (chosen seats) unsettled = filter (has_seat seats) unsettled

-- `planSettlement`; a thrown error is `refused`.
unfoldable pub plan_settlement : List TabLine → Seats → Bool → SettlementPlan
plan_settlement lines seats tax_inclusive =
    let unsettled = filter is_unsettled lines in
    let covered = pick_seats seats unsettled in
    if length unsettled == 0
    then refused already_settled
    else if length covered == 0
    then refused nothing_selected
    else planned (map (λ (l : TabLine). l.id) covered)
        (sum_by (λ l. line_amount_due l tax_inclusive) covered) (length covered == length unsettled)
