-- ===== src/Tabs/Edits/Balance.antt =====
-- The money taken for a tab is what its settled lines come to.
use Prim.Native.String.{String}
use text.Mathlib.Text.{◌==◌ as str_eq}
use text.Mathlib.TextEquality.{eq_iff}
use valla_pos.Base.{
  ℕ, ◌+◌, ◌≤◌, ◌≡◌, refl, sym, Bool, true, false, none, some, List, [], ◌∷◌, map, filter, any,
  length, sum_by, All, inl, inr, ◌⊎◌, Bool-cases, length-map, ◌&&◌, if◌then◌else◌, arith, ◌==◌,
}
use valla_pos.Tabs.{TabLine, Seats, line_amount_due, is_unsettled}
use valla_pos.Tabs.Settle.{is_wanted, covered, due}
use valla_pos.Tabs.Edits.{
  Tab, TabRow, TabPayment, recompute_order_totals, is_due, settle_row, settled_tab,
  settle_lines_step,
}

-- What a line adds to the settled money.
abbrev pub settled_due : Bool → TabRow → ℕ
settled_due inclusive r = if is_unsettled r.line then 0 else line_amount_due r.line inclusive

-- All payments together are the settled lines and the tips.
abbrev pub IsBalanced : Bool → Tab → Type 0
IsBalanced inclusive t =
    sum_by (λ (p : TabPayment). p.amount_cents) t.payments
    ≡ sum_by (settled_due inclusive) t.lines + t.tip_cents

-- What an update that settles these ids adds for a line.
abbrev pub newly_due : Bool → List String → TabRow → ℕ
newly_due inclusive ids r = if is_due ids r then line_amount_due r.line inclusive else 0

pub settled-after :
    (inclusive : Bool) (payment_id : String) (ids : List String) (rows : List TabRow)
    → sum_by (settled_due inclusive) (map (settle_row payment_id ids) rows)
      ≡ sum_by (settled_due inclusive) rows + sum_by (newly_due inclusive ids) rows
unfolding line_amount_due
settled-after inclusive payment_id ids [] = refl
settled-after inclusive payment_id ids (r ∷ rs) =
    ground (arith, settled-after inclusive payment_id ids rs)

-- Ids of lines are their own.
abbrev pub IsDistinct : List TabLine → Type 0
IsDistinct [] = Unit
IsDistinct (l ∷ ls) = All (λ (k : TabLine). str_eq k.id l.id ≡ false) ls × IsDistinct ls

abbrev pub in_ids : List String → TabLine → Bool
in_ids ids l = any (str_eq l.id) ids

abbrev pub ids_of : List TabLine → List String
ids_of = map (λ (l : TabLine). l.id)

abbrev is_planned : Seats → TabLine → Bool
is_planned seats l = is_unsettled l && is_wanted seats l

eq-sym : (a b : String) → str_eq a b ≡ false → str_eq b a ≡ false
eq-sym a b h = elim (Bool-cases (str_eq b a)) [
  | inr e ↦ e
  | inl e ↦
      let same : b ≡ a = (eq_iff b a).0 e in
      let here : str_eq a b ≡ true = (eq_iff a b).1 (sym same) in absurd (cc)
]

foreign-ids :
    (seats : Seats) (l : TabLine) (ls : List TabLine)
    → All (λ (k : TabLine). str_eq k.id l.id ≡ false) ls
    → in_ids (ids_of (covered seats ls)) l ≡ false
foreign-ids seats l [] h = refl
foreign-ids seats l (k ∷ ks) (apart, more) =
    ground (arith, eq-sym k.id l.id apart, foreign-ids seats l ks more)

-- A line before them with an id of its own changes nothing for the lines `ks`.
still-exact :
    (seats : Seats) (l : TabLine) (ls ks : List TabLine)
    → All (λ (k : TabLine). str_eq k.id l.id ≡ false) ks
    → All (λ k. in_ids (ids_of (covered seats ls)) k ≡ is_planned seats k) ks
    → All (λ k. in_ids (ids_of (covered seats (l ∷ ls))) k ≡ is_planned seats k) ks
still-exact seats l ls [] apart exact = tt
still-exact seats l ls (k ∷ ks) (unlike, apart) (here, exact) =
    (ground arith, still-exact seats l ls ks apart exact)

-- Among lines with distinct ids, those with a planned id are the planned ones.
pub planned-exact :
    (seats : Seats) (lines : List TabLine)
    → IsDistinct lines
    → All (λ l. in_ids (ids_of (covered seats lines)) l ≡ is_planned seats l) lines
planned-exact seats [] h = tt
planned-exact seats (l ∷ ls) (apart, more) =
    let itself : str_eq l.id l.id ≡ true = (eq_iff l.id l.id).1 refl in
    (
      ground (arith, foreign-ids seats l ls apart),
      still-exact seats l ls ls apart (planned-exact seats ls more),
    )

-- The lines now, of a tab that was read before: a line that was read is still there, with its price,
-- and may have been settled since; new lines have ids of their own.
abbrev pub IsLater : Bool → List String → List TabLine → List TabRow → Type 0
IsLater inclusive ids [] rows = All (λ (r : TabRow). in_ids ids r.line ≡ false) rows
IsLater inclusive ids (l ∷ ls) [] = ⊥
IsLater inclusive ids (l ∷ ls) (r ∷ rs) =
    (r.line.id ≡ l.id)
    × (line_amount_due r.line inclusive ≡ line_amount_due l inclusive)
    × ((is_unsettled r.line ≡ is_unsettled l) ⊎ (is_unsettled r.line ≡ false))
    × IsLater inclusive ids ls rs

none-due :
    (inclusive : Bool) (ids : List String) (rows : List TabRow)
    → All (λ (r : TabRow). in_ids ids r.line ≡ false) rows
    → (length (filter (is_due ids) rows) ≡ 0) × (sum_by (newly_due inclusive ids) rows ≡ 0)
none-due inclusive ids [] h = (refl, refl)
none-due inclusive ids (r ∷ rs) (apart, more) = ground (arith, none-due inclusive ids rs more)

later-count :
    (inclusive : Bool) (seats : Seats) (ids : List String) (lines : List TabLine)
    (rows : List TabRow)
    → All (λ l. in_ids ids l ≡ is_planned seats l) lines
    → IsLater inclusive ids lines rows
    → length (filter (is_due ids) rows) ≤ length (covered seats lines)
later-count inclusive seats ids [] rows exact later =
    omega (arith, (none-due inclusive ids rows later).0)
later-count inclusive seats ids (l ∷ ls) [] exact later = absurd later
later-count inclusive seats ids (l ∷ ls) (r ∷ rs) (here, exact) (same, price, since, later) =
    let id_same : in_ids ids r.line ≡ in_ids ids l = rw same refl in
    ground (arith, later-count inclusive seats ids ls rs exact later)

-- Where as many lines are due as were planned, they are the planned ones.
pub later-due :
    (inclusive : Bool) (seats : Seats) (ids : List String) (lines : List TabLine)
    (rows : List TabRow)
    → All (λ l. in_ids ids l ≡ is_planned seats l) lines
    → IsLater inclusive ids lines rows
    → length (filter (is_due ids) rows) ≡ length (covered seats lines)
    → sum_by (newly_due inclusive ids) rows ≡ sum_by (due inclusive) (covered seats lines)
later-due inclusive seats ids [] rows exact later h = (none-due inclusive ids rows later).1
later-due inclusive seats ids (l ∷ ls) [] exact later h = absurd later
later-due inclusive seats ids (l ∷ ls) (r ∷ rs) (here, exact) (same, price, since, later) h =
    let id_same : in_ids ids r.line ≡ in_ids ids l = rw same refl in
    ground (
      arith,
      later-count inclusive seats ids ls rs exact later,
      later-due inclusive seats ids ls rs exact later,
    )

-- Settlements may race with other settlements, with new lines and with moved seats. A plan was made on
-- lines with distinct ids. Its transaction runs on a tab whose lines are those, with the same prices,
-- some settled since, and new ones. If it goes through, and the payment is the planned amount and the
-- tip, then what was taken for the tab is again what its settled lines come to with the tips; and it
-- settles as many lines as were planned.
pub settle_lines_step-IsBalanced :
    (inclusive : Bool) (seats : Seats) (lines : List TabLine) (payment : TabPayment) (tip : ℕ)
    (t t' : Tab)
    → IsDistinct lines
    → IsLater inclusive (ids_of (covered seats lines)) lines t.lines
    → payment.amount_cents ≡ sum_by (due inclusive) (covered seats lines) + tip
    → IsBalanced inclusive t
    → settle_lines_step inclusive payment (ids_of (covered seats lines)) tip t ≡ some t'
    → IsBalanced inclusive t'
      × (length (filter (is_due (ids_of (covered seats lines))) t.lines)
          ≡ length (covered seats lines))
unfolding settle_lines_step settled_tab recompute_order_totals
settle_lines_step-IsBalanced inclusive seats lines payment tip t t' distinct later amount balanced
      h =
    let ids = ids_of (covered seats lines) in
    elim (Bool-cases (length (filter (is_due ids) t.lines) == length ids)) [
      | inr e ↦ let nothing : none ≡ some t' = rw (e, settle_lines_step) at h in absurd (cc)
      | inl e ↦
          let count : length (filter (is_due ids) t.lines) ≡ length (covered seats lines) =
            ground (arith, length-map (λ (l : TabLine). l.id) (covered seats lines)) in
          let taken =
            later-due inclusive seats ids lines t.lines (planned-exact seats lines distinct) later
              count in
          let same : settled_tab inclusive payment ids tip t ≡ t' = ground arith in
          (
            rw (← same) (
                omega
                  (arith, taken, amount, balanced, settled-after inclusive payment.id ids t.lines)),
            count,
          )
    ]
