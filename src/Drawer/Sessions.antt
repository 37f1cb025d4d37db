-- ===== src/Drawer/Sessions.antt =====
-- Drawer sessions (src/features/cash-drawer/actions.ts, with the sum of queries.ts), over the rows of
-- one business.
--
-- `openDrawer` locks the row of the business, so it is one step. `closeDrawer` reads and computes
-- before its update, so other requests can run in between. `none` is where an action throws.
pub mod Single
pub mod Cash
pub mod Close
pub mod Tests
use Prim.Native.String.{String}
use text.Mathlib.Text.{◌==◌ as str_eq}
use valla_pos.Base.{
  ℕ, Bool, true, false, Option, none, some, List, [], ◌∷◌, map, filter, any, length, ltb, leb, ◌==◌,
  ◌&&◌, if◌then◌else◌,
}
use valla_pos.Base.Int.{ℤ, pos, ◌+ℤ◌}
use valla_pos.Drawer.{Reconciliation, reconcile}

pub record DrawerSession : Type 0 where
  pub id : String
  pub opened_by_id : String
  pub opening_float_cents : ℕ
  pub expected_cents : Option ℤ
  pub counted_cents : Option ℕ
  pub variance_cents : Option ℤ
  pub opened_at : ℕ
  pub closed_at : Option ℕ

pub record DrawerPayment : Type 0 where
  pub method : String
  pub amount_cents : ℤ
  pub created_at : ℕ

pub record Drawers : Type 0 where
  pub sessions : List DrawerSession
  pub payments : List DrawerPayment

abbrev pub is_open_session : DrawerSession → Bool
is_open_session d = elim d.closed_at [ none ↦ true | some t ↦ false ]

-- `openDrawer` by the operator that `requireCapability` returned; `new_id` is the database's.
unfoldable pub open_drawer :
    String → Option String → ℕ → ℕ → Drawers → Option (DrawerSession × Drawers)
open_drawer new_id granted float_cents now s = elim granted [
  | none ↦ none
  | some membership_id ↦
      if any is_open_session s.sessions
      then none
      else let session : DrawerSession = record {
        id = new_id;
        opened_by_id = membership_id;
        opening_float_cents = float_cents;
        expected_cents = none;
        counted_cents = none;
        variance_cents = none;
        opened_at = now;
        closed_at = none;
      } in
        some (session, record s { sessions = session ∷ s.sessions })
]

-- The condition of the sum in `getCashCollectedSince`.
abbrev pub is_collected : ℕ → ℕ → DrawerPayment → Bool
is_collected opened_at end_at p =
    str_eq p.method "CASH" && (leb opened_at p.created_at && ltb p.created_at end_at)

-- `getCashCollectedSince`
unfoldable pub cash_collected_since : ℕ → ℕ → List DrawerPayment → ℤ
cash_collected_since opened_at end_at [] = pos 0
cash_collected_since opened_at end_at (p ∷ ps) =
    (if is_collected opened_at end_at p then p.amount_cents else pos 0)
    +ℤ cash_collected_since opened_at end_at ps

abbrev pub is_row : String → DrawerSession → Bool
is_row id d = str_eq d.id id && is_open_session d

unfoldable pub find_open_session : String → List DrawerSession → Option DrawerSession
find_open_session id [] = none
find_open_session id (d ∷ ds) = if is_row id d then some d else find_open_session id ds

-- What the update of `closeDrawer` writes.
pub record Closing : Type 0 where
  pub session_id : String
  pub expected_cents : ℤ
  pub counted_cents : ℕ
  pub variance_cents : ℤ
  pub closed_at : ℕ

-- `closeDrawer` up to its update.
unfoldable pub prepare_close : Bool → String → ℕ → ℕ → Drawers → Option Closing
prepare_close allowed session_id counted now s =
    if allowed
    then elim (find_open_session session_id s.sessions) [
      | none ↦ none
      | some d ↦
          let r =
            reconcile (pos d.opening_float_cents) (cash_collected_since d.opened_at now s.payments)
              (pos counted) in
          some (record {
            session_id = d.id;
            expected_cents = r.expected_cents;
            counted_cents = counted;
            variance_cents = r.variance_cents;
            closed_at = now;
          })
    ]
    else none

abbrev pub close_row : Closing → DrawerSession → DrawerSession
close_row c d =
    if is_row c.session_id d
    then record d {
      expected_cents = some c.expected_cents;
      counted_cents = some c.counted_cents;
      variance_cents = some c.variance_cents;
      closed_at = some c.closed_at;
    }
    else d

-- The update of `closeDrawer`, which throws where it meets no open row.
unfoldable pub commit_close : Closing → Drawers → Option Drawers
commit_close c s =
    if length (filter (is_row c.session_id) s.sessions) == 0
    then none
    else some (record s { sessions = map (close_row c) s.sessions })
