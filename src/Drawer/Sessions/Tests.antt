-- ===== src/Drawer/Sessions/Tests.antt =====
-- Runs of the drawer actions, and their theorems at concrete inputs.
use valla_pos.Base.{◌≡◌, refl, true, none, some, [], ◌∷◌, arith}
use valla_pos.Base.Int.{ℤ, pos, negsuc, ◌+ℤ◌, ◌-ℤ◌}
use valla_pos.Drawer.{reconcile, expected_cash, compute_variance}
use valla_pos.Drawer.Sessions.{
  DrawerSession, DrawerPayment, Drawers, Closing, open_drawer, cash_collected_since,
  find_open_session, prepare_close, commit_close,
}
use valla_pos.Drawer.Sessions.Single.{
  IsSingle, Run, here, next, opened, taken, closed, Run-IsSingle,
}
use valla_pos.Base.Result.{Pointwise}
use valla_pos.Drawer.Sessions.Close.{Collected, HasOpen, IsClosed, close_drawer_lem}

abbrev empty : Drawers
empty = record { sessions = []; payments = [] }

abbrev morning : DrawerSession
morning = record {
  id = "d1";
  opened_by_id = "ann";
  opening_float_cents = 10_000;
  expected_cents = none;
  counted_cents = none;
  variance_cents = none;
  opened_at = 100;
  closed_at = none;
}

abbrev with_morning : Drawers
with_morning = record { sessions = morning ∷ []; payments = [] }

abbrev paid_in : DrawerPayment
paid_in = record { method = "CASH"; amount_cents = pos 1183; created_at = 150 }

abbrev with_payment : Drawers
with_payment = record with_morning { payments = paid_in ∷ [] }

opens : open_drawer "d1" (some "ann") 10_000 100 empty ≡ some (morning, with_morning)
unfolding open_drawer
opens = refl

abbrev evening : Closing
evening = record {
  session_id = "d1";
  expected_cents = pos 11_183;
  counted_cents = 11_100;
  variance_cents = negsuc 82;
  closed_at = 200;
}

counts : prepare_close true "d1" 11_100 200 with_payment ≡ some evening
unfolding prepare_close find_open_session cash_collected_since reconcile expected_cash
    compute_variance ◌+ℤ◌ ◌-ℤ◌
counts = refl

abbrev after_close : Drawers
after_close = record with_payment {
  sessions =
      record morning {
        expected_cents = some (pos 11_183);
        counted_cents = some 11_100;
        variance_cents = some (negsuc 82);
        closed_at = some 200;
      }
      ∷ [];
}

closes : commit_close evening with_payment ≡ some after_close
unfolding commit_close
closes = refl

day : Run empty after_close
day =
    next (next (next here (opened "d1" (some "ann") 10_000 100 morning opens)) (taken paid_in))
      (closed evening closes)

Run-IsSingle_example : IsSingle after_close
Run-IsSingle_example = Run-IsSingle (omega arith) day

close_drawer_lem_example :
    (true ≡ true)
    × ((d : DrawerSession) × (cash expected variance : ℤ) × HasOpen "d1" d with_payment.sessions
        × Collected d.opened_at 200 with_payment.payments cash
        × (expected ≡ pos d.opening_float_cents +ℤ cash)
        × (expected +ℤ variance ≡ pos 11_100)
        × Pointwise
            (IsClosed "d1" expected 11_100 variance 200)
            with_payment.sessions
            after_close.sessions)
    × ((x : DrawerSession) × HasOpen "d1" x with_payment.sessions)
    × (after_close.payments ≡ with_payment.payments)
close_drawer_lem_example =
    close_drawer_lem true "d1" 11_100 200 with_payment evening with_payment after_close counts
      closes
