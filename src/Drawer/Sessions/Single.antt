-- ===== src/Drawer/Sessions/Single.antt =====
-- One open drawer at a time.
use Prim.Native.String.{String}
use valla_pos.Base.{
  ℕ, ◌≤◌, ◌≡◌, refl, false, Option, none, some, List, [], ◌∷◌, map, filter, any, length, sum_by,
  inl, inr, Bool-cases, if◌then◌else◌, arith, ◌==◌,
}
use valla_pos.Drawer.Sessions.{
  DrawerSession, DrawerPayment, Drawers, Closing, is_open_session, open_drawer, is_row, close_row,
  commit_close,
}

abbrev open_count : DrawerSession → ℕ
open_count d = if is_open_session d then 1 else 0

abbrev pub IsSingle : Drawers → Type 0
IsSingle s = sum_by open_count s.sessions ≤ 1

-- What happens to drawers: one is opened, a closing that was prepared at any time is committed, and
-- payments are taken.
pub data Step : Drawers → Drawers → Type 0 where
  opened :
      {s s' : Drawers} (new_id : String) (granted : Option String) (float_cents now : ℕ)
      (d : DrawerSession)
      → open_drawer new_id granted float_cents now s ≡ some (d, s')
      → Step s s'
  closed : {s s' : Drawers} (c : Closing) → commit_close c s ≡ some s' → Step s s'
  taken : {s : Drawers} (p : DrawerPayment) → Step s (record s { payments = p ∷ s.payments })

pub data Run (s : Drawers) : Drawers → Type 0 where
  here : Run s s
  next : {t u : Drawers} → Run s t → Step t u → Run s u

none-open : (ds : List DrawerSession) → any is_open_session ds ≡ false → sum_by open_count ds ≡ 0
none-open [] h = refl
none-open (d ∷ ds) h = ground (arith, none-open ds)

close_row-fewer :
    (c : Closing) (ds : List DrawerSession)
    → sum_by open_count (map (close_row c) ds) ≤ sum_by open_count ds
close_row-fewer c [] = omega arith
close_row-fewer c (d ∷ ds) = ground (arith, close_row-fewer c ds)

Step-IsSingle : {s s' : Drawers} → Step s s' → IsSingle s → IsSingle s'
unfolding open_drawer commit_close
Step-IsSingle {s} {s'} (opened new_id none float_cents now d h) single = absurd (ground arith)
Step-IsSingle {s} {s'} (opened new_id (some m) float_cents now d h) single =
    elim (Bool-cases (any is_open_session s.sessions)) [
      | inl e ↦ absurd (ground arith)
      | inr e ↦ ground (arith, none-open s.sessions e)
    ]
Step-IsSingle {s} {s'} (closed c h) single =
    elim (Bool-cases (length (filter (is_row c.session_id) s.sessions) == 0)) [
      | inl e ↦ absurd (ground arith)
      | inr e ↦ ground (arith, close_row-fewer c s.sessions)
    ]
Step-IsSingle (taken p) single = single

-- A business never has two open drawers: from at most one, any sequence of openings, payments and
-- closings leads to at most one, also where a closing was prepared at any earlier time.
pub Run-IsSingle : {s s' : Drawers} → IsSingle s → Run s s' → IsSingle s'
Run-IsSingle single here = single
Run-IsSingle single (next run step) = Step-IsSingle step (Run-IsSingle single run)
