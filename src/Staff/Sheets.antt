-- ===== src/Staff/Sheets.antt =====
-- Durations of shifts.
use valla_pos.Base.{ℕ, ◌+◌, ◌≤◌, ◌≡◌, refl, none, some, arith}
use valla_pos.Staff.{TimeInterval, entry_duration_seconds}

abbrev pub shift : ℕ → ℕ → TimeInterval
shift start end' = record { clock_in_at = start; clock_out_at = some end' }

-- A shift that is split in two by clocking out and in again loses less than a second: the durations
-- of the parts add up to that of the whole, or to one second less. And an open shift that is looked
-- at when it is closed has the duration that it is stored with.
pub entry_duration_seconds-split :
    (a b c : ℕ)
    → a ≤ b
    → b ≤ c
    → let parts = entry_duration_seconds (shift a b) c + entry_duration_seconds (shift b c) c in
      let whole = entry_duration_seconds (shift a c) c in
      (parts ≤ whole)
      × (whole ≤ parts + 1)
      × (entry_duration_seconds (record { clock_in_at = a; clock_out_at = none }) c ≡ whole)
unfolding entry_duration_seconds
entry_duration_seconds-split a b c h g = (omega arith, omega arith, refl)
