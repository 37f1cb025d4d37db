-- ===== src/PinThrottle/Tests.antt =====
-- Runs of the PIN throttle, and its theorems at concrete inputs.
use Prim.Native.String.{String}
use text.Mathlib.Text.{◌==◌ as str_eq}
use text.Mathlib.TextEquality.{eq_iff}
use valla_pos.Base.{
  ℕ, ◌+◌, ◌-◌, ◌*◌, ◌^◌, ◌≤◌, ◌<◌, ◌≡◌, ◌≢◌, ◌↔◌, min, refl, true, false, none, some, List, [], ◌∷◌,
  length, arith,
}
use valla_pos.PinThrottle.{
  Store, get, set, read_mem, next_entry, lockout_seconds_for, record_key_failure,
  assert_key_not_locked,
}
use valla_pos.PinThrottle.Window.{failures, failures_lock}
use valla_pos.PinThrottle.Ceiling.{start, failed, reached-count}

ladder :
    (lockout_seconds_for 5 ≡ 60) × (lockout_seconds_for 8 ≡ 480) × (lockout_seconds_for 99 ≡ 900)
unfolding lockout_seconds_for
ladder = (refl, refl, refl)

abbrev one_failure : Store
one_failure = ("a", record { count = 1; locked_until = 0; expires_at = 300_000 }) ∷ []

abbrev key_a : String
key_a = "a"

abbrev key_b : String
key_b = "b"

other_key : key_b ≢ key_a
other_key e =
    let unlike : str_eq key_b key_a ≡ false = refl in let like = (eq_iff key_b key_a).1 e in cc

abbrev later : List ℕ
later = 1000 ∷ 2000 ∷ 3000 ∷ 4000 ∷ []

fresh : get "a" [] ≡ none
unfolding get
fresh = refl

failures_lock_example :
    ((assert_key_not_locked "a" 63_999 (failures "a" (0 ∷ later) [])).0 ≡ true) ↔ (
      (5 ≤ length (0 ∷ later))
      × (63_999 < 4000 + min (60 * 2 ^ (length (0 ∷ later) - 5)) 900 * 1000))
failures_lock_example =
    failures_lock "a" 0 later [] 63_999 (rw fresh refl)
      (
        omega arith,
        omega arith,
        (omega arith, omega arith, (omega arith, omega arith, (omega arith, omega arith, tt))),
      )
      (omega arith)

fifth_locks : (assert_key_not_locked "a" 63_999 (failures "a" (0 ∷ later) [])).0 ≡ true
unfolding assert_key_not_locked read_mem get record_key_failure next_entry set lockout_seconds_for
fifth_locks = refl

minute_over : (assert_key_not_locked "a" 64_000 (failures "a" (0 ∷ later) [])).0 ≡ false
unfolding assert_key_not_locked read_mem get record_key_failure next_entry set lockout_seconds_for
minute_over = refl

passes : (assert_key_not_locked "a" 0 []).0 ≡ false
unfolding assert_key_not_locked read_mem get
passes = refl

counted :
    get "a" (record_key_failure "a" 0 (assert_key_not_locked "a" 0 []).1)
    ≡ some (record { count = 1; locked_until = 0; expires_at = 300_000 })
unfolding assert_key_not_locked read_mem get record_key_failure next_entry set lockout_seconds_for
counted = refl

reached-count_example : (1 ≤ 8) × (lockout_seconds_for 1 ≤ 480)
reached-count_example =
    reached-count "a" (record_key_failure "a" 0 (assert_key_not_locked "a" 0 []).1)
      (failed 0 0 [] start (omega arith) passes)
      (record { count = 1; locked_until = 0; expires_at = 300_000 }) counted
