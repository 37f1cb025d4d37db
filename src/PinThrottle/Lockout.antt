-- ===== src/PinThrottle/Lockout.antt =====
-- How long a lockout is, as a function of the number of failures.
use native.Mathlib.Nat.{pow-le-pow_right}
use valla_pos.Base.{ℕ, ◌-◌, ◌*◌, ◌^◌, ◌≤◌, ◌<◌, ◌≡◌, ◌↔◌, min, ltb, if◌then◌else◌, arith}
use valla_pos.PinThrottle.{lockout_seconds_for}

big : (n : ℕ) → 32 ≤ n → 900 ≤ 60 * 2 ^ n
big n h =
    let less : 2 ^ 32 ≤ 2 ^ n = pow-le-pow_right (omega arith) h in
    let at : 900 ≤ 2 ^ 32 = omega arith in omega arith

-- The clamp on the exponent never changes the result: from five failures on, the lockout is sixty
-- seconds doubled for each further failure, and fifteen minutes at most.
pub lockout_seconds_for-unclamped :
    (f : ℕ) → lockout_seconds_for f ≡ (if ltb f 5 then 0 else min (60 * 2 ^ (f - 5)) 900)
unfolding lockout_seconds_for
lockout_seconds_for-unclamped f = ground (arith, big (f - 5))

-- Lockouts never get shorter as failures add up; none is longer than fifteen minutes; and one starts
-- exactly from the fifth failure on.
pub lockout_seconds_for_mono :
    (f g : ℕ)
    → f ≤ g
    → (lockout_seconds_for f ≤ lockout_seconds_for g)
      × (lockout_seconds_for g ≤ 900)
      × ((lockout_seconds_for g ≡ 0) ↔ (g < 5))
lockout_seconds_for_mono f g h =
    let more : 2 ^ (f - 5) ≤ 2 ^ (g - 5) = pow-le-pow_right (omega arith) (omega arith) in
    let one : 2 ^ 0 ≤ 2 ^ (g - 5) = pow-le-pow_right (omega arith) {i = 0} (omega arith) in
    rw (lockout_seconds_for-unclamped f, lockout_seconds_for-unclamped g) (ground arith)
