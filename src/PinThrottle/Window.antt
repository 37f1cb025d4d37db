-- ===== src/PinThrottle/Window.antt =====
-- Failures that follow each other closely are all counted, and lock the key.
use Prim.Native.String.{String}
use valla_pos.Base.{
  ℕ, ◌+◌, ◌*◌, ◌≤◌, ◌<◌, ◌≡◌, ◌↔◌, ◌-◌, ◌^◌, refl, ap, ◌∙◌, min, max, if◌then◌else◌, true, false,
  Option, none, some, List, [], ◌∷◌, leb, ltb, arith, length,
}
use valla_pos.PinThrottle.{
  Entry, Store, count_of, locked_of, get, next_entry, lockout_seconds_for, record_key_failure,
  assert_key_not_locked,
}
use valla_pos.PinThrottle.Lockout.{lockout_seconds_for-unclamped, lockout_seconds_for_mono}
use valla_pos.PinThrottle.Store.{unexpired, live, is_locked, assert-live, get-record_key_failure}

-- Failures under one key, at the times listed.
abbrev pub failures : String → List ℕ → Store → Store
failures k [] s = s
failures k (t ∷ ts) s = failures k ts (record_key_failure k t s)

-- Each time is less than five minutes after the one before, and the first less than that after `now`.
abbrev pub IsSpaced : ℕ → List ℕ → Type 0
IsSpaced now [] = Unit
IsSpaced now (t ∷ ts) = (now ≤ t) × (t < now + 300_000) × IsSpaced t ts

abbrev pub last_of : ℕ → List ℕ → ℕ
last_of now [] = now
last_of now (t ∷ ts) = last_of t ts

-- The entry after `n` failures, the last of them at `t`: below five it locks nothing.
abbrev Counts : String → ℕ → ℕ → Store → Type 0
Counts k t n s =
    (e : Entry) × (get k s ≡ some e)
    × (e.count ≡ n)
    × (e.expires_at ≡ t + max 300 (lockout_seconds_for n) * 1000)
    × (e.locked_until ≡ (if ltb n 5 then 0 else t + lockout_seconds_for n * 1000))

next_entry-parts :
    (t n : ℕ) (o : Option Entry)
    → count_of o ≡ n
    → (n < 5 → locked_of o ≡ 0)
    → let e = next_entry t o in
      (e.count ≡ n + 1)
      × (e.expires_at ≡ t + max 300 (lockout_seconds_for (n + 1)) * 1000)
      × (e.locked_until ≡ (if ltb (n + 1) 5 then 0 else t + lockout_seconds_for (n + 1) * 1000))
unfolding next_entry
next_entry-parts t n o h low =
    let starts = (lockout_seconds_for_mono (n + 1) (n + 1) (omega arith)).2 in
    rw h (refl, refl, ground (arith, starts, low))

record_key_failure-Counts :
    (k : String) (t n : ℕ) (s : Store)
    → count_of (live k t s) ≡ n
    → (n < 5 → locked_of (live k t s) ≡ 0)
    → Counts k t (n + 1) (record_key_failure k t s)
record_key_failure-Counts k t n s h low =
    let e = next_entry t (live k t s) in
    let (counted, expires, locked) = next_entry-parts t n (live k t s) h low in
    (e, get-record_key_failure k t s, counted, expires, locked)

failures-Counts :
    (k : String) (t n : ℕ) (ts : List ℕ) (s : Store)
    → Counts k t n s
    → IsSpaced t ts
    → Counts k (last_of t ts) (n + length ts) (failures k ts s)
failures-Counts k t n [] s c h = let same : n + 0 ≡ n = omega arith in rw same c
failures-Counts k t n (u ∷ ts) s (e, is, count, expires, locked) (le, lt, h) =
    let fresh : leb e.expires_at u ≡ false = rw expires (ground arith) in
    let there : live k u s ≡ some e = rw (is, fresh) refl in
    let low : n < 5 → e.locked_until ≡ 0 = λ few. rw locked (ground arith) in
    let next = record_key_failure-Counts k u n s (rw there count) (rw there low) in
    let same : n + length (u ∷ ts) ≡ (n + 1) + length ts = omega arith in
    rw same (failures-Counts k u (n + 1) ts (record_key_failure k u s) next h)

-- What an entry says at a later time.
entry-locked :
    (e : Entry) (t n lockout d now : ℕ)
    → e.expires_at ≡ t + max 300 lockout * 1000
    → e.locked_until ≡ (if ltb n 5 then 0 else t + lockout * 1000)
    → lockout ≡ (if ltb n 5 then 0 else d)
    → (is_locked now (unexpired now (some e)) ≡ true) ↔ ((5 ≤ n) × (now < t + d * 1000))
entry-locked e t n lockout d now expires locked is = rw (expires, locked, is) (ground arith)

-- The fifth of a row of failures locks the key, and none before it. After failures under one key that
-- had no live entry, each less than five minutes after the one before and with no success between,
-- a check at any time from the last of them on throws just if there were at least five of them and less
-- time has passed since the last than a minute, doubled for each failure beyond the fifth, with fifteen
-- minutes as the most.
pub failures_lock :
    (k : String) (t : ℕ) (ts : List ℕ) (s : Store) (now : ℕ)
    → live k t s ≡ none
    → IsSpaced t ts
    → last_of t ts ≤ now
    → ((assert_key_not_locked k now (failures k (t ∷ ts) s)).0 ≡ true) ↔ (
        (5 ≤ length (t ∷ ts))
        × (now < last_of t ts + min (60 * 2 ^ (length (t ∷ ts) - 5)) 900 * 1000))
failures_lock k t ts s now new spaced le =
    let n = length (t ∷ ts) in
    let first = record_key_failure-Counts k t 0 s (rw new refl) (rw new (λ few. refl)) in
    let (e, is, count, expires, locked) =
      failures-Counts k t 1 ts (record_key_failure k t s) first spaced in
    let answer =
      entry-locked e (last_of t ts) (1 + length ts) (lockout_seconds_for (1 + length ts))
        (min (60 * 2 ^ (1 + length ts - 5)) 900) now expires locked
        (lockout_seconds_for-unclamped (1 + length ts)) in
    let same : n ≡ 1 + length ts = omega arith in
    let read : (assert_key_not_locked k now (failures k (t ∷ ts) s)).0
        ≡ is_locked now (unexpired now (some e)) =
      assert-live k now (failures k (t ∷ ts) s) ∙ ap (λ o. is_locked now (unexpired now o)) is in
    rw (read, same) answer
