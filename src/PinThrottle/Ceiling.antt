-- ===== src/PinThrottle/Ceiling.antt =====
-- How far the lockout of a key escalates when every attempt is checked before it is recorded.
use Prim.Native.String.{String}
use valla_pos.Base.{
  ℕ, ◌+◌, ◌≤◌, ◌≡◌, ◌≢◌, refl, sym, ◌∙◌, false, Option, some, [], arith, inl, inr, Option-cases,
}
use valla_pos.PinThrottle.{
  Entry, Store, get, count_of, next_entry, lockout_seconds_for, record_key_failure,
  record_key_success, assert_key_not_locked,
}
use valla_pos.PinThrottle.Store.{
  unexpired, live, get-delete, is_locked, assert-live, get-read_mem, get-record_key_failure,
  record_key-isolated,
}
use valla_pos.PinThrottle.Lockout.{lockout_seconds_for_mono}

-- The stores a server reaches when the attempts under `k` come one after the other: each is checked
-- first, at `t`, and recorded as a failure only if the check did not throw, at `u`, no earlier.
pub data IsReached (k : String) : Store → Type 0 where
  start : IsReached k []
  checked : (t : ℕ) (s : Store) → IsReached k s → IsReached k (assert_key_not_locked k t s).1
  failed :
      (t u : ℕ) (s : Store)
      → IsReached k s
      → t ≤ u
      → (assert_key_not_locked k t s).0 ≡ false
      → IsReached k (record_key_failure k u (assert_key_not_locked k t s).1)
  succeeded : (s : Store) → IsReached k s → IsReached k (record_key_success k s)
  other_failed :
      (j : String) (t : ℕ) (s : Store)
      → IsReached k s
      → j ≢ k
      → IsReached k (record_key_failure j t s)

-- At most eight failures; and at eight the entry expires when its lockout ends.
abbrev IsBelow : Entry → Type 0
IsBelow e = (e.count ≤ 8) × (e.count ≡ 8 → e.locked_until ≡ e.expires_at)

eight : lockout_seconds_for 8 ≡ 480
unfolding lockout_seconds_for
eight = refl

next_entry-IsBelow : (u : ℕ) (o : Option Entry) → count_of o ≤ 7 → IsBelow (next_entry u o)
unfolding next_entry
next_entry-IsBelow u o h = (
  omega arith,
  λ e. let secs : lockout_seconds_for (count_of o + 1) ≡ 480 = rw e eight in rw secs refl,
)

checked-get :
    (k : String) (t : ℕ) (s : Store) (e : Entry)
    → get k (assert_key_not_locked k t s).1 ≡ some e
    → get k s ≡ some e
unfolding assert_key_not_locked
checked-get k t s e h = get-read_mem k t s e h

-- Where the check did not throw, what is live later counts seven at most.
unlocked-count :
    (k : String) (t u : ℕ) (s : Store)
    → ((e : Entry) → get k s ≡ some e → IsBelow e)
    → t ≤ u
    → (assert_key_not_locked k t s).0 ≡ false
    → count_of (live k u (assert_key_not_locked k t s).1) ≤ 7
unlocked-count k t u s below le h =
    let passed : is_locked t (live k t s) ≡ false = sym (assert-live k t s) ∙ h in
    elim (Option-cases (get k (assert_key_not_locked k t s).1)) [
      | inl e ↦ rw e (ground arith)
      | inr (d, e) ↦
          let old = checked-get k t s d e in
          let (most, full) = below d old in
          let at : is_locked t (unexpired t (some d)) ≡ false = rw old at passed in
          rw e (ground arith)
    ]

reached-IsBelow :
    (k : String) (s : Store) → IsReached k s → (e : Entry) → get k s ≡ some e → IsBelow e
unfolding get record_key_success
reached-IsBelow k _ start e h = absurd (cc)
reached-IsBelow k _ (checked t s r) e h = reached-IsBelow k s r e (checked-get k t s e h)
reached-IsBelow k _ (failed t u s r le passed) e h =
    let s' = (assert_key_not_locked k t s).1 in
    let count = unlocked-count k t u s (reached-IsBelow k s r) le passed in
    let same : next_entry u (live k u s') ≡ e = let got = get-record_key_failure k u s' in cc in
    rw (sym same) (next_entry-IsBelow u (live k u s') count)
reached-IsBelow k _ (succeeded s r) e h = let gone = get-delete k s in absurd (cc)
reached-IsBelow k _ (other_failed j t s r apart) e h =
    reached-IsBelow k s r e (sym (record_key-isolated k j t s apart).1 ∙ h)

-- Where the attempts under a key come one after the other and each is checked before it is recorded,
-- the key never counts more than eight failures, so that its lockouts last eight minutes at most.
pub reached-count :
    (k : String) (s : Store)
    → IsReached k s
    → (e : Entry) → get k s ≡ some e
    → (e.count ≤ 8) × (lockout_seconds_for e.count ≤ 480)
reached-count k s r e h =
    let (most, full) = reached-IsBelow k s r e h in
    let capped = (lockout_seconds_for_mono e.count 8 most).0 in (most, rw eight at capped)
