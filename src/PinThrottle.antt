-- ===== src/PinThrottle.antt =====
-- Throttling of failed PIN attempts (src/lib/pin-throttle.ts), with the in-memory store: the one that
-- is used where no Redis is configured. Times are milliseconds; `now` is what `Date.now()` returned.
--
-- A key is read, counted up and written in one step, as the JavaScript runtime does between two
-- awaits. The Redis client is a service; the same derivation `next_entry` feeds both stores.
pub mod Lockout
pub mod Store
pub mod Window
pub mod Ceiling
pub mod Tests
use Prim.Native.String.{String, ◌++◌ as str_append}
use text.Mathlib.Text.{◌==◌ as str_eq}
use valla_pos.Base.{
  ℕ, ◌+◌, ◌-◌, ◌*◌, ◌^◌, min, max, Bool, true, false, Option, none, some, List, [], ◌∷◌, ltb, leb,
  if◌then◌else◌,
}

abbrev pub max_failures : ℕ
max_failures = 5

abbrev pub window_seconds : ℕ
window_seconds = 5 * 60

abbrev pub lockout_seconds : ℕ
lockout_seconds = 60

abbrev pub max_lockout_seconds : ℕ
max_lockout_seconds = 15 * 60

-- `lockoutSecondsFor`
unfoldable pub lockout_seconds_for : ℕ → ℕ
lockout_seconds_for failures =
    if ltb failures max_failures
    then 0
    else if leb 32 (failures - max_failures)
    then max_lockout_seconds
    else min (lockout_seconds * 2 ^ (failures - max_failures)) max_lockout_seconds

-- `key` and `approvalKey`
unfoldable pub key : String → String → String
key business_id membership_id =
    str_append "pin-throttle:" (str_append business_id (str_append ":" membership_id))

unfoldable pub approval_key : String → String
approval_key business_id = str_append "pin-throttle:approval:" business_id

pub record Entry : Type 0 where
  pub count : ℕ
  pub locked_until : ℕ
  pub expires_at : ℕ

-- The `Map` from keys to entries: `get`, `set` and `delete`.
abbrev pub Store : Type 0
Store = List (String × Entry)

unfoldable pub get : String → Store → Option Entry
get k [] = none
get k ((j, e) ∷ store) = if str_eq j k then some e else get k store

unfoldable pub set : String → Entry → Store → Store
set k e [] = (k, e) ∷ []
set k e ((j, d) ∷ store) = if str_eq j k then (j, e) ∷ store else (j, d) ∷ set k e store

unfoldable pub delete : String → Store → Store
delete k [] = []
delete k ((j, e) ∷ store) = if str_eq j k then delete k store else (j, e) ∷ delete k store

-- `readMem`: an entry that has expired is deleted.
unfoldable pub read_mem : String → ℕ → Store → Option Entry × Store
read_mem k now store = elim (get k store) [
  | none ↦ (none, store)
  | some e ↦ if leb e.expires_at now then (none, delete k store) else (some e, store)
]

-- `assertKeyNotLocked`: whether it throws, and the store it leaves.
unfoldable pub assert_key_not_locked : String → ℕ → Store → Bool × Store
assert_key_not_locked k now store =
    let (entry, store') = read_mem k now store in
    (elim entry [ none ↦ false | some e ↦ ltb now e.locked_until ], store')

-- `existing?.count ?? 0` and `existing?.lockedUntil ?? 0`
abbrev pub count_of : Option Entry → ℕ
count_of none = 0
count_of (some e) = e.count

abbrev pub locked_of : Option Entry → ℕ
locked_of none = 0
locked_of (some e) = e.locked_until

-- `next` of `recordKeyFailure`
unfoldable pub next_entry : ℕ → Option Entry → Entry
next_entry now existing =
    let count = count_of existing + 1 in
    let lock_secs = lockout_seconds_for count in
    let locked_until = if ltb 0 lock_secs then now + lock_secs * 1000 else locked_of existing in
    let ttl = max window_seconds lock_secs in
    record { count = count; locked_until = locked_until; expires_at = now + ttl * 1000 }

-- `recordKeyFailure`
unfoldable pub record_key_failure : String → ℕ → Store → Store
record_key_failure k now store =
    let (entry, store') = read_mem k now store in set k (next_entry now entry) store'

-- `recordKeySuccess`
unfoldable pub record_key_success : String → Store → Store
record_key_success k store = delete k store

-- `assertNotLocked`, `recordFailure` and `recordSuccess`, and the same for approvals.
unfoldable pub assert_not_locked : String → String → ℕ → Store → Bool × Store
assert_not_locked b m now store = assert_key_not_locked (key b m) now store

unfoldable pub record_failure : String → String → ℕ → Store → Store
record_failure b m now store = record_key_failure (key b m) now store

unfoldable pub record_success : String → String → Store → Store
record_success b m store = record_key_success (key b m) store

unfoldable pub assert_approval_not_locked : String → ℕ → Store → Bool × Store
assert_approval_not_locked b now store = assert_key_not_locked (approval_key b) now store

unfoldable pub record_approval_failure : String → ℕ → Store → Store
record_approval_failure b now store = record_key_failure (approval_key b) now store

unfoldable pub record_approval_success : String → Store → Store
record_approval_success b store = record_key_success (approval_key b) store
