-- ===== src/Offline.antt =====
-- Replay of the sales that were queued offline (src/lib/offline/replay-core.ts) over the stores of
-- src/lib/offline/checkout-queue.ts and dead-letter.ts.
--
-- A store is the list of its rows, in the order of their key `clientUuid`. What the replay is given
-- is a record: the decryption of an entry, the server's `checkout` as a function of the server's state,
-- and the test for a network error. The browser's store itself is taken not to fail. `C` is the type
-- of checkout payloads, `S` of server states.
pub mod Kept
pub mod Server
pub mod Counts
pub mod Tests
use Prim.Native.String.{String}
use text.Mathlib.Text.{◌==◌ as str_eq}
use valla_pos.Base.{
  ℕ, ◌+◌, Bool, true, false, Option, none, some, List, [], ◌∷◌, length, ltb, leb, ◌||◌,
  if◌then◌else◌,
}
use valla_pos.Base.Sort.{sort_by}

abbrev pub max_replay_attempts : ℕ
max_replay_attempts = 5

-- `enc` stands for the stored envelope, encrypted or legacy plain text.
pub record QueuedCheckout : Type 0 where
  pub client_uuid : String
  pub enc : String
  pub queued_at : ℕ
  pub attempts : ℕ

pub record DeadLetterCheckout : Type 0 where
  pub client_uuid : String
  pub enc : String
  pub queued_at : ℕ
  pub attempts : ℕ
  pub dead_lettered_at : ℕ
  pub last_error : String

-- What is thrown: a string, an `Error` with its name and message, or another value, as JSON.
pub data Thrown : Type 0 where
  message_text : String → Thrown
  error : String → String → Thrown
  other : String → Thrown

-- `describeError`
unfoldable pub describe_error : Thrown → String
describe_error (message_text s) = s
describe_error (error name message) = message
describe_error (other json) = json

-- `isOperatorLocked`
unfoldable pub is_operator_locked : Thrown → Bool
is_operator_locked (error name message) =
    str_eq name "OperatorLockedError" || str_eq message "LOCKED"
is_operator_locked _ = false

pub data SendResult : Type 0 where
  sent : SendResult
  failed : Thrown → SendResult

-- `ReplayDeps`, less the stores: `dated t p` is `{ ...p, offlineQueuedAt: t }`, and `now` is the clock,
-- which a pass reads only to date its dead letters.
pub record ReplayDeps (C S : Type 0) : Type 0 where
  pub decode : QueuedCheckout → Option C
  pub dated : ℕ → C → C
  pub send : C → S → SendResult × S
  pub is_network_error : Thrown → Bool
  pub max_attempts : Option ℕ
  pub now : ℕ

-- `deps.maxAttempts ?? MAX_REPLAY_ATTEMPTS`
abbrev pub or_default : Option ℕ → ℕ
or_default none = max_replay_attempts
or_default (some n) = n

-- The two stores, and the server.
pub record World (S : Type 0) : Type 0 where
  pub queue : List QueuedCheckout
  pub dead : List DeadLetterCheckout
  pub server : S

-- `listQueuedCheckouts`: by `queuedAt`, and equal times by key.
abbrev pub queued_behind : QueuedCheckout → QueuedCheckout → Bool
queued_behind a b = ltb b.queued_at a.queued_at

unfoldable pub list_queued : List QueuedCheckout → List QueuedCheckout
list_queued queue = sort_by queued_behind queue

-- `removeQueuedCheckout`: the key is unique.
unfoldable pub remove_queued : String → List QueuedCheckout → List QueuedCheckout
remove_queued uuid [] = []
remove_queued uuid (q ∷ qs) = if str_eq q.client_uuid uuid then qs else q ∷ remove_queued uuid qs

-- `bumpAttempts`
unfoldable pub bump_attempts : String → List QueuedCheckout → List QueuedCheckout
bump_attempts uuid [] = []
bump_attempts uuid (q ∷ qs) =
    if str_eq q.client_uuid uuid
    then record q { attempts = q.attempts + 1 } ∷ qs
    else q ∷ bump_attempts uuid qs

-- `db.put(DEAD_STORE, record)`: a row with the same key is replaced.
unfoldable pub put_dead : DeadLetterCheckout → List DeadLetterCheckout → List DeadLetterCheckout
put_dead r [] = r ∷ []
put_dead r (d ∷ ds) = if str_eq d.client_uuid r.client_uuid then r ∷ ds else d ∷ put_dead r ds

-- `moveToDeadLetter`
unfoldable pub move_to_dead_letter :
    {S : Type 0} → ℕ → QueuedCheckout → Thrown → ℕ → World S → World S
move_to_dead_letter now entry err attempts w =
    let row : DeadLetterCheckout = record {
      client_uuid = entry.client_uuid;
      enc = entry.enc;
      queued_at = entry.queued_at;
      attempts = attempts;
      dead_lettered_at = now;
      last_error = describe_error err;
    } in
    record w { dead = put_dead row w.dead; queue = remove_queued entry.client_uuid w.queue }

abbrev pub undecodable : Thrown
undecodable = message_text "undecodable (lost key / tampered / format drift)"

-- How one round of the loop goes on: with the counts raised, or by `break`.
pub data Round (S : Type 0) : Type 0 where
  next : ℕ → ℕ → World S → Round S
  stop : World S → Round S

module _ {C S : Type 0} (deps : ReplayDeps C S) where
  -- The `catch` of a round.
  unfoldable pub caught : QueuedCheckout → Thrown → World S → Round S
  caught entry err w =
      if deps.is_network_error err
      then stop w
      else if is_operator_locked err
      then stop w
      else if leb (or_default deps.max_attempts) (entry.attempts + 1)
      then next 0 1 (move_to_dead_letter deps.now entry err (entry.attempts + 1) w)
      else next 0 0 (record w { queue = bump_attempts entry.client_uuid w.queue })

  -- The `try` of a round, for what the server answered.
  unfoldable pub answered : QueuedCheckout → SendResult × S → World S → Round S
  answered entry (sent, server) w =
      next 1 0 (record w { queue = remove_queued entry.client_uuid w.queue; server = server })
  answered entry (failed err, server) w = caught entry err (record w { server = server })

  -- One round of the loop of `runReplay`.
  unfoldable pub replay_entry : QueuedCheckout → World S → Round S
  replay_entry entry w = elim (deps.decode entry) [
    | none ↦ next 0 1 (move_to_dead_letter deps.now entry undecodable entry.attempts w)
    | some payload ↦ answered entry (deps.send (deps.dated entry.queued_at payload) w.server) w
  ]

  -- The loop: the number committed, the number moved to the dead letters, and what is left.
  unfoldable pub replay_loop : List QueuedCheckout → ℕ → ℕ → World S → ℕ × ℕ × World S
  replay_loop [] committed dead w = (committed, dead, w)
  replay_loop (e ∷ es) committed dead w = elim (replay_entry e w) [
    | next c d w' ↦ replay_loop es (committed + c) (dead + d) w'
    | stop w' ↦ (committed, dead, w')
  ]

pub record ReplaySummary : Type 0 where
  pub committed : ℕ
  pub dead_lettered : ℕ
  pub pending : ℕ
  pub needs_reconciliation : ℕ

-- `runReplay`, where `deps.isOnline()` returned `online`.
unfoldable pub run_replay :
    {C S : Type 0} → ReplayDeps C S → Bool → World S → ReplaySummary × World S
run_replay deps online w =
    let (committed, dead_lettered, w') =
      if online then replay_loop deps (list_queued w.queue) 0 0 w else (0, 0, w) in
    (
      record {
        committed = committed;
        dead_lettered = dead_lettered;
        pending = length w'.queue;
        needs_reconciliation = length w'.dead;
      },
      w',
    )
