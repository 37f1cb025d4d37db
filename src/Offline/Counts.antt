-- ===== src/Offline/Counts.antt =====
-- What a replay counts.
use Prim.Native.String.{String}
use text.Mathlib.Text.{◌==◌ as str_eq}
use text.Mathlib.TextEquality.{eq_iff}
use valla_pos.Base.{
  ℕ, ◌+◌, ◌<◌, ◌≤◌, ◌≡◌, refl, ap, Bool, true, false, List, [], ◌∷◌, length, if◌then◌else◌, arith,
  inl, inr, Bool-cases, Option-cases, leb,
}
use valla_pos.Base.Sort.{sum_by-sort_by}
use valla_pos.Offline.{
  QueuedCheckout, Thrown, SendResult, sent, failed, ReplayDeps, World, or_default,
  is_operator_locked, queued_behind, list_queued, remove_queued, bump_attempts, move_to_dead_letter,
  undecodable, Round, next, stop, caught, answered, replay_entry, replay_loop, run_replay,
}
use valla_pos.Offline.Kept.{queued_count, queued_count-bump_attempts, round-cases}

length-bump_attempts :
    (v : String) (qs : List QueuedCheckout) → length (bump_attempts v qs) ≡ length qs
unfolding bump_attempts
length-bump_attempts v [] = refl
length-bump_attempts v (q ∷ qs) = ground (arith, length-bump_attempts v qs)

length-remove_queued :
    (v : String) (qs : List QueuedCheckout)
    → 0 < queued_count v qs
    → length (remove_queued v qs) + 1 ≡ length qs
unfolding remove_queued
length-remove_queued v [] h = absurd (omega arith)
length-remove_queued v (q ∷ qs) h = ground (arith, length-remove_queued v qs)

-- The entries still to be replayed are rows of the queue.
abbrev IsAhead : List QueuedCheckout → List QueuedCheckout → Type 0
IsAhead es qs = (u : String) → queued_count u es ≤ queued_count u qs

here-queued :
    (e : QueuedCheckout) (es qs : List QueuedCheckout)
    → IsAhead (e ∷ es) qs
    → 0 < queued_count e.client_uuid qs
here-queued e es qs h = ground (arith, h e.client_uuid, eq_iff e.client_uuid e.client_uuid)

queued_count-remove_queued_le :
    (u v : String) (rs : List QueuedCheckout)
    → queued_count u rs ≤ queued_count u (remove_queued v rs) + (if str_eq v u then 1 else 0)
unfolding remove_queued
queued_count-remove_queued_le u v [] = omega arith
queued_count-remove_queued_le u v (q ∷ rs) = ground (
  arith,
  eq_iff v u,
  eq_iff q.client_uuid v,
  eq_iff q.client_uuid u,
  queued_count-remove_queued_le u v rs,
)

remove-IsAhead :
    (e : QueuedCheckout) (es qs : List QueuedCheckout)
    → IsAhead (e ∷ es) qs
    → IsAhead es (remove_queued e.client_uuid qs)
remove-IsAhead e es qs h u = omega (arith, h u, queued_count-remove_queued_le u e.client_uuid qs)

module _ {C S : Type 0} (deps : ReplayDeps C S) where
  -- A round that goes on has taken off the queue what it counts.
  Takes : World S → QueuedCheckout → List QueuedCheckout → Round S → Type 0
  Takes w e es (next c d w') = (c + d + length w'.queue ≡ length w.queue) × IsAhead es w'.queue
  Takes w e es (stop w') = length w'.queue ≡ length w.queue

  module _ (w : World S) (e : QueuedCheckout) (es : List QueuedCheckout)
      (ahead : IsAhead (e ∷ es) w.queue) where
    removed-Takes :
        (c d : ℕ) (w' : World S)
        → c + d ≡ 1
        → w'.queue ≡ remove_queued e.client_uuid w.queue
        → Takes w e es (next c d w')
    unfolding Takes
    removed-Takes c d w' one eq =
        let shorter = length-remove_queued e.client_uuid w.queue (here-queued e es w.queue ahead) in
        (rw eq (omega (arith, shorter, one)), rw eq (remove-IsAhead e es w.queue ahead))

    moved-Takes :
        (err : Thrown) (n : ℕ) (v : World S)
        → v.queue ≡ w.queue
        → Takes w e es (next 0 1 (move_to_dead_letter deps.now e err n v))
    unfolding move_to_dead_letter
    moved-Takes err n v eq = removed-Takes 0 1 _ refl (ap (remove_queued e.client_uuid) eq)

    caught-Takes :
        (err : Thrown) (s : S) → Takes w e es (caught deps e err (record w { server = s }))
    unfolding caught Takes
    caught-Takes err s = elim (Bool-cases (deps.is_network_error err)) [
      | inl e1 ↦ rw (e1, caught, Takes) refl
      | inr e1 ↦ elim (Bool-cases (is_operator_locked err)) [
        | inl e2 ↦ rw (e1, e2, caught, Takes) refl
        | inr e2 ↦ elim (Bool-cases (leb (or_default deps.max_attempts) (e.attempts + 1))) [
          | inl e3 ↦
              rw (e1, e2, e3, caught)
                (moved-Takes err (e.attempts + 1) (record w { server = s }) refl)
          | inr e3 ↦
              rw (e1, e2, e3, caught, Takes)
                (
                  omega (arith, length-bump_attempts e.client_uuid w.queue),
                  λ u. omega (arith, queued_count-bump_attempts u e.client_uuid w.queue, ahead u),
                )
        ]
      ]
    ]

    answered-Takes : (r : SendResult) (s : S) → Takes w e es (answered deps e (r, s) w)
    unfolding answered
    answered-Takes sent s = removed-Takes 1 0 _ refl refl
    answered-Takes (failed err) s = caught-Takes err s

    entry-Takes : Takes w e es (replay_entry deps e w)
    unfolding replay_entry
    entry-Takes = elim (Option-cases (deps.decode e)) [
      | inl unread ↦ rw (unread, replay_entry) (moved-Takes undecodable e.attempts w refl)
      | inr (p, read) ↦
          let answer = deps.send (deps.dated e.queued_at p) w.server in
          rw (read, replay_entry) (answered-Takes answer.0 answer.1)
    ]

  loop-counts :
      (es : List QueuedCheckout) (c d : ℕ) (w : World S)
      → IsAhead es w.queue
      → let (c', d', w') = replay_loop deps es c d w in
        c' + d' + length w'.queue ≡ c + d + length w.queue
  unfolding replay_loop Takes
  loop-counts [] c d w h = refl
  loop-counts (e ∷ es) c d w h =
      let took = entry-Takes w e es h in
      elim (round-cases (replay_entry deps e w)) [
        | inl (c', d', w', eq) ↦
            let (count, ahead) = rw (eq, Takes) at took in
            let rest = loop-counts es (c + c') (d + d') w' ahead in
            rw (eq, replay_loop) (omega (arith, rest, count))
        | inr (w', eq) ↦
            let same : length w'.queue ≡ length w.queue = rw (eq, Takes) at took in
            rw (eq, replay_loop) (omega (arith, same))
      ]

  listed :
      (u : String) (qs : List QueuedCheckout) → queued_count u (list_queued qs) ≡ queued_count u qs
  unfolding list_queued
  listed u qs = sum_by-sort_by queued_behind _ qs

  -- The counts of a replay add up: committed, dead-lettered and pending sales are together just the
  -- sales that were queued before it.
  pub run_replay-conserves :
      (online : Bool) (w : World S)
      → let s = (run_replay deps online w).0 in
        s.committed + s.dead_lettered + s.pending ≡ length w.queue
  unfolding run_replay
  run_replay-conserves true w =
      let counted =
        loop-counts (list_queued w.queue) 0 0 w (λ u. omega (arith, listed u w.queue)) in
      omega (arith, counted)
  run_replay-conserves false w = omega arith
