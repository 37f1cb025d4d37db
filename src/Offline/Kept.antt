-- ===== src/Offline/Kept.antt =====
-- What a replay keeps, for any server that keeps what it has recorded.
use Prim.Native.String.{String}
use text.Mathlib.Text.{◌==◌ as str_eq}
use text.Mathlib.TextEquality.{eq_iff}
use valla_pos.Base.{
  ℕ, ◌+◌, ◌<◌, ◌≤◌, ◌≡◌, ◌⊎◌, refl, Bool, true, false, some, List, [], ◌∷◌, All, sum_by,
  if◌then◌else◌, arith, inl, inr, Bool-cases, Option-cases, leb,
}
use valla_pos.Base.Sort.{All-sort_by}
use valla_pos.Offline.{
  queued_behind, QueuedCheckout, DeadLetterCheckout, Thrown, SendResult, sent, failed, ReplayDeps,
  World, or_default, is_operator_locked, list_queued, remove_queued, bump_attempts, put_dead,
  move_to_dead_letter, undecodable, Round, next, stop, caught, answered, replay_entry, replay_loop,
  run_replay,
}

-- How many rows of a store have a key.
abbrev pub queued_count : String → List QueuedCheckout → ℕ
queued_count u = sum_by (λ (q : QueuedCheckout). if str_eq q.client_uuid u then 1 else 0)

abbrev pub dead_count : String → List DeadLetterCheckout → ℕ
dead_count u = sum_by (λ (d : DeadLetterCheckout). if str_eq d.client_uuid u then 1 else 0)

pub queued_count-bump_attempts :
    (u v : String) (qs : List QueuedCheckout)
    → queued_count u (bump_attempts v qs) ≡ queued_count u qs
unfolding bump_attempts
queued_count-bump_attempts u v [] = refl
queued_count-bump_attempts u v (q ∷ qs) = ground (arith, queued_count-bump_attempts u v qs)

-- Removing a key changes no other count.
pub queued_count-remove_queued :
    (u v : String) (qs : List QueuedCheckout)
    → (v ≡ u) ⊎ (queued_count u (remove_queued v qs) ≡ queued_count u qs)
unfolding remove_queued
queued_count-remove_queued u v [] = inr refl
queued_count-remove_queued u v (q ∷ qs) = elim (Bool-cases (str_eq v u)) [
  | inl e ↦ inl ((eq_iff v u).0 e)
  | inr e ↦ ground (
    arith,
    eq_iff v u,
    eq_iff q.client_uuid v,
    eq_iff q.client_uuid u,
    queued_count-remove_queued u v qs,
  )
]

dead_count-put_dead :
    (u : String) (r : DeadLetterCheckout) (ds : List DeadLetterCheckout)
    → dead_count u ds ≤ dead_count u (put_dead r ds)
unfolding put_dead
dead_count-put_dead u r [] = omega arith
dead_count-put_dead u r (d ∷ ds) = ground (
  arith,
  eq_iff d.client_uuid r.client_uuid,
  eq_iff d.client_uuid u,
  eq_iff r.client_uuid u,
  dead_count-put_dead u r ds,
)

dead_count-put_dead_self :
    (u : String) (r : DeadLetterCheckout) (ds : List DeadLetterCheckout)
    → r.client_uuid ≡ u
    → 0 < dead_count u (put_dead r ds)
unfolding put_dead
dead_count-put_dead_self u r [] e = ground (arith, eq_iff r.client_uuid u)
dead_count-put_dead_self u r (d ∷ ds) e =
    ground (arith, eq_iff r.client_uuid u, dead_count-put_dead_self u r ds e)

pub round-cases :
    {S : Type 0} (r : Round S)
    → ((c d : ℕ) × (w : World S) × (r ≡ next c d w)) ⊎ ((w : World S) × (r ≡ stop w))
round-cases (next c d w) = inl (c, d, w, refl)
round-cases (stop w) = inr (w, refl)

-- The sale is queued, or with the dead letters, or recorded by the server.
abbrev pub IsKept : {S : Type 0} → (String → S → Type 0) → String → World S → Type 0
IsKept records u w = (0 < queued_count u w.queue) ⊎ (0 < dead_count u w.dead) ⊎ records u w.server

-- Where the server answers the payload of an entry without an error, it has recorded its sale.
abbrev pub Commits :
    {C S : Type 0} → ReplayDeps C S → (String → S → Type 0) → QueuedCheckout → Type 0
Commits {C} {S} deps records e =
    (p : C) (s : S)
    → deps.decode e ≡ some p
    → (deps.send (deps.dated e.queued_at p) s).0 ≡ sent
    → records e.client_uuid (deps.send (deps.dated e.queued_at p) s).1

-- `records u s`: the server has recorded the sale with key `u`. It keeps what it has recorded.
module _ {C S : Type 0} (deps : ReplayDeps C S) (records : String → S → Type 0)
    (keeps : (u : String) (p : C) (s : S) → records u s → records u (deps.send p s).1) where
  move-IsKept :
      (u : String) (now : ℕ) (e : QueuedCheckout) (err : Thrown) (n : ℕ) (w : World S)
      → IsKept records u w
      → IsKept records u (move_to_dead_letter now e err n w)
  unfolding move_to_dead_letter
  move-IsKept u now e err n w k =
      let v = e.client_uuid in
      elim k [
        | inl q ↦ elim (queued_count-remove_queued u v w.queue) [
          | inl same ↦ inr (inl (dead_count-put_dead_self u _ w.dead same))
          | inr eq ↦ inl (omega (arith, eq, q))
        ]
        | inr (inl d) ↦ inr (inl (omega (arith, d, dead_count-put_dead u _ w.dead)))
        | inr (inr r) ↦ inr (inr r)
      ]

  world_of : Round S → World S
  world_of (next c d w) = w
  world_of (stop w) = w

  caught-IsKept :
      (u : String) (e : QueuedCheckout) (err : Thrown) (w : World S)
      → IsKept records u w
      → IsKept records u (world_of (caught deps e err w))
  unfolding caught world_of
  caught-IsKept u e err w k = elim (Bool-cases (deps.is_network_error err)) [
    | inl e1 ↦ rw e1 k
    | inr e1 ↦ elim (Bool-cases (is_operator_locked err)) [
      | inl e2 ↦ rw (e1, e2) k
      | inr e2 ↦ elim (Bool-cases (leb (or_default deps.max_attempts) (e.attempts + 1))) [
        | inl e3 ↦ rw (e1, e2, e3) (move-IsKept u deps.now e err (e.attempts + 1) w k)
        | inr e3 ↦ rw (e1, e2, e3, queued_count-bump_attempts u e.client_uuid w.queue) k
      ]
    ]
  ]

  answered-IsKept :
      (u : String) (e : QueuedCheckout) (r : SendResult) (s : S) (w : World S)
      → IsKept records u w
      → (records u w.server → records u s)
      → (r ≡ sent → records e.client_uuid s)
      → IsKept records u (world_of (answered deps e (r, s) w))
  unfolding answered world_of
  answered-IsKept u e sent s w k keep done = elim k [
    | inl q ↦ elim (queued_count-remove_queued u e.client_uuid w.queue) [
      | inl same ↦ inr (inr (rw same at (done refl)))
      | inr eq ↦ inl (omega (arith, eq, q))
    ]
    | inr (inl d) ↦ inr (inl d)
    | inr (inr r) ↦ inr (inr (keep r))
  ]
  answered-IsKept u e (failed err) s w k keep done =
      caught-IsKept u e err (record w { server = s })
        (elim k [ inl q ↦ inl q | inr (inl d) ↦ inr (inl d) | inr (inr r) ↦ inr (inr (keep r)) ])

  entry-IsKept :
      (u : String) (e : QueuedCheckout) (w : World S)
      → Commits deps records e
      → IsKept records u w
      → IsKept records u (world_of (replay_entry deps e w))
  unfolding replay_entry world_of
  entry-IsKept u e w commits k = elim (Option-cases (deps.decode e)) [
    | inl unread ↦
        rw (unread, world_of, replay_entry) (move-IsKept u deps.now e undecodable e.attempts w k)
    | inr (p, read) ↦
        let answer = deps.send (deps.dated e.queued_at p) w.server in
        rw (read, world_of, replay_entry)
          (answered-IsKept u e answer.0 answer.1 w k (keeps u (deps.dated e.queued_at p) w.server)
            (commits p w.server read))
  ]

  loop-IsKept :
      (u : String) (es : List QueuedCheckout) (c d : ℕ) (w : World S)
      → All (Commits deps records) es
      → IsKept records u w
      → IsKept records u (replay_loop deps es c d w).2
  unfolding replay_loop world_of
  loop-IsKept u [] c d w each k = k
  loop-IsKept u (e ∷ es) c d w (one, each) k =
      let kept = entry-IsKept u e w one k in
      elim (round-cases (replay_entry deps e w)) [
        | inl (c', d', w', eq) ↦
            rw (eq, replay_loop)
              (loop-IsKept u es (c + c') (d + d') w' each (rw (eq, world_of) at kept))
        | inr (w', eq) ↦ rw (eq, replay_loop) (rw (eq, world_of) at kept)
      ]

  pub run_replay-IsKept :
      (u : String) (online : Bool) (w : World S)
      → All (Commits deps records) w.queue
      → IsKept records u w
      → IsKept records u (run_replay deps online w).1
  unfolding run_replay list_queued
  run_replay-IsKept u true w each k =
      loop-IsKept u (list_queued w.queue) 0 0 w
        (All-sort_by queued_behind (Commits deps records) w.queue each) k
  run_replay-IsKept u false w each k = k
