-- ===== src/Offline/Tests.antt =====
-- A replay against a small server, and the theorems on it at that input.
use Prim.Native.String.{String}
use text.Mathlib.Text.{◌==◌ as str_eq}
use valla_pos.Base.{◌+◌, ◌≡◌, refl, true, false, none, some, List, [], ◌∷◌, if◌then◌else◌}
use valla_pos.Base.Sort.{insert_by, sort_by}
use valla_pos.Offline.{
  error, SendResult, sent, failed, ReplayDeps, World, list_queued, remove_queued,
  is_operator_locked, put_dead, describe_error, move_to_dead_letter, caught, answered, replay_entry,
  replay_loop, run_replay,
}
use valla_pos.Offline.Counts.{run_replay-conserves}

-- The server keeps the keys of the sales it accepted, and refuses the sale "b".
abbrev accept : String → List String → SendResult × List String
accept u s = if str_eq u "b" then (failed (error "Error" "refused"), s) else (sent, u ∷ s)

abbrev deps : ReplayDeps String (List String)
deps = record {
  decode = λ e. if str_eq e.enc "" then none else some e.client_uuid;
  dated = λ t p. p;
  send = accept;
  is_network_error = λ e. false;
  max_attempts = none;
  now = 99;
}

abbrev device : World (List String)
device = record {
  queue =
      record { client_uuid = "a"; enc = "x"; queued_at = 20; attempts = 0 }
      ∷ record { client_uuid = "b"; enc = "x"; queued_at = 10; attempts = 4 }
      ∷ record { client_uuid = "c"; enc = "x"; queued_at = 30; attempts = 0 }
      ∷ [];
  dead = [];
  server = [];
}

counts :
    (run_replay deps true device).0
    ≡ record { committed = 2; dead_lettered = 1; pending = 0; needs_reconciliation = 1 }
unfolding run_replay replay_loop replay_entry answered caught move_to_dead_letter put_dead
    remove_queued list_queued sort_by insert_by is_operator_locked describe_error
counts = refl

run_replay-conserves_example :
    let s = (run_replay deps true device).0 in s.committed + s.dead_lettered + s.pending ≡ 3
run_replay-conserves_example = run_replay-conserves deps true device
