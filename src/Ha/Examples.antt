-- ===== src/Ha/Examples.antt =====
-- A command that is queued, handed out, timed out, handed out again and completed.
use actions_runners.Prelude.{
  All, In, List, [], arith, false, inl, map, none, refl, some, true, ◌+◌, ◌∷◌, ◌≡◌, ◌≢◌, ◌⊎◌,
}
use actions_runners.Ha.Apart.{Agrees, overlapped, turns_hold}
use actions_runners.Ha.Leader.{Speaks}
use actions_runners.Ha.Role.{
  Coordinator, Elections, Reply, Turn, answer, answered_at, begin_election, coordinator, go_on,
  lose_leadership, set_role, timer, turn, turns,
}
use actions_runners.Ha.Queue.{
  Command, Queue, change_one, claim, done, insert_command, insert_row, key_id, pending,
  pending_commands, reset_expired, update,
}
use actions_runners.Ha.Trace.{Event, claimed, completed, queued, reset, run, step}
use actions_runners.Ha.Invariant.{IsWellFormed, empty}
use actions_runners.Ha.Steps.{run-IsWellFormed}
use actions_runners.Ha.Claims.{claims_apart}
use actions_runners.Ha.Once.{queue_once}
use actions_runners.Ha.Final.{run-final}

abbrev queue_drain : Event
queue_drain = queued "ultra" "drain" "{}" (some "drain-mac-1") 10

abbrev attempted : List Event
attempted = queue_drain ∷ claimed "ultra" 20 8 ∷ reset 100 3 110 ∷ claimed "ultra" 120 8 ∷ []

abbrev completion : List Event
completion = completed 1 true none 130 ∷ []

abbrev drain_done : Command
drain_done = record {
  id = 1;
  host_id = "ultra";
  ts = 10;
  action = "drain";
  args = "{}";
  status = done;
  idempotency_key = some "drain-mac-1";
  started_at = some 120;
  completed_at = some 130;
  result = none;
  attempts = 2;
}

abbrev finished : Queue
finished = record { commands = drain_done ∷ []; next_id = 2 }

drain_finished : run completion (run attempted empty) ≡ finished
unfolding run step insert_command insert_row key_id claim update pending_commands change_one
    reset_expired
drain_finished = refl

abbrev empty_good : IsWellFormed empty
empty_good = record { rising = tt; sane = tt }

abbrev finished_good : IsWellFormed finished
finished_good = record {
  rising = (tt, omega arith, tt);
  sane = ((omega arith, (omega arith, refl)), tt);
}

run-IsWellFormed_example : IsWellFormed (run attempted empty)
run-IsWellFormed_example = run-IsWellFormed attempted empty empty_good

run-final_example : In drain_done (run attempted finished).commands
run-final_example = run-final attempted finished drain_done finished_good refl (inl refl)

queue_once_example :
    insert_command "ultra" "drain" "{}"
      (some "drain-mac-1")
      140
      (run completion (insert_command "ultra" "drain" "{}" (some "drain-mac-1") 10 empty).1)
    ≡ (
      (insert_command "ultra" "drain" "{}" (some "drain-mac-1") 10 empty).0,
      record (run completion
          (insert_command "ultra" "drain" "{}" (some "drain-mac-1") 10 empty).1) {
            next_id =
                (run completion
                  (insert_command "ultra" "drain" "{}" (some "drain-mac-1") 10 empty).1).next_id
                + 1;
          },
    )
queue_once_example =
    queue_once "drain-mac-1" "ultra" "drain" "{}" "ultra" "drain" "{}" 10 140 completion empty

abbrev waiting_drain : Command
waiting_drain = record drain_done {
  status = pending;
  started_at = none;
  completed_at = none;
  attempts = 0;
}

abbrev fresh : Queue
fresh = record { commands = waiting_drain ∷ []; next_id = 2 }

abbrev fresh_good : IsWellFormed fresh
fresh_good = record { rising = (tt, omega arith, tt); sane = ((omega arith, refl), tt) }

claims_apart_example :
    All
      (λ c. All (λ d. c.id ≢ d.id) (claim "ultra" 30 8 (claim "ultra" 20 8 fresh).1).0)
      (claim "ultra" 20 8 fresh).0
claims_apart_example = claims_apart "ultra" 20 8 30 8 fresh fresh_good

-- A coordinator that wins the lock and later loses its session.
abbrev replica : Coordinator
replica = record (coordinator (some "postgres://db") "a" 0) { has_pool = true }

abbrev fine : Reply
fine = record { ok = true; won = true; holder = none }

abbrev broken : Reply
broken = record { ok = false; won = false; holder = none }

abbrev replica_first : Elections
replica_first = record { state = replica; waiting = [] }

abbrev elections : List Turn
elections =
    timer
    ∷ answer 10 0 fine
    ∷ answer 11 0 fine
    ∷ answer 12 0 fine
    ∷ timer
    ∷ answer 20 0 broken
    ∷ answer 21 0 broken
    ∷ []

role_changes :
    map (λ n. n.is_leader) (turns elections replica_first).state.notified ≡ false ∷ true ∷ []
unfolding turns turn answered_at begin_election go_on lose_leadership set_role coordinator
role_changes = refl

one_by_one : overlapped elections replica_first ≡ false
unfolding overlapped turn answered_at begin_election go_on lose_leadership set_role coordinator
one_by_one = refl

turns_hold_example :
    Speaks (turns elections replica_first).state
    × ((overlapped elections replica_first ≡ true)
        ⊎ Agrees (turns elections replica_first).state (turns elections replica_first).waiting)
unfolding coordinator
turns_hold_example =
    turns_hold elections replica (record { since = refl; leader = tt; told = (refl, refl) }) refl

-- Of two elections at once, the second waits for the lock while the first one wins it.
abbrev two_at_once : List Turn
two_at_once =
    timer
    ∷ timer
    ∷ answer 10 0 fine
    ∷ answer 11 1 fine
    ∷ answer 12 0 fine
    ∷ answer 13 0 fine
    ∷ answer 14 0 (record fine { won = false })
    ∷ answer 15 0 (record fine { holder = some "a" })
    ∷ []

role_and_session :
    let s = (turns two_at_once replica_first).state in (s.is_leader ≡ false) × (s.has_client ≡ true)
unfolding turns turn answered_at begin_election go_on lose_leadership set_role coordinator
role_and_session = (refl, refl)
