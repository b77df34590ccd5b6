-- ===== src/Ha/Trace.antt =====
-- Sequences of the statements of dashboard/lib/ha.js on the table fleet_commands, from any coordinators.
use actions_runners.Prelude.{Bool, List, Option, String, [], ℕ, ◌∷◌}
use actions_runners.Ha.Queue.{
  Queue, change_one, claim, complete, insert_command, mark_sent, release_claim, reset_expired,
}

pub data Event : Type 0 where
  queued : String → String → String → Option String → ℕ → Event
  claimed : String → ℕ → ℕ → Event
  released : ℕ → Event
  marked : ℕ → ℕ → Event
  completed : ℕ → Bool → Option String → ℕ → Event
  reset : ℕ → ℕ → ℕ → Event

unfoldable pub step : Event → Queue → Queue
unfolding insert_command claim change_one reset_expired
step (queued host action args key ts) q = (insert_command host action args key ts q).1
step (claimed host ts limit) q = (claim host ts limit q).1
step (released i) q = (release_claim i q).1
step (marked i ts) q = (mark_sent i ts q).1
step (completed i ok result ts) q = (complete i ok result ts q).1
step (reset before most now) q = reset_expired before most now q

unfoldable pub run : List Event → Queue → Queue
unfolding step
run [] q = q
run (e ∷ es) q = run es (step e q)
