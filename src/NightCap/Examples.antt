-- ===== src/NightCap/Examples.antt =====
-- A host with two idle runners and one slot, and the night cap's theorems at it.
use actions_runners.Prelude.{
  All, List, String, [], false, if◌then◌else◌, inl, insert, lookup, map, none, refl, some, sort,
  true, ℕ, ◌==◌, ◌∷◌, ◌≡◌,
}
use actions_runners.Runner.{Runner, drained, idle_runner}
use actions_runners.Labels.{Run}
use actions_runners.NightCap.Types.{
  defaults, enforce, is_pending, others, own, parkable, recent, resume,
}
use actions_runners.NightCap.Slots.{candidates, choose, fits, give, waiting}
use actions_runners.NightCap.Park.{park, park_one}
use actions_runners.NightCap.Decide.{
  Input, decide, issued_of, ours_of, pending_of, slotted_of, waiting_of, work_of,
}
use actions_runners.NightCap.HandsOff.{Justified, decide_hands_off}
use actions_runners.NightCap.Release.{decide_releases}
use actions_runners.NightCap.Fair.{Served, slots_not_wasted}
use actions_runners.NightCap.Jobs.{queued_jobs}

abbrev night : Input
night = record {
  config = record defaults { mode = enforce; max_busy = 1 };
  window = record { active = true; starts_at = none; ends_at = some 5000 };
  now = 1000;
  pending = [];
  host_off = false;
  runners = idle_runner ∷ record idle_runner { name = "mac-2"; repo = "o/site" } ∷ [];
  jobs =
      record {
        key = "7/1";
        run_id = 7;
        repo = "o/site";
        labels = [];
        queued_since_ms = 60;
        cause = none;
      }
      ∷ [];
}

-- The same runners after the window, with the first still parked.
abbrev parked_runner : Runner
parked_runner = record idle_runner { drain_state = some drained; drain_by = some "night-cap" }

abbrev morning : Input
morning = record night {
  window = record { active = false; starts_at = some 9000; ends_at = none };
  runners = parked_runner ∷ [];
}

abbrev as_written : String → String
as_written s = s

night_drains : map (λ a. a.name) (decide as_written night).1.actions ≡ "mac-1" ∷ []
unfolding decide slotted_of waiting_of waiting give choose candidates fits work_of park park_one own
    issued_of others lookup sort parkable insert is_pending recent
night_drains = refl

decide_hands_off_example :
    All (λ a. (night.host_off ≡ false) × Justified night a) (decide as_written night).1.actions
decide_hands_off_example = decide_hands_off as_written night

decide_releases_example : is_pending resume "mac-1" (decide as_written morning).0 ≡ true
unfolding own
decide_releases_example =
    decide_releases as_written morning parked_runner refl (λ e. cc) refl (tt, tt) (inl refl) refl

slots_not_wasted_example :
    All
      (Served as_written
        (pending_of night)
        (ours_of night)
        (decide as_written night).1.slots
        (decide as_written night).1.slotted)
      (waiting_of as_written night)
slots_not_wasted_example = slots_not_wasted as_written night

abbrev bare_run : Run
bare_run = record {
  id = 8;
  repo = "o/app";
  status = "queued";
  at = none;
  created_at = none;
  jobs = [];
}

-- A run in progress with one job left in the queue, and a queued run without jobs.
abbrev two_runs : List Run
two_runs =
    record {
      id = 7;
      repo = "o/app";
      status = "in_progress";
      at = some 500;
      created_at = some 100;
      jobs = record { tag = "31"; status = "queued"; labels = "ci" ∷ [] } ∷ [];
    }
    ∷ bare_run
    ∷ []

abbrev show_run : ℕ → String
show_run n = if n == 7 then "7" else "8"

queue_keys : map (λ q. q.key) (queued_jobs show_run 900 (λ i. none) two_runs) ≡ "7/31" ∷ "8" ∷ []
unfolding queued_jobs
queue_keys = refl
