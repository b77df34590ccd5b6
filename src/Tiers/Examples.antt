-- ===== src/Tiers/Examples.antt =====
-- A primary at its cap with one runner to spare, whose twin is on a standby host.
use actions_runners.Prelude.{
  All, Bool, List, String, [], arith, erase, false, insert, length, lookup, map, max, none, refl,
  some, sort, true, ◌+◌, ◌∷◌, ◌≡◌, ◌≤◌,
}
use actions_runners.Runner.{Runner, drained, idle_runner}
use actions_runners.Tiers.Types.{
  Host, Input, build, defaults, drain_owner, enforce, operator_drained, own, start,
}
use actions_runners.Tiers.Lanes.{
  admit_loop, admit_step, at_cap, blocked_why, cap_for, cap_of, drain_lane, first_shed, free_for,
  held, is_simulator_runner, lane_busy, lanes_of, lanes_on, next_at_cap, next_free, next_shed,
  primary_runners, shed_of, shed_step,
}
use actions_runners.Tiers.Groups.{
  floor_runners, host_info, idle_primary_for, is_sole, job_fits, last_host, not_floor, outside,
  overflow_runners, repo_in, servable, sole_names, sole_runners, standby_runners, stuck, takes_soon,
  tier_queue, usable_host, wake, wake_loop, wakes,
}
use actions_runners.Tiers.Phase.{
  blocked_triggers, down_triggers, lane_triggers, phase_after, phase_before, quiet, triggers,
}
use actions_runners.Tiers.Moves.{
  covering, floor_move, host_blocked, host_critical, obey, obey_all, overflow_move, recent,
  standby_work, want, want_online,
}
use actions_runners.Tiers.Primary.{
  all_work, least_free, online_move, own_move, parkable, primary_move, release_loop, release_of,
  release_one, slot_runner, slots_of, spend, spend_loop, twin_for, twin_of,
}
use actions_runners.Tiers.Decide.{
  count, decide_tiers, host_off, host_reached, issued_of, note_sent, put_off_of,
}
use actions_runners.Tiers.Twins.{Good, decide_tiers_twins}
use actions_runners.Tiers.HandsOff.{Justified, decide_tiers_hands_off}
use actions_runners.Tiers.Slots.{assigned, release_cap}
use actions_runners.Tiers.Hysteresis.{Reading, Spaced, flips, flips-Spaced}
use actions_runners.NightCap.Slots.{covers}

abbrev as_written : String → String
as_written s = s

abbrev no_pattern : String → String → Bool
no_pattern p s = false

abbrev worker : Runner
worker = record idle_runner { host_id = "mini"; working_locally = true; gh_busy = true }

abbrev spare : Runner
spare = record idle_runner { name = "mac-2"; host_id = "mini" }

abbrev stand_in : Runner
stand_in = record idle_runner { name = "ultra-1" }

abbrev mini : Host
mini = record {
  id = "mini";
  name = none;
  last_heartbeat = 9000;
  mem_pressure = none;
  rungs = [];
  off = false;
  cannot_admit = none;
}

abbrev full : Input
full = record {
  config = record defaults { mode = enforce; build_cap = 1; park = false };
  now = 10000;
  prev = record start {
    shed = record { of_build = some (record { on = true; since = some 0 }); of_simulator = none };
  };
  primary = mini;
  standby = record mini { id = "ultra" } ∷ [];
  runners = worker ∷ spare ∷ stand_in ∷ [];
  queue = [];
}

full_drains : map (λ a. a.name) (decide_tiers as_written no_pattern full).1.actions ≡ "mac-2" ∷ []
unfolding own operator_drained admit_step admit_loop blocked_why primary_runners shed_step
    is_simulator_runner lane_busy lanes_on at_cap cap_for free_for next_at_cap next_free first_shed
    shed_of next_shed lanes_of held drain_lane repo_in last_host standby_runners floor_runners
    not_floor outside is_sole sole_names sole_runners overflow_runners job_fits idle_primary_for
    servable tier_queue stuck host_info usable_host takes_soon wakes wake_loop wake down_triggers
    blocked_triggers lane_triggers triggers quiet phase_before phase_after want obey obey_all recent
    host_blocked floor_move host_critical want_online covering overflow_move standby_work twin_for
    twin_of slots_of spend spend_loop parkable slot_runner release_one release_loop release_of
    least_free own_move online_move primary_move all_work count note_sent host_off host_reached
    issued_of put_off_of decide_tiers covers lookup insert erase sort
full_drains = refl

decide_tiers_twins_example :
    All (Good as_written no_pattern full) (decide_tiers as_written no_pattern full).1.actions
decide_tiers_twins_example = decide_tiers_twins as_written no_pattern full

decide_tiers_hands_off_example :
    All
      (λ a.
        (host_off as_written no_pattern full a ≡ false)
        × (host_reached as_written no_pattern full a ≡ true)
        × Justified as_written no_pattern full a)
      (decide_tiers as_written no_pattern full).1.actions
decide_tiers_hands_off_example = decide_tiers_hands_off as_written no_pattern full

-- The spare runner is parked, and the queue has a run for it.
abbrev waiting_full : Input
waiting_full = record full {
  config = record defaults { mode = enforce; build_cap = 2 };
  runners = worker ∷ record spare { drain_state = some drained; drain_by = some drain_owner } ∷ [];
  queue = record { id = 7; repo = "o/app"; labels = []; queued_since_ms = 60; cause = none } ∷ [];
}

release_cap_example :
    lane_busy no_pattern waiting_full build
      + assigned as_written no_pattern waiting_full (primary_runners waiting_full)
      + length
          (release_of as_written no_pattern waiting_full
            (standby_work as_written no_pattern waiting_full)).slotted
    ≤ max (cap_of no_pattern waiting_full build) (
        lane_busy no_pattern waiting_full build
        + assigned as_written no_pattern waiting_full (primary_runners waiting_full))
release_cap_example =
    release_cap as_written no_pattern waiting_full (λ e. omega (arith, e))
      (standby_work as_written no_pattern waiting_full)

abbrev readings : List Reading
readings =
    record { now = 100000; at_cap = true; cap_for = 60000; free_for = 0 }
    ∷ record { now = 800000; at_cap = false; cap_for = 0; free_for = 300000 }
    ∷ []

two_flips :
    map (λ s. s.on) (flips defaults readings (record { on = false; since = none }))
    ≡ true ∷ false ∷ []
unfolding flips shed_step
two_flips = refl

flips-Spaced_example :
    Spaced defaults
      (record { on = false; since = none })
      (flips defaults readings (record { on = false; since = none }))
flips-Spaced_example = flips-Spaced defaults readings (record { on = false; since = none })
