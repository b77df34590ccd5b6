-- ===== src/Tiers/Lanes.antt =====
-- The timers of the tiers controller (dashboard/lib/tiers.js): hosts that cannot admit, lanes at their
-- cap, and lanes that shed.
use actions_runners.Prelude.{
  Bool, List, Option, String, [], any, false, filter, find?, if◌then◌else◌, insert, is_some, leb,
  length, lookup, none, not, or_else, some, str_eq, true, truthy, ℕ, ◌&&◌, ◌+◌, ◌-◌, ◌==◌, ◌||◌,
  ◌∷◌,
}
use actions_runners.Runner.{Runner}
use actions_runners.Tiers.Types.{
  Admit, Blocked, Config, Gate, Host, Input, Lane, Shed, admission, at_lane, build, is_build, lane,
  own, simulator,
}

-- One host's entry of `admit`.
unfoldable pub admit_step : ℕ → ℕ → Option Admit → Option String → Admit
admit_step now resume_after p (some reason) = record {
  on = true;
  since = elim p [ none ↦ some now | some a ↦ if a.on then a.since else some now ];
  clear_since = none;
  reason = reason;
}
admit_step now resume_after none none = record {
  on = false;
  since = none;
  clear_since = none;
  reason = "";
}
admit_step now resume_after (some a) none =
    if a.on
    then (if leb (or_else a.clear_since now + resume_after) now
        then record { on = false; since = some now; clear_since = none; reason = "" }
        else record a { clear_since = some (or_else a.clear_since now) })
    else record { on = false; since = a.since; clear_since = none; reason = "" }

-- The loop over the hosts, the primary first.
unfoldable pub admit_loop :
    ℕ → ℕ → List (String × Admit) → List Host → List (String × Admit) → List (String × Admit)
unfolding admit_step
admit_loop now after prev [] admit = admit
admit_loop now after prev (h ∷ hs) admit = admit_loop now after prev hs (
    if str_eq h.id ""
    then admit
    else insert h.id (admit_step now after (lookup h.id prev) h.cannot_admit) admit)

abbrev pub admit_of : Input → List (String × Admit)
admit_of x = admit_loop x.now x.config.admit_resume_after_ms x.prev.admit (x.primary ∷ x.standby) []

-- `blockedWhy`
unfoldable pub blocked_why : Input → String → Option Blocked
unfolding admit_loop
blocked_why x id = elim (lookup id (admit_of x)) [
  | none ↦ none
  | some a ↦
      if a.on
      then some (record {
        reason = a.reason;
        clear_for = elim a.clear_since [ none ↦ none | some t ↦ some (x.now - t) ];
      })
      else none
]

abbrev pub primary_blocked : Input → Bool
primary_blocked x = is_some (blocked_why x x.primary.id)

-- `primaryRunners`
unfoldable pub primary_runners : Input → List Runner
primary_runners x =
    filter (λ r. not r.ephemeral && str_eq r.host_id x.primary.id && r.local && truthy r.dir_name)
      x.runners

-- The next entries of `atCapSince` and `freeSince`: `test` says that the time runs on.
abbrev pub running_since : Bool → ℕ → Option ℕ → Option ℕ
running_since test now t = if test then some (or_else t now) else none

-- How long the time has run.
abbrev pub running_for : Bool → ℕ → Option ℕ → ℕ
running_for test now t = if test then now - or_else t now else 0

-- One step of a lane's hysteresis: at the cap or not, and for how long.
unfoldable pub shed_step : Config → ℕ → Bool → ℕ → ℕ → Shed → Shed
shed_step c now at_cap cap_for free_for s =
    if not s.on
      && at_cap
      && leb c.self_drain_after_ms cap_for
      && (not (is_some s.since) || leb (or_else s.since 0 + c.self_min_open_ms) now)
    then record { on = true; since = some now }
    else if s.on
        && not at_cap
        && leb c.self_resume_after_ms free_for
        && leb (or_else s.since 0 + c.self_min_hold_ms) now
    then record { on = false; since = some now }
    else s

module _ (glob : String → String → Bool) where
  -- `isSimulatorRunner`
  unfoldable pub is_simulator_runner : String → List String → Bool
  is_simulator_runner name patterns = any (λ p. glob p name) patterns

  module _ (x : Input) where
    abbrev pub is_sim : Runner → Bool
    is_sim r = is_simulator_runner r.name x.config.simulator_runners

    abbrev pub cap_of : Lane → ℕ
    cap_of build = x.config.build_cap
    cap_of simulator = x.config.simulator_cap

    -- The runners of a lane, and those whose job has a Worker.
    abbrev pub members : Lane → List Runner
    members build = primary_runners x
    members simulator = filter is_sim (primary_runners x)

    unfoldable pub lane_busy : Lane → ℕ
    lane_busy k = length (filter (λ r. r.working_locally) (members k))

    -- The lanes that there are: a cap of 0 means no such lane.
    unfoldable pub lanes_on : List Lane
    lanes_on = filter (λ k. not (cap_of k == 0)) (build ∷ simulator ∷ [])

    unfoldable pub at_cap : Lane → Bool
    unfolding lane_busy
    at_cap k = leb (cap_of k) (lane_busy k)

    unfoldable pub cap_for : Lane → ℕ
    cap_for k = running_for (at_cap k) x.now (at_lane x.prev.at_cap_since k)

    unfoldable pub free_for : Lane → ℕ
    free_for k = running_for (not (at_cap k)) x.now (at_lane x.prev.free_since k)

    -- The entries of `atCapSince` and `freeSince` of the next state.
    unfoldable pub next_at_cap : Lane → Option ℕ
    next_at_cap k =
        if cap_of k == 0
        then at_lane x.prev.at_cap_since k
        else running_since (at_cap k) x.now (at_lane x.prev.at_cap_since k)

    unfoldable pub next_free : Lane → Option ℕ
    next_free k =
        if cap_of k == 0
        then at_lane x.prev.free_since k
        else running_since (not (at_cap k)) x.now (at_lane x.prev.free_since k)

    -- A lane with no entry: shedding if a runner of its own is drained already.
    unfoldable pub first_shed : Lane → Shed
    unfolding own
    first_shed k =
        let mine =
          filter (λ r. if is_build k then not (is_sim r) else is_sim r) (primary_runners x) in
        if any own mine
        then record { on = true; since = some x.now }
        else record { on = false; since = none }

    unfoldable pub shed_of : Lane → Shed
    unfolding shed_step first_shed
    shed_of k =
        shed_step x.config x.now (at_cap k) (cap_for k) (free_for k)
          (or_else (at_lane x.prev.shed k) (first_shed k))

    unfoldable pub next_shed : Lane → Option Shed
    next_shed k = if cap_of k == 0 then none else some (shed_of k)

    -- `lanesOf`
    unfoldable pub lanes_of : Runner → List Lane
    unfolding lanes_on
    lanes_of r = filter (λ k. is_build k || is_sim r) lanes_on

    unfoldable pub held : Runner → Bool
    held r = primary_blocked x || any (λ k. (shed_of k).on) (lanes_of r)

    unfoldable pub drain_lane : Runner → Option Gate
    drain_lane r =
        if primary_blocked x
        then some admission
        else elim (find? (λ k. (shed_of k).on && at_cap k) (lanes_of r)) [
          | none ↦ none
          | some k ↦ some (lane k)
        ]
