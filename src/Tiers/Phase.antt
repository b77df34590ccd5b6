-- ===== src/Tiers/Phase.antt =====
-- When the tiers controller (dashboard/lib/tiers.js) brings the overflow tier online and sends it back.
use actions_runners.Prelude.{
  Bool, List, Option, String, [], any, filter, if◌then◌else◌, is_nil, leb, ltb, map, none, not,
  or_else, some, str_eq, ℕ, ◌&&◌, ◌++◌, ◌+◌, ◌-◌, ◌==◌, ◌∷◌,
}
use actions_runners.Runner.{has_drain}
use actions_runners.Tiers.Types.{
  Input, Lane, Phase, Trigger, active, drained_at_start, had_headroom, is_active, online_at_start,
  primary_at_cap, primary_cannot_admit, primary_down, primary_memory_critical, primary_off,
  primary_rung, queue_age, standby, woken,
}
use actions_runners.Tiers.Lanes.{
  at_cap, blocked_why, cap_for, cap_of, lane_busy, lanes_on, running_for, running_since,
}
use actions_runners.Tiers.Groups.{critical, overflow_runners, stuck, tier_queue, usable_host}

-- `UNFIT_RUNGS`
abbrev pub unfit_rungs : List String
unfit_rungs = "host-down" ∷ "disk-floor" ∷ "dead-service" ∷ "saturated" ∷ []

-- `if (test) triggers.push(trigger)`
abbrev pub push_if : Bool → Trigger → List Trigger
push_if b t = if b then t ∷ [] else []

module _ (lower : String → String) (glob : String → String → Bool) (x : Input) where
  unfoldable pub down_triggers : List Trigger
  down_triggers =
      if x.primary.last_heartbeat == 0
      then primary_down none ∷ []
      else push_if (ltb (x.primary.last_heartbeat + x.config.primary_stale_ms) x.now)
          (primary_down (some (x.now - x.primary.last_heartbeat)))

  unfoldable pub blocked_triggers : List Trigger
  blocked_triggers = elim (blocked_why x x.primary.id) [
    | none ↦ []
    | some b ↦ primary_cannot_admit b ∷ []
  ]

  unfoldable pub lane_triggers : List Lane → List Trigger
  lane_triggers [] = []
  lane_triggers (k ∷ ks) =
      push_if (at_cap glob x k && leb x.config.resume_after_busy_ms (cap_for glob x k))
        (primary_at_cap k (lane_busy glob x k) (cap_of glob x k) (cap_for glob x k))
      ++ lane_triggers ks

  unfoldable pub triggers : List Trigger
  unfolding down_triggers blocked_triggers lane_triggers
  triggers =
      down_triggers
      ++ (push_if x.primary.off primary_off
          ++ (map primary_rung (filter (λ g. any (str_eq g) unfit_rungs) x.primary.rungs)
              ++ (push_if (critical lower x x.primary) primary_memory_critical
                  ++ (blocked_triggers
                      ++ (lane_triggers (lanes_on glob x)
                          ++ push_if (not (is_nil (stuck lower x)))
                              (queue_age (map (λ q. q.id) (stuck lower x))))))))

  unfoldable pub quiet : Bool
  unfolding triggers
  quiet =
      not (any (at_cap glob x) (lanes_on glob x)) && is_nil (tier_queue lower x) && is_nil triggers

  abbrev pub quiet_since : Option ℕ
  quiet_since = running_since quiet x.now x.prev.quiet_since

  abbrev pub quiet_for : ℕ
  quiet_for = running_for quiet x.now x.prev.quiet_since

  -- The tier as the step finds it.
  unfoldable pub phase_before : Phase
  phase_before = or_else x.prev.phase (
      if any (λ r. not (has_drain r)) (overflow_runners lower x)
      then record { overflow = active; since = x.now; reason = online_at_start }
      else record { overflow = standby; since = x.now; reason = drained_at_start })

  abbrev pub any_usable : Bool
  any_usable = any (λ h. usable_host lower x h.id) x.standby

  -- The tier as the step leaves it.
  unfoldable pub phase_after : Phase
  unfolding phase_before quiet
  phase_after =
      if not (is_nil triggers)
      then (if not (is_active phase_before.overflow) && any_usable
          then record { overflow = active; since = x.now; reason = woken triggers }
          else phase_before)
      else if is_active phase_before.overflow
          && quiet
          && leb x.config.drain_after_quiet_ms quiet_for
      then record { overflow = standby; since = x.now; reason = had_headroom quiet_for }
      else phase_before
