-- ===== src/Tiers/Moves.antt =====
-- What the tiers controller (dashboard/lib/tiers.js) asks of each runner of a standby host. The body of
-- a loop calls `want` at most once, or puts an action off: that is its move.
use actions_runners.Prelude.{
  Bool, List, Option, String, [], any, erase, false, filter, if◌then◌else◌, is_nil, is_some, lookup,
  ltb, map, none, not, or_else, some, str_eq, true, ℕ, ◌&&◌, ◌++◌, ◌+◌, ◌||◌, ◌∷◌,
}
use actions_runners.Runner.{Runner, has_drain}
use actions_runners.Labels.{includes, platform_labels}
use actions_runners.Tiers.Types.{
  Action, Blocked, Host, Input, Later, Pending, Reason, Sent, Tier, Verb, drain, fits_no_other,
  floor_stays_online, host_cannot_start, is_active, is_off, of_floor, of_overflow, of_sole,
  only_runner, operator_drained, own, phase, resume, same_verb, standby_memory, still_covering,
  switched_off,
}
use actions_runners.Tiers.Lanes.{blocked_why, primary_runners}
use actions_runners.Tiers.Groups.{
  critical, floor_runners, host_info, is_woken, overflow_runners, sole_runners, wake,
}
use actions_runners.Tiers.Phase.{phase_after}
use actions_runners.NightCap.Slots.{covers}

pub data Move : Type 0 where
  leave : Move
  ask : Verb → Tier → Reason → Move
  put_off : Later → Move

-- `pending`, `actions`, `deferred` and `drainingNow`.
pub record Work : Type 0 where
  pub pending : Pending
  pub actions : List Action
  pub deferred : List (String × Later)
  pub draining_now : List String

abbrev pub is_done : Verb → Runner → Bool
is_done drain r = own r
is_done resume r = not (has_drain r)

abbrev pub sent_verb : Verb → Option Sent → Bool
sent_verb v none = false
sent_verb v (some s) = same_verb s.verb v

abbrev pub is_pending : Verb → String → Pending → Bool
is_pending v name p = sent_verb v (lookup name p)

abbrev pub is_drain : Verb → Bool
is_drain drain = true
is_drain resume = false

abbrev pub action_of : Runner → Verb → Tier → Reason → Action
action_of r v tier why = record {
  host_id = r.host_id;
  name = r.name;
  dir_name = or_else r.dir_name r.name;
  repo = r.repo;
  verb = v;
  tier = tier;
  reason = why;
}

-- `want`
unfoldable pub want : Runner → Verb → Tier → Reason → Work → Work
want r v tier why w =
    if is_done v r then record w { pending = erase r.name w.pending } else record w {
      draining_now = if is_drain v then w.draining_now ++ (r.name ∷ []) else w.draining_now;
      actions =
          if is_pending v r.name w.pending
          then w.actions
          else w.actions ++ (action_of r v tier why ∷ []);
    }

unfoldable pub obey : Runner → Move → Work → Work
unfolding want
obey r leave w = w
obey r (ask v tier why) w = want r v tier why w
obey r (put_off why) w = record w { deferred = w.deferred ++ ((r.name, why) ∷ []) }

-- A loop over runners, whose move may depend on the work so far.
unfoldable pub obey_all : (Work → Runner → Move) → List Runner → Work → Work
unfolding obey
obey_all move [] w = w
obey_all move (r ∷ rs) w = obey_all move rs (obey r (move w r) w)

-- The entries of the previous step that are younger than `retryMs`.
unfoldable pub recent : ℕ → ℕ → Pending → Pending
recent now retry p = filter (λ e. ltb now (e.1.at + retry)) p

module _ (lower : String → String) (glob : String → String → Bool) (x : Input) where
  abbrev pub name_of : Host → String
  name_of h = or_else h.name h.id

  -- `hostInfo.get(r.hostId)?.cannotAdmit`, with the host's name
  unfoldable pub host_blocked : Runner → Option (String × Blocked)
  host_blocked r = elim (host_info lower x r.host_id) [
    | none ↦ none
    | some h ↦ elim (blocked_why x h.id) [ none ↦ none | some b ↦ some (name_of h, b) ]
  ]

  abbrev pub extra : Runner → List String
  extra r = filter (λ l. not (includes platform_labels l)) (map lower r.labels)

  abbrev pub stays : Tier → Runner → Reason
  stays of_floor r = floor_stays_online
  stays _ r = only_runner (if is_nil (extra r) then map lower r.labels else extra r)

  abbrev pub resume_if_own : Tier → Runner → Move
  resume_if_own tier r = if own r then ask resume tier (stays tier r) else leave

  -- The loop over the floor and sole runners.
  unfoldable pub floor_move : Tier → Runner → Move
  floor_move tier r = if operator_drained r then leave else elim (host_blocked r) [
    | none ↦ resume_if_own tier r
    | some b ↦
        if is_off x.config.mode
        then resume_if_own tier r
        else ask drain tier (host_cannot_start b.0 b.1)
  ]

  unfoldable pub host_critical : Runner → Bool
  host_critical r = elim (host_info lower x r.host_id) [
    | none ↦ false
    | some h ↦ critical lower x h
  ]

  -- `wantOnline`
  unfoldable pub want_online : Runner → Bool
  want_online r =
      (is_active (phase_after lower glob x).overflow || is_woken lower x r)
      && not (host_critical r)
      && not (is_some (host_blocked r))

  unfoldable pub covering : Runner → Bool
  unfolding covers
  covering r =
      not (is_some (host_blocked r))
      && any (λ p. own p && str_eq p.repo r.repo && covers lower r.labels p.labels)
          (primary_runners x)

  abbrev pub resume_reason : Runner → Reason
  resume_reason r =
      if is_active (phase_after lower glob x).overflow
      then phase (phase_after lower glob x).reason
      else fits_no_other (or_else (lookup r.name (wake lower x)) 0)

  abbrev pub drain_reason : Runner → Reason
  drain_reason r = elim (host_blocked r) [
    | some b ↦ host_cannot_start b.0 b.1
    | none ↦ if host_critical r then standby_memory else phase (phase_after lower glob x).reason
  ]

  -- The loop over the overflow runners.
  unfoldable pub overflow_move : Runner → Move
  overflow_move r =
      if operator_drained r
      then leave
      else if is_off x.config.mode
      then (if own r then ask resume of_overflow switched_off else leave)
      else if want_online r
      then (if own r then ask resume of_overflow (resume_reason r) else leave)
      else if has_drain r
      then leave
      else if covering r
      then put_off still_covering
      else ask drain of_overflow (drain_reason r)

  -- The work after the loops over the standby hosts' runners.
  unfoldable pub standby_work : Work
  unfolding obey_all floor_move overflow_move
  standby_work =
      obey_all (λ w r. overflow_move r) (overflow_runners lower x)
        (obey_all (λ w r. floor_move of_sole r) (sole_runners lower x)
          (obey_all (λ w r. floor_move of_floor r) (floor_runners lower x)
            (record {
              pending = recent x.now x.config.retry_ms x.prev.pending;
              actions = [];
              deferred = [];
              draining_now = [];
            })))
