-- ===== src/Tiers/Decide.antt =====
-- One step of the tiers controller: `decideTiers` (dashboard/lib/tiers.js).
use actions_runners.Prelude.{
  Bool, List, Option, String, [], false, filter, if◌then◌else◌, insert, is_nil, length, none, not,
  some, sort, str_eq, str_lt, unique, ℕ, ◌&&◌, ◌++◌, ◌-◌, ◌||◌, ◌∷◌,
}
use actions_runners.Runner.{Runner, has_drain, is_online}
use actions_runners.Tiers.Types.{
  Action, Blocked, Input, Later, Mode, Pending, Phase, State, Tier, Trigger, build, host_is_off,
  is_active, is_enforce, is_off, not_reporting, of_floor, of_overflow, of_primary, of_sole,
  operator_drained, own, simulator,
}
use actions_runners.Tiers.Lanes.{
  admit_of, blocked_why, next_at_cap, next_free, next_shed, primary_runners,
}
use actions_runners.Tiers.Groups.{
  floor_runners, host_info, overflow_runners, reachable, sole_names, sole_runners, wake,
}
use actions_runners.Tiers.Phase.{phase_after, quiet, quiet_for, quiet_since, triggers}
use actions_runners.Tiers.Moves.{standby_work}
use actions_runners.Tiers.Primary.{Release, all_work, park, release_of}

-- What a decision says of a group of runners.
pub record Count : Type 0 where
  pub total : ℕ
  pub online : ℕ
  pub drained_by_tiers : ℕ
  pub drained_by_operator : ℕ

unfoldable pub count : List Runner → Count
count rs = record {
  total = length rs;
  online = length (filter (λ r. not (has_drain r) && is_online r) rs);
  drained_by_tiers = length (filter own rs);
  drained_by_operator = length (filter operator_drained rs);
}

-- Less what it repeats for display of the lanes and the hosts.
pub record Decision : Type 0 where
  pub mode : Mode
  pub ts : ℕ
  pub phase : Phase
  pub triggers : List Trigger
  pub quiet_for : ℕ
  pub drain_in : Option ℕ
  pub primary_cannot_admit : Option Blocked
  pub counts : List (Tier × Count)
  pub release : Option Release
  pub sole : List String
  pub wake : List (String × ℕ)
  pub actions : List Action
  pub applied : Bool
  pub deferred : List (String × Later)

-- The entries of the actions that are sent.
unfoldable pub note_sent : ℕ → List Action → Pending → Pending
note_sent now [] p = p
note_sent now (a ∷ acts) p =
    note_sent now acts (insert a.name (record { verb = a.verb; at = now }) p)

module _ (lower : String → String) (glob : String → String → Bool) (x : Input) where
  abbrev pub is_primary : Action → Bool
  is_primary a = str_eq a.host_id x.primary.id

  unfoldable pub host_off : Action → Bool
  host_off a =
      if is_primary a
      then x.primary.off
      else elim (host_info lower x a.host_id) [ none ↦ false | some h ↦ h.off ]

  unfoldable pub host_reached : Action → Bool
  host_reached a =
      is_primary a
      || elim (host_info lower x a.host_id) [ none ↦ false | some h ↦ reachable lower x h ]

  -- `issued`: an off host is sent nothing, nor one that does not report.
  unfoldable pub issued_of : List Action → List Action
  unfolding host_off host_reached
  issued_of acts = filter (λ a. not (host_off a) && host_reached a) acts

  unfoldable pub put_off_of : List Action → List (String × Later)
  unfolding host_off host_reached
  put_off_of [] = []
  put_off_of (a ∷ acts) =
      if host_off a
      then (a.name, host_is_off) ∷ put_off_of acts
      else if host_reached a
      then put_off_of acts
      else (a.name, not_reporting) ∷ put_off_of acts

  abbrev pub sorted_sole : List String
  sorted_sole = sort str_lt (unique (sole_names lower x))

  -- `decideTiers`
  unfoldable pub decide_tiers : State × Decision
  unfolding all_work issued_of put_off_of note_sent
  decide_tiers =
      let w = all_work lower glob x in
      let issued = issued_of w.actions in
      let is_acting = is_enforce x.config.mode || is_off x.config.mode in
      (
        record {
          phase = some (phase_after lower glob x);
          at_cap_since = record {
            of_build = next_at_cap glob x build;
            of_simulator = next_at_cap glob x simulator;
          };
          free_since = record {
            of_build = next_free glob x build;
            of_simulator = next_free glob x simulator;
          };
          quiet_since = quiet_since lower glob x;
          shed = record {
            of_build = next_shed glob x build;
            of_simulator = next_shed glob x simulator;
          };
          admit = admit_of x;
          pending = if is_acting then note_sent x.now issued w.pending else w.pending;
          sole = sorted_sole;
        },
        record {
          mode = x.config.mode;
          ts = x.now;
          phase = phase_after lower glob x;
          triggers = triggers lower glob x;
          quiet_for = quiet_for lower glob x;
          drain_in =
              if is_active (phase_after lower glob x).overflow && quiet lower glob x
              then some (x.config.drain_after_quiet_ms - quiet_for lower glob x)
              else none;
          primary_cannot_admit = blocked_why x x.primary.id;
          counts =
              (of_floor, count (floor_runners lower x))
              ∷ (of_sole, count (sole_runners lower x))
              ∷ (of_overflow, count (overflow_runners lower x))
              ∷ (of_primary, count (primary_runners x))
              ∷ [];
          release =
              if park lower glob x
              then some (release_of lower glob x (standby_work lower glob x))
              else none;
          sole = sorted_sole;
          wake = wake lower x;
          actions = issued;
          applied = is_enforce x.config.mode || (is_off x.config.mode && not (is_nil issued));
          deferred = w.deferred ++ put_off_of w.actions;
        },
      )
