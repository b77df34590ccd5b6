-- ===== src/Tiers/Types.antt =====
-- The settings, hosts, queue and state of the tiers controller (dashboard/lib/tiers.js).
use actions_runners.Prelude.{
  Bool, List, Option, String, [], false, is_text, none, not, true, ℕ, ◌&&◌,
}
use actions_runners.Runner.{Runner, has_drain}

-- `TIER_MODES`
pub data Mode : Type 0 where
  off observe enforce : Mode

abbrev pub is_off : Mode → Bool
is_off off = true
is_off _ = false

abbrev pub is_enforce : Mode → Bool
is_enforce enforce = true
is_enforce _ = false

-- `DRAIN_OWNER`
abbrev pub drain_owner : String
drain_owner = "tiers"

pub record Config : Type 0 where
  pub mode : Mode
  pub floor_repos : List String
  pub primary_only_repos : List String
  pub resume_after_busy_ms : ℕ
  pub queue_age_ms : ℕ
  pub drain_after_quiet_ms : ℕ
  pub primary_stale_ms : ℕ
  pub command_stale_ms : ℕ
  pub self_drain : Bool
  pub park : Bool
  pub self_drain_after_ms : ℕ
  pub self_resume_after_ms : ℕ
  pub self_min_hold_ms : ℕ
  pub self_min_open_ms : ℕ
  pub admit_resume_after_ms : ℕ
  pub retry_ms : ℕ
  pub build_cap : ℕ
  pub simulator_cap : ℕ
  pub simulator_runners : List String

-- `TIERS_DEFAULTS`
abbrev pub defaults : Config
defaults = record {
  mode = off;
  floor_repos = [];
  primary_only_repos = [];
  resume_after_busy_ms = 60000;
  queue_age_ms = 120000;
  drain_after_quiet_ms = 600000;
  primary_stale_ms = 180000;
  command_stale_ms = 120000;
  self_drain = true;
  park = true;
  self_drain_after_ms = 60000;
  self_resume_after_ms = 300000;
  self_min_hold_ms = 600000;
  self_min_open_ms = 300000;
  admit_resume_after_ms = 300000;
  retry_ms = 180000;
  build_cap = 3;
  simulator_cap = 0;
  simulator_runners = [];
}

-- The primary or a standby host, as it reported; `last_heartbeat` is 0 if it never did, and
-- `cannot_admit` is the reason of a blocker.
pub record Host : Type 0 where
  pub id : String
  pub name : Option String
  pub last_heartbeat : ℕ
  pub mem_pressure : Option String
  pub rungs : List String
  pub off : Bool
  pub cannot_admit : Option String

-- A queued run.
pub record Request : Type 0 where
  pub id : ℕ
  pub repo : String
  pub labels : List String
  pub queued_since_ms : ℕ
  pub cause : Option String

pub data Lane : Type 0 where
  build simulator : Lane

abbrev pub is_build : Lane → Bool
is_build build = true
is_build simulator = false

-- A pair of values, one for each lane.
pub record Lanes (A : Type 0) : Type 0 where
  pub of_build : A
  pub of_simulator : A

abbrev pub at_lane : {A : Type 0} → Lanes A → Lane → A
at_lane ls build = ls.of_build
at_lane ls simulator = ls.of_simulator

-- Whether a lane's idle runners are drained, and when that last changed.
pub record Shed : Type 0 where
  pub on : Bool
  pub since : Option ℕ

-- Whether a host cannot admit: `clear_since` is when it stopped saying so.
pub record Admit : Type 0 where
  pub on : Bool
  pub since : Option ℕ
  pub clear_since : Option ℕ
  pub reason : String

-- `blockedWhy`: the reason, and for how long it has been clear.
pub record Blocked : Type 0 where
  pub reason : String
  pub clear_for : Option ℕ

pub data Verb : Type 0 where
  drain resume : Verb

abbrev pub same_verb : Verb → Verb → Bool
same_verb drain drain = true
same_verb resume resume = true
same_verb _ _ = false

pub record Sent : Type 0 where
  pub verb : Verb
  pub at : ℕ

abbrev pub Pending : Type 0
Pending = List (String × Sent)

-- What a primary runner is drained for.
pub data Gate : Type 0 where
  admission : Gate
  lane : Lane → Gate

pub data Trigger : Type 0 where
  primary_down : Option ℕ → Trigger
  primary_off : Trigger
  primary_rung : String → Trigger
  primary_memory_critical : Trigger
  primary_cannot_admit : Blocked → Trigger
  primary_at_cap : Lane → ℕ → ℕ → ℕ → Trigger
  queue_age : List ℕ → Trigger

-- The state of the overflow tier, and why it is so.
pub data Overflow : Type 0 where
  active standby : Overflow

abbrev pub is_active : Overflow → Bool
is_active active = true
is_active standby = false

pub data Because : Type 0 where
  online_at_start : Because
  drained_at_start : Because
  woken : List Trigger → Because
  had_headroom : ℕ → Because

pub record Phase : Type 0 where
  pub overflow : Overflow
  pub since : ℕ
  pub reason : Because

-- The reasons of actions.
pub data Reason : Type 0 where
  host_cannot_start : String → Blocked → Reason
  floor_stays_online : Reason
  only_runner : List String → Reason
  switched_off : Reason
  phase : Because → Reason
  fits_no_other : ℕ → Reason
  standby_memory : Reason
  self_drain_disabled : Reason
  repo_primary_only : Reason
  no_twin : Reason
  below_cap : Option ℕ → Reason
  slot_free : ℕ → Reason
  parked_for : Gate → Reason
  shed_for : Gate → Reason

pub data Tier : Type 0 where
  of_floor of_sole of_overflow of_primary : Tier

pub record Action : Type 0 where
  pub host_id : String
  pub name : String
  pub dir_name : String
  pub repo : String
  pub verb : Verb
  pub tier : Tier
  pub reason : Reason

-- Why an action is put off.
pub data Later : Type 0 where
  still_covering : Later
  no_online_twin : Later
  host_is_off : Later
  not_reporting : Later

-- What the controller carries from step to step; `none` is what the first step finds.
pub record State : Type 0 where
  pub phase : Option Phase
  pub at_cap_since : Lanes (Option ℕ)
  pub free_since : Lanes (Option ℕ)
  pub quiet_since : Option ℕ
  pub shed : Lanes (Option Shed)
  pub admit : List (String × Admit)
  pub pending : Pending
  pub sole : List String

abbrev pub start : State
start = record {
  phase = none;
  at_cap_since = record { of_build = none; of_simulator = none };
  free_since = record { of_build = none; of_simulator = none };
  quiet_since = none;
  shed = record { of_build = none; of_simulator = none };
  admit = [];
  pending = [];
  sole = [];
}

pub record Input : Type 0 where
  pub config : Config
  pub now : ℕ
  pub prev : State
  pub primary : Host
  pub standby : List Host
  pub runners : List Runner
  pub queue : List Request

-- `own` and `operatorDrained`: the marker is this controller's, or someone else's.
unfoldable pub own : Runner → Bool
own r = has_drain r && is_text r.drain_by drain_owner

unfoldable pub operator_drained : Runner → Bool
operator_drained r = has_drain r && not (is_text r.drain_by drain_owner)
