-- ===== src/Runner.antt =====
-- A runner of the fleet: the objects that `buildRunners` pushes (dashboard/lib/state.js), with the
-- fields that the fleet view adds to them (dashboard/lib/placement.js, dashboard/lib/fleet.js).
use actions_runners.Prelude.{
  ℕ, String, Bool, true, false, ◌&&◌, ◌||◌, not, Option, none, some, List, [], ◌∷◌, is_some,
  is_text,
}

-- The states of a `.drain` marker; `none` is a runner with no marker.
pub data Drain : Type 0 where
  draining drained : Drain

pub data LaunchdState : Type 0 where
  not_loaded running dead : LaunchdState

-- `local` is `r.local !== false`.
pub record Runner : Type 0 where
  pub name : String
  pub repo : String
  pub dir_name : Option String
  pub instance_no : ℕ
  pub launchd_state : LaunchdState
  pub drain_state : Option Drain
  pub drain_by : Option String
  pub working_locally : Bool
  pub gh_unknown : Bool
  pub gh_status : Option String
  pub gh_busy : Bool
  pub labels : List String
  pub extra_labels : List String
  pub ephemeral : Bool
  pub host_id : String
  pub host_off : Bool
  pub host_stale : Bool
  pub local : Bool

-- `r.workingLocally || r.ghBusy`
abbrev pub is_busy : Runner → Bool
is_busy r = r.working_locally || r.gh_busy

-- `Boolean(r.drainState)`
abbrev pub has_drain : Runner → Bool
has_drain r = is_some r.drain_state

-- `r.ghStatus === 'online' && !r.ghUnknown`
abbrev pub is_online : Runner → Bool
is_online r = is_text r.gh_status "online" && not r.gh_unknown

abbrev pub is_running : LaunchdState → Bool
is_running running = true
is_running _ = false

abbrev pub is_draining : Option Drain → Bool
is_draining (some draining) = true
is_draining _ = false

-- An online, idle runner with no marker, for the tests.
abbrev pub idle_runner : Runner
idle_runner = record {
  name = "mac-1";
  repo = "o/app";
  dir_name = some "app";
  instance_no = 1;
  launchd_state = running;
  drain_state = none;
  drain_by = none;
  working_locally = false;
  gh_unknown = false;
  gh_status = some "online";
  gh_busy = false;
  labels = "self-hosted" ∷ "macos" ∷ [];
  extra_labels = [];
  ephemeral = false;
  host_id = "ultra";
  host_off = false;
  host_stale = false;
  local = true;
}
