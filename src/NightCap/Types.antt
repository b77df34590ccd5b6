-- ===== src/NightCap/Types.antt =====
-- The settings, jobs, actions and pending entries of the night cap (dashboard/lib/night-cap.js).
use actions_runners.Prelude.{
  Bool, List, Option, String, [], any, erase, false, if◌then◌else◌, is_text, lookup, ltb, none, not,
  some, str_eq, true, truthy, ℕ, ◌&&◌, ◌++◌, ◌+◌, ◌∷◌,
}
use actions_runners.Runner.{Runner, has_drain, is_busy}

-- `NIGHT_CAP_MODES`
pub data Mode : Type 0 where
  off observe enforce : Mode

abbrev pub is_off : Mode → Bool
is_off off = true
is_off _ = false

abbrev pub is_enforce : Mode → Bool
is_enforce enforce = true
is_enforce _ = false

-- `NIGHT_CAP_OWNER`
abbrev pub owner : String
owner = "night-cap"

-- The settings; `start` and `end` are minutes after midnight.
pub record Config : Type 0 where
  pub mode : Mode
  pub start : ℕ
  pub end : ℕ
  pub max_busy : ℕ
  pub time_zone : Option String
  pub retry_ms : ℕ

-- `NIGHT_CAP_DEFAULTS`
abbrev pub defaults : Config
defaults = record {
  mode = off;
  start = 1320;
  end = 360;
  max_busy = 2;
  time_zone = none;
  retry_ms = 180000;
}

-- A queued job, as `queuedJobs` lists it.
pub record Job : Type 0 where
  pub key : String
  pub run_id : ℕ
  pub repo : String
  pub labels : List String
  pub queued_since_ms : ℕ
  pub cause : Option String

pub data Verb : Type 0 where
  drain resume : Verb

abbrev pub same_verb : Verb → Verb → Bool
same_verb drain drain = true
same_verb resume resume = true
same_verb _ _ = false

pub data Reason : Type 0 where
  switched_off : Reason
  window_ended : Reason
  slot_free : String → Reason
  over_cap : ℕ → ℕ → Reason
  parked_by_cap : ℕ → Reason

pub record Action : Type 0 where
  pub name : String
  pub dir_name : Option String
  pub repo : String
  pub verb : Verb
  pub reason : Reason

-- An action that was sent and may not show yet.
pub record Sent : Type 0 where
  pub verb : Verb
  pub at : ℕ

abbrev pub Pending : Type 0
Pending = List (String × Sent)

-- `own` and `others`: the marker is this cap's, or someone else's.
unfoldable pub own : Runner → Bool
own r = has_drain r && is_text r.drain_by owner

unfoldable pub others : Runner → Bool
others r = has_drain r && not (is_text r.drain_by owner)

-- `ours`
abbrev pub is_ours : Runner → Bool
is_ours r = not r.ephemeral && truthy r.dir_name

unfoldable pub parkable : Runner → Bool
unfolding others
parkable r = not (others r) && not (is_busy r)

-- `NOT_RUNNER_CAUSES`
abbrev pub not_runner_causes : List String
not_runner_causes =
    "concurrency-block" ∷ "github-hosted" ∷ "label-mismatch" ∷ "telemetry-unavailable" ∷ []

abbrev pub is_runner_cause : Option String → Bool
is_runner_cause none = true
is_runner_cause (some c) = not (any (str_eq c) not_runner_causes)

-- `pending[name]?.action === verb`
abbrev pub sent_verb : Verb → Option Sent → Bool
sent_verb v none = false
sent_verb v (some s) = same_verb s.verb v

unfoldable pub is_pending : Verb → String → Pending → Bool
is_pending v name p = sent_verb v (lookup name p)

-- The entries of the previous step that are younger than `retryMs`.
unfoldable pub recent : ℕ → ℕ → Pending → Pending
recent now retry [] = []
recent now retry ((name, s) ∷ p) =
    if ltb now (s.at + retry) then (name, s) ∷ recent now retry p else recent now retry p

-- `want`: the actions so far grow at the end, and an entry that has taken effect goes.
abbrev pub Work : Type 0
Work = Pending × List Action

abbrev pub is_done : Verb → Runner → Bool
is_done drain r = own r
is_done resume r = not (has_drain r)

abbrev pub action_of : Runner → Verb → Reason → Action
action_of r v why = record {
  name = r.name;
  dir_name = r.dir_name;
  repo = r.repo;
  verb = v;
  reason = why;
}

unfoldable pub want : Runner → Verb → Reason → Work → Work
want r v why (p, acts) =
    if is_done v r
    then (erase r.name p, acts)
    else if is_pending v r.name p
    then (p, acts)
    else (p, acts ++ (action_of r v why ∷ []))
