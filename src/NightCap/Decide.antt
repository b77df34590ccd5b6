-- ===== src/NightCap/Decide.antt =====
-- One step of the night cap: `decideNightCap` (dashboard/lib/night-cap.js).
use actions_runners.Prelude.{
  Bool, List, Option, String, [], filter, if◌then◌else◌, insert, length, ltb, map, not, sort, ℕ,
  ◌&&◌, ◌-◌, ◌||◌, ◌∷◌,
}
use actions_runners.Runner.{Runner, is_busy}
use actions_runners.NightCap.Types.{
  Action, Config, Job, Mode, Pending, Reason, Work, is_enforce, is_off, is_ours, own, recent,
  switched_off, window_ended,
}
use actions_runners.NightCap.Slots.{Slots, give, waiting}
use actions_runners.NightCap.Park.{held_runs, park, release}

-- The window as `nightWindow` gives it.
pub record Window : Type 0 where
  pub active : Bool
  pub starts_at : Option ℕ
  pub ends_at : Option ℕ

pub record Decision : Type 0 where
  pub mode : Mode
  pub ts : ℕ
  pub active : Bool
  pub in_window : Bool
  pub max_busy : ℕ
  pub busy : ℕ
  pub slots : ℕ
  pub starts_at : Option ℕ
  pub ends_at : Option ℕ
  pub parked : ℕ
  pub held : List ℕ
  pub slotted : Slots
  pub actions : List Action
  pub applied : Bool
  pub deferred : List String

-- The input of a step.
pub record Input : Type 0 where
  pub config : Config
  pub window : Window
  pub now : ℕ
  pub pending : Pending
  pub host_off : Bool
  pub runners : List Runner
  pub jobs : List Job

abbrev pub ours_of : Input → List Runner
ours_of x = filter is_ours x.runners

abbrev pub busy_of : Input → ℕ
busy_of x = length (filter is_busy x.runners)

abbrev pub is_capping : Input → Bool
is_capping x = not (is_off x.config.mode) && x.window.active

abbrev pub pending_of : Input → Pending
pending_of x = recent x.now x.config.retry_ms x.pending

abbrev pub slots_of : Input → ℕ
slots_of x = if is_capping x then x.config.max_busy - busy_of x else 0

-- `why`, outside the window
abbrev pub release_reason : Input → Reason
release_reason x = if is_off x.config.mode then switched_off else window_ended

-- `if (applied) for (const a of issued) pending[a.name] = { action, at: now }`
unfoldable pub note_sent : ℕ → List Action → Pending → Pending
note_sent now [] p = p
note_sent now (a ∷ acts) p =
    note_sent now acts (insert a.name (record { verb = a.verb; at = now }) p)

module _ (lower : String → String) where
  unfoldable pub waiting_of : Input → List Job
  waiting_of x = if is_capping x then waiting lower (ours_of x) x.jobs else []

  unfoldable pub slotted_of : Input → Slots
  slotted_of x = give lower (pending_of x) (ours_of x) (slots_of x) [] (waiting_of x)

  -- The actions and the pending entries, before the host's switch is looked at.
  unfoldable pub work_of : Input → Work
  work_of x =
      if is_capping x
      then park x.config (busy_of x) (slotted_of x) (ours_of x) (pending_of x, [])
      else release (release_reason x) (ours_of x) (pending_of x, [])

  -- `issued`: nothing is sent while the host is switched off.
  unfoldable pub issued_of : Input → List Action
  unfolding work_of
  issued_of x = if x.host_off then [] else (work_of x).1

  -- `applied`
  unfoldable pub applied_of : Input → Bool
  applied_of x = is_enforce x.config.mode || (is_off x.config.mode && ltb 0 (length (issued_of x)))

  -- `decideNightCap`: the pending entries of the new state, and the decision.
  unfoldable pub decide : Input → Pending × Decision
  decide x = (
    if applied_of x then note_sent x.now (issued_of x) (work_of x).0 else (work_of x).0,
    record {
      mode = x.config.mode;
      ts = x.now;
      active = is_capping x;
      in_window = x.window.active;
      max_busy = x.config.max_busy;
      busy = busy_of x;
      slots = slots_of x;
      starts_at = x.window.starts_at;
      ends_at = x.window.ends_at;
      parked = length (filter own (ours_of x));
      held = sort ltb (held_runs (slotted_of x) (waiting_of x));
      slotted = slotted_of x;
      actions = issued_of x;
      applied = applied_of x;
      deferred = if x.host_off then map (λ a. a.name) (work_of x).1 else [];
    },
  )
