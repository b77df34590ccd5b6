-- ===== src/TickGuard.antt =====
-- dashboard/lib/tick-guard.js: a periodic task that neither overlaps itself nor stops for good.
-- A tick object is its record with a number for its identity. Times are milliseconds, and
-- `now - t < d` is written `now < t + d`. A promise that settles is the event `settles`.
pub mod Bounds
pub mod Spacing
pub mod Recovery
mod Examples
use actions_runners.Prelude.{
  ℕ, suc, ◌+◌, ◌-◌, ◌*◌, ◌/◌, String, Bool, true, false, not, Option, none, some, List, [], ◌∷◌,
  ◌++◌, length, filter, any, ltb, leb, ◌==◌, if◌then◌else◌,
}

-- The arguments of the constructor.
pub record Config : Type 0 where
  pub deadline_ms : ℕ
  pub abandon_ms : ℕ
  pub max_abandoned : ℕ

-- The defaults: `abandonMs = deadlineMs * 2, maxAbandoned = 3`.
unfoldable pub default_config : ℕ → Config
default_config deadline = record {
  deadline_ms = deadline;
  abandon_ms = deadline * 2;
  max_abandoned = 3;
}

pub record Progress : Type 0 where
  pub stage : Option String
  pub stage_since : ℕ

pub record Tick : Type 0 where
  pub id : ℕ
  pub started_at : ℕ
  pub progress : Progress

pub record Guard : Type 0 where
  pub current : Option Tick
  pub abandoned : List Tick
  pub abandoned_total : ℕ
  pub next_id : ℕ

unfoldable pub new_guard : Guard
new_guard = record { current = none; abandoned = []; abandoned_total = 0; next_id = 0 }

-- `Math.round(ms / 1000)`
abbrev pub seconds : ℕ → ℕ
seconds ms = (ms + 500) / 1000

pub data Place : Type 0 where
  before_first_stage : Place
  in_stage : String → ℕ → Place

-- `where(tick)`
unfoldable pub place_of : ℕ → Tick → Place
place_of now t = elim t.progress.stage [
  | none ↦ before_first_stage
  | some name ↦ in_stage name (seconds (now - t.progress.stage_since))
]

-- One constructor for each text that the guard warns with.
pub data Warning : Type 0 where
  overlap : ℕ → Place → Warning
  stuck : ℕ → ℕ → Place → Warning
  abandoning : ℕ → Place → Warning
  finished_late : ℕ → Warning
  exceeded : ℕ → Place → Warning
  failed : String → Warning

pub data Outcome : Type 0 where
  ran skipped refused : Outcome

pub record Result : Type 0 where
  pub guard : Guard
  pub outcome : Outcome
  pub warnings : List Warning

-- The second half of `run`: a fresh tick becomes the current one.
unfoldable pub launch : ℕ → Guard → List Warning → Result
launch now g ws = record {
  guard = record g {
    current = some (record {
      id = g.next_id;
      started_at = now;
      progress = record { stage = none; stage_since = 0 };
    });
    next_id = suc g.next_id;
  };
  outcome = ran;
  warnings = ws;
}

-- `run` up to the race: what it does when a tick is current, and when none is.
unfoldable pub run_over : Config → ℕ → Guard → Option Tick → Result
unfolding launch place_of
run_over c now g none = launch now g []
run_over c now g (some t) =
    let age = seconds (now - t.started_at) in
    if ltb now (t.started_at + c.abandon_ms)
    then record { guard = g; outcome = skipped; warnings = overlap age (place_of now t) ∷ [] }
    else if leb c.max_abandoned (length g.abandoned)
    then record {
      guard = g;
      outcome = refused;
      warnings = stuck (length g.abandoned) age (place_of now t) ∷ [];
    }
    else launch now
        (record g {
          current = none;
          abandoned = g.abandoned ++ (t ∷ []);
          abandoned_total = suc g.abandoned_total;
        })
        (abandoning age (place_of now t) ∷ [])

unfoldable pub run : Config → ℕ → Guard → Result
unfolding run_over
run c now g = run_over c now g g.current

abbrev pub has_id : ℕ → Tick → Bool
has_id i t = t.id == i

-- `if (this.current === tick) this.current = null`
unfoldable pub clear_current : ℕ → Option Tick → Option Tick
clear_current i none = none
clear_current i (some t) = if t.id == i then none else some t

-- The `finally` of a tick that settles: it leaves `current` or `abandoned`.
unfoldable pub settle : ℕ → Tick → Guard → Guard × List Warning
unfolding clear_current
settle now t g = (
  record g {
    current = clear_current t.id g.current;
    abandoned = filter (λ x. not (has_id t.id x)) g.abandoned;
  },
  if any (has_id t.id) g.abandoned then finished_late (seconds (now - t.started_at)) ∷ [] else [],
)

-- The `catch` of the race: the deadline passed, or the tick threw.
unfoldable pub overran : Config → ℕ → Tick → Warning
unfolding place_of
overran c now t = exceeded c.deadline_ms (place_of now t)

-- `stage(progress, name)`
unfoldable pub stage : ℕ → String → Progress → Progress
stage now name p = record { stage = some name; stage_since = now }

-- `state()`
pub record Report : Type 0 where
  pub running : Option (ℕ × Option String)
  pub abandoned_pending : ℕ
  pub abandoned_total : ℕ

abbrev running_report : ℕ → Option Tick → Option (ℕ × Option String)
running_report now none = none
running_report now (some t) = some (now - t.started_at, t.progress.stage)

unfoldable pub report : ℕ → Guard → Report
report now g = record {
  running = running_report now g.current;
  abandoned_pending = length g.abandoned;
  abandoned_total = g.abandoned_total;
}
