-- ===== src/Prewarm/Types.antt =====
-- The forecast, the fleet and the answer of planPrewarm (dashboard/lib/prewarm.js).
use actions_runners.Prelude.{Bool, List, Option, String, ℕ}
use actions_runners.Runner.{Runner}

pub record RepoPeak : Type 0 where
  pub repo : String
  pub expected_peak : ℕ
  pub evidence : Option String
  pub source : Option String

pub record Prediction : Type 0 where
  pub confidence : String
  pub window_start : ℕ
  pub repos : List RepoPeak

pub record Gate : Type 0 where
  pub passed : Bool
  pub reasons : List String

pub record Active : Type 0 where
  pub repo : String
  pub status : String

pub record Input : Type 0 where
  pub enabled : Bool
  pub predictions : List Prediction
  pub gate : Option Gate
  pub runners : List Runner
  pub active : List Active
  pub last_prewarm : List (String × ℕ)
  pub now : ℕ
  pub lead_ms : ℕ
  pub cooldown_ms : ℕ
  pub min_confidence : String
  pub cap : ℕ

-- The sentences of `blocked`.
pub data Blocked : Type 0 where
  already_started : ℕ → Blocked
  too_far : ℕ → ℕ → Blocked
  peak_is_met : String → ℕ → ℕ → Blocked
  at_repo_cap : String → ℕ → Blocked
  no_source : String → Blocked
  has_work : String → Blocked
  prewarmed_at : String → ℕ → Blocked

pub record Candidate : Type 0 where
  pub repo : String
  pub source : Runner
  pub deficit : ℕ
  pub expected_peak : ℕ
  pub window_start : ℕ
  pub confidence : String
  pub evidence : String

-- The reasons for doing nothing. Without reasons of its own a gate `failed []` is "not passed".
pub data Quiet : Type 0 where
  disabled : Quiet
  gate_failed : List String → Quiet
  no_repos : Quiet
  all_blocked : List Blocked → Quiet

-- The name and repository of the runner to copy, the deficit, and the candidate of the sentence.
pub data Plan : Type 0 where
  stay : Quiet → Plan
  act : String → String → ℕ → Candidate → Plan
