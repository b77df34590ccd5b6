-- ===== src/Admission/CatchUp.antt =====
-- An agent's backlog gets through (dashboard/lib/admission-ship.js).
use actions_runners.Prelude.{List, [], suc, zero, ℕ, ◌∷◌}
use actions_runners.Admission.Beat.{answered}
use actions_runners.Admission.Sent.{Action, beaten}

-- Heartbeats that are answered.
abbrev pub answers_in_row : ℕ → List Action
answers_in_row zero = []
answers_in_row (suc n) = beaten answered ∷ answers_in_row n
