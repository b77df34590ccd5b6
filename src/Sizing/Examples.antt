-- ===== src/Sizing/Examples.antt =====
-- A repo with two roles and a cap of four, and the theorem on the cap at it.
use actions_runners.Prelude.{
  Bool, String, [], false, filter, length, map, min, none, refl, sort, str_eq, true, ℕ, ◌-◌, ◌∷◌,
  ◌≡◌,
}
use actions_runners.Runner.{Runner, idle_runner}
use actions_runners.Labels.{Run, key_of, role_label}
use actions_runners.Sizing.{Input, delta, of_repo, rows, size_fleet, total}
use actions_runners.Sizing.Cap.{size_fleet_cap}

abbrev ci_runner : Runner
ci_runner = record idle_runner { name = "mac-2"; extra_labels = "ci" ∷ [] }

abbrev ci_run : ℕ → Run
ci_run i = record {
  id = i;
  repo = "o/app";
  status = "queued";
  at = none;
  created_at = none;
  jobs = record { tag = "1"; status = "queued"; labels = "self-hosted" ∷ "ci" ∷ [] } ∷ [];
}

abbrev plain_run : ℕ → Run
plain_run i = record {
  id = i;
  repo = "o/app";
  status = "queued";
  at = none;
  created_at = none;
  jobs = record { tag = "1"; status = "queued"; labels = "self-hosted" ∷ [] } ∷ [];
}

abbrev two_roles : Input
two_roles = record {
  runners = idle_runner ∷ ci_runner ∷ [];
  active = ci_run 1 ∷ ci_run 2 ∷ plain_run 3 ∷ [];
  measured = λ r. none;
  cap = 4;
  include_unserved = true;
}

abbrev no_order : String → String → Bool
no_order s t = false

-- Three additions are asked for, and the cap leaves two: both go to the role that waits most.
granted : map (λ r. r.want) (size_fleet (λ s. s) no_order two_roles) ≡ 3 ∷ 1 ∷ []
unfolding size_fleet sort role_label key_of
granted = refl

size_fleet_cap_example :
    total delta (filter (of_repo "o/app") (size_fleet (λ s. s) no_order two_roles))
    ≡ min
        (total delta (filter (of_repo "o/app") (rows (λ s. s) two_roles)))
        (4 - length (filter (λ r. str_eq r.repo "o/app") two_roles.runners))
size_fleet_cap_example = size_fleet_cap (λ s. s) no_order two_roles "o/app"
