-- ===== src/Autoscale/Examples.antt =====
-- A queue that a repo's only runner cannot serve, a duplicate that has been idle, and the theorems
-- on the plans at them. Labels are in lower case, so `lower` is the identity.
use actions_runners.Prelude.{
  List, String, [], false, lookup, none, refl, some, sort, true, ◌∷◌, ◌≡◌,
}
use actions_runners.Runner.{Runner, idle_runner}
use actions_runners.Labels.{Run, key_of}
use actions_runners.Autoscale.Types.{default_limits}
use actions_runners.Autoscale.ScaleUp.{
  SizingRow, UpInput, act, build, cause_allows, clone_pool, clone_source, consider, consider_since,
  duplicate_of, last_up_of, oldest, plan_scale_up, queued_since, queued_under, resolve_scale_mode,
  role_is_new, scale_of, stay, sustained,
}
use actions_runners.Autoscale.ScaleDown.{
  Idle, down_skip, idle_for, idle_of, plan_scale_down, remove, remove_reason,
}
use actions_runners.Autoscale.Down.{Sound, scale_down-Sound}
use actions_runners.Autoscale.Up.{UpSound, plan_scale_up-UpSound}

abbrev waiting_run : Run
waiting_run = record {
  id = 7;
  repo = "o/app";
  status = "queued";
  at = some 1000;
  created_at = none;
  jobs = record { tag = "1"; status = "queued"; labels = "self-hosted" ∷ "macos" ∷ [] } ∷ [];
}

abbrev short_row : SizingRow
short_row = record {
  repo = "o/app";
  role = none;
  have = 1;
  want = 3;
  delta = 2;
  unserved = false;
  p90 = 3;
}

abbrev waiting_input : UpInput
waiting_input = record {
  sizing = short_row ∷ [];
  capacity_ok = true;
  runners = idle_runner ∷ [];
  active = waiting_run ∷ [];
  last_up = λ k. none;
  last_up_repo = λ r. none;
  limits = default_limits;
  now = 2000000;
  causes = none;
  revalidate = false;
}

-- The repo's runner is copied, and one of the two wanted is left.
copies :
    plan_scale_up (λ s. s) waiting_input
    ≡ act
        ((
          record {
            register = false;
            first_runner = false;
            name = some "mac-1";
            repo = "o/app";
            role = none;
            extra_labels = [];
          },
          sustained,
          1,
        )
          ∷ [])
        1
unfolding plan_scale_up sort consider queued_since oldest queued_under key_of consider_since
    scale_of resolve_scale_mode last_up_of cause_allows build clone_source clone_pool duplicate_of
    role_is_new
copies = refl

-- Ten minutes after the first addition nothing is added: the cooldown is half an hour.
cooling_down :
    plan_scale_up (λ s. s) (record waiting_input { last_up_repo = λ r. some 1400000 }) ≡ stay
unfolding plan_scale_up sort consider queued_since oldest queued_under key_of consider_since
    scale_of resolve_scale_mode last_up_of
cooling_down = refl

plan_scale_up-UpSound_example :
    UpSound (λ s. s) waiting_input (plan_scale_up (λ s. s) waiting_input)
plan_scale_up-UpSound_example = plan_scale_up-UpSound (λ s. s) waiting_input

abbrev second_runner : Runner
second_runner = record idle_runner { name = "mac-2"; instance_no = 2 }

abbrev idle_long : List (String × Idle)
idle_long = ("mac-2", record { last_job_at = some 1000; age_ms = 50000000 }) ∷ []

removes :
    plan_scale_down (idle_runner ∷ second_runner ∷ []) [] idle_long default_limits 40000000
    ≡ remove "mac-2" "o/app" (idle_for 39999000)
unfolding plan_scale_down sort down_skip idle_of lookup remove_reason
removes = refl

scale_down-Sound_example :
    Sound 40000000 default_limits.idle_ttl_ms [] idle_long
      (idle_runner ∷ second_runner ∷ [])
      (plan_scale_down (idle_runner ∷ second_runner ∷ []) [] idle_long default_limits 40000000)
scale_down-Sound_example =
    scale_down-Sound (idle_runner ∷ second_runner ∷ []) [] idle_long default_limits 40000000
