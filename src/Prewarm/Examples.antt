-- ===== src/Prewarm/Examples.antt =====
-- A burst that is expected in half an hour.
use actions_runners.Prelude.{
  All, [], arith, false, inl, lookup, none, place, refl, some, sort, true, ◌∷◌, ◌≡◌,
}
use actions_runners.Runner.{idle_runner}
use actions_runners.Prewarm.Types.{Candidate, Input, Prediction, RepoPeak, act}
use actions_runners.Prewarm.Plan.{
  before, candidate_of, choose, clone_source, judge, judge_source, passes, plan_prewarm, predict,
  repo_loop, scan,
}
use actions_runners.Prewarm.Sound.{Worth}
use actions_runners.Prewarm.Best.{found, plan_prewarm-Best}
use actions_runners.Prewarm.Acts.{plan_prewarm_acts}

abbrev burst : RepoPeak
burst = record { repo = "o/app"; expected_peak = 3; evidence = none; source = none }

abbrev soon : Prediction
soon = record { confidence = "high"; window_start = 5000000; repos = burst ∷ [] }

abbrev quiet_fleet : Input
quiet_fleet = record {
  enabled = true;
  predictions = soon ∷ [];
  gate = some (record { passed = true; reasons = [] });
  runners = idle_runner ∷ [];
  active = [];
  last_prewarm = [];
  now = 4000000;
  lead_ms = 3600000;
  cooldown_ms = 3600000;
  min_confidence = "medium";
  cap = 4;
}

abbrev wanted : Candidate
wanted = candidate_of quiet_fleet soon burst 1 idle_runner

copies_mac : plan_prewarm quiet_fleet ≡ act "mac-1" "o/app" 1 wanted
unfolding plan_prewarm scan predict repo_loop judge judge_source clone_source sort place choose
    lookup
copies_mac = refl

plan_prewarm-Best_example :
    (quiet_fleet.enabled ≡ true)
    × (passes quiet_fleet.gate ≡ true)
    × (wanted.source.name ≡ "mac-1")
    × (wanted.repo ≡ "o/app")
    × (wanted.deficit ≡ 1)
    × Worth quiet_fleet wanted
    × All (λ b. before b wanted ≡ false) (found quiet_fleet)
plan_prewarm-Best_example =
    plan_prewarm-Best quiet_fleet {name = "mac-1"} {repo = "o/app"} {d = 1} {c = wanted} copies_mac

plan_prewarm_acts_example :
    (c : Candidate) × (plan_prewarm quiet_fleet ≡ act c.source.name c.repo c.deficit c)
unfolding lookup
plan_prewarm_acts_example =
    plan_prewarm_acts quiet_fleet soon burst refl refl (inl refl) (refl, omega arith, omega arith)
      (inl refl) (omega arith, omega arith, refl, omega arith)
      (refl, (idle_runner, inl refl, refl, refl))
