-- ===== src/Orphans/Examples.antt =====
-- A job whose work passed and whose runner was drained while it completed.
use actions_runners.Prelude.{In, IsSorted, [], ltb, none, refl, some, starts_with, ◌↔◌, ◌∷◌, ◌≡◌}
use actions_runners.Orphans.Classify.{
  Job, Orphan, Row, Run, Step, classify, earliest, find_orphans, is_final, is_suspect, last_open,
  min_stuck_ms, orphan_of,
}
use actions_runners.Orphans.Stuck.{Report, classify-Stuck}
use actions_runners.Orphans.Found.{Reported, find_orphans_iff}

abbrev tested : Step
tested = record {
  name = some "Run tests";
  status = "completed";
  conclusion = some "success";
  started_at = some 1000;
}

abbrev completing : Step
completing = record {
  name = some "Complete job";
  status = "in_progress";
  conclusion = none;
  started_at = some 5000;
}

abbrev lost_job : Job
lost_job = record {
  id = 3;
  run_id = some 7;
  name = some "test";
  status = "in_progress";
  runner_name = some "mac-1";
  html_url = none;
  steps = tested ∷ completing ∷ [];
}

abbrev drained_mac : Row
drained_mac = record { name = "mac-1"; state = "draining" }

abbrev lost_run : Run
lost_run = record { repo = "o/app"; jobs = lost_job ∷ [] }

abbrev lost_orphan : Orphan
unfolding orphan_of
lost_orphan = orphan_of lost_job "o/app" (some drained_mac) 200000 5000

is_lost : classify lost_job "o/app" (some drained_mac) 200000 min_stuck_ms ≡ some lost_orphan
unfolding classify is_suspect is_final starts_with earliest orphan_of last_open
is_lost = refl

classify-Stuck_example : Report lost_job (some drained_mac) 200000 min_stuck_ms lost_orphan
classify-Stuck_example =
    classify-Stuck lost_job "o/app" (some drained_mac) 200000 min_stuck_ms {o = lost_orphan} is_lost

find_orphans_iff_example :
    IsSorted
      (λ a b. ltb a.stuck_since b.stuck_since)
      (find_orphans (lost_run ∷ []) (drained_mac ∷ []) 200000)
    × ((o : Orphan)
        → In o (find_orphans (lost_run ∷ []) (drained_mac ∷ []) 200000)
          ↔ Reported (drained_mac ∷ []) 200000 (lost_run ∷ []) o)
find_orphans_iff_example = find_orphans_iff (lost_run ∷ []) (drained_mac ∷ []) 200000
