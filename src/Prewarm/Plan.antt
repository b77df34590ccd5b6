-- ===== src/Prewarm/Plan.antt =====
-- planPrewarm (dashboard/lib/prewarm.js).
use actions_runners.Prelude.{
  Bool, List, Option, String, [], any, false, filter, find?, first, if◌then◌else◌, leb, length,
  lookup, ltb, min, none, not, or_else, some, sort, str_eq, true, ℕ, ◌&&◌, ◌++◌, ◌+◌, ◌-◌, ◌==◌,
  ◌||◌, ◌∷◌,
}
use actions_runners.Runner.{Runner, has_drain, is_busy}
use actions_runners.Prewarm.Types.{
  Active, Blocked, Candidate, Gate, Input, Plan, Prediction, Quiet, RepoPeak, act, all_blocked,
  already_started, at_repo_cap, disabled, gate_failed, has_work, no_repos, no_source, peak_is_met,
  prewarmed_at, stay, too_far,
}

-- `CONF_RANK`
abbrev pub rank : String → Option ℕ
rank s =
    if str_eq s "high"
    then some 2
    else if str_eq s "medium"
    then some 1
    else if str_eq s "low"
    then some 0
    else none

abbrev pub confidence_meets : String → String → Bool
confidence_meets c least = leb (or_else (rank least) 1) (or_else (rank c) 0)

abbrev pub repo_runners : List Runner → String → List Runner
repo_runners rs repo = filter (λ r. str_eq r.repo repo) rs

unfoldable pub clone_source : List Runner → Option Runner
clone_source siblings =
    let pool = filter (λ r. not (has_drain r)) siblings in
    first (find? (λ r. not (is_busy r)) pool) (find? (λ r. true) pool)

abbrev pub has_active_work : List Active → String → Bool
has_active_work active repo =
    any (λ a. str_eq a.repo repo && (str_eq a.status "queued" || str_eq a.status "in_progress"))
      active

-- What the loop makes of a repository.
pub data Judged : Type 0 where
  skipped : Judged
  blocked : Blocked → Judged
  candidate : Candidate → Judged

abbrev pub last_of : Input → String → ℕ
last_of x repo = or_else (lookup repo x.last_prewarm) 0

abbrev pub candidate_of : Input → Prediction → RepoPeak → ℕ → Runner → Candidate
candidate_of x p q have source = record {
  repo = q.repo;
  source = source;
  deficit = min (q.expected_peak - have - 1) (x.cap - have - 1);
  expected_peak = q.expected_peak;
  window_start = p.window_start;
  confidence = p.confidence;
  evidence = or_else (first q.evidence q.source) "forecast";
}

-- The part of the loop's body after the source is known.
unfoldable pub judge_source : Input → Prediction → RepoPeak → ℕ → Runner → Judged
judge_source x p q have source =
    if has_active_work x.active q.repo
    then blocked (has_work q.repo)
    else if ltb x.now (last_of x q.repo + x.cooldown_ms)
    then blocked (prewarmed_at q.repo (last_of x q.repo))
    else candidate (candidate_of x p q have source)

abbrev pub judge_clone : Input → Prediction → RepoPeak → ℕ → Option Runner → Judged
judge_clone x p q have none = blocked (no_source q.repo)
judge_clone x p q have (some r) = judge_source x p q have r

-- The body of the loop over a prediction's repositories.
unfoldable pub judge : Input → Prediction → RepoPeak → Judged
unfolding judge_source clone_source
judge x p q =
    let siblings = repo_runners x.runners q.repo in
    let have = length siblings in
    if str_eq q.repo "" || q.expected_peak == 0
    then skipped
    else if leb q.expected_peak have
    then blocked (peak_is_met q.repo q.expected_peak have)
    else if leb x.cap have
    then blocked (at_repo_cap q.repo x.cap)
    else judge_clone x p q have (clone_source siblings)

pub record Scan : Type 0 where
  pub held : List Blocked
  pub candidates : List Candidate

abbrev pub note : Judged → Scan → Scan
note skipped s = s
note (blocked b) s = record s { held = s.held ++ (b ∷ []) }
note (candidate c) s = record s { candidates = s.candidates ++ (c ∷ []) }

unfoldable pub repo_loop : Input → Prediction → List RepoPeak → Scan → Scan
unfolding judge
repo_loop x p [] s = s
repo_loop x p (q ∷ qs) s = repo_loop x p qs (note (judge x p q) s)

-- The body of the loop over the predictions.
unfoldable pub predict : Input → Prediction → Scan → Scan
unfolding repo_loop
predict x p s =
    if not (confidence_meets p.confidence x.min_confidence)
    then s
    else if leb p.window_start x.now
    then note (blocked (already_started p.window_start)) s
    else if ltb (x.now + x.lead_ms) p.window_start
    then note (blocked (too_far p.window_start (p.window_start - x.now))) s
    else repo_loop x p p.repos s

unfoldable pub scan : Input → List Prediction → Scan → Scan
unfolding predict
scan x [] s = s
scan x (p ∷ ps) s = scan x ps (predict x p s)

-- The order of `candidates`.
abbrev pub before : Candidate → Candidate → Bool
before a b =
    ltb b.deficit a.deficit || (a.deficit == b.deficit && ltb a.window_start b.window_start)

abbrev pub quiet_of : List Blocked → Quiet
quiet_of [] = no_repos
quiet_of held = all_blocked held

unfoldable pub choose : Scan → List Candidate → Plan
choose s [] = stay (quiet_of s.held)
choose s (c ∷ cs) = act c.source.name c.repo c.deficit c

-- `gate?.passed`
abbrev pub passes : Option Gate → Bool
passes none = false
passes (some g) = g.passed

abbrev pub gate_reasons : Option Gate → List String
gate_reasons none = []
gate_reasons (some g) = g.reasons

-- `planPrewarm`
unfoldable pub plan_prewarm : Input → Plan
unfolding scan choose
plan_prewarm x =
    let s = scan x x.predictions (record { held = []; candidates = [] }) in
    if not x.enabled
    then stay disabled
    else if not (passes x.gate)
    then stay (gate_failed (gate_reasons x.gate))
    else choose s (sort before s.candidates)
