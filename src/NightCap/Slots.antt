-- ===== src/NightCap/Slots.antt =====
-- How `decideNightCap` (dashboard/lib/night-cap.js) gives its free slots to queued jobs.
use actions_runners.Prelude.{
  Bool, List, Option, String, [], all, any, filter, find?, first, insert, is_some, lookup, ltb, map,
  none, not, some, sort, str_eq, suc, zero, ℕ, ◌&&◌, ◌∷◌,
}
use actions_runners.Runner.{Runner, has_drain, is_online}
use actions_runners.NightCap.Types.{
  Job, Pending, is_pending, is_runner_cause, own, parkable, resume,
}

-- The slots given so far: a runner's name and the key of its job.
abbrev pub Slots : Type 0
Slots = List (String × String)

module _ (lower : String → String) where
  -- `covers`
  unfoldable pub covers : List String → List String → Bool
  covers have need = all (λ l. any (str_eq (lower l)) (map lower have)) need

  unfoldable pub fits : Job → Runner → Bool
  unfolding covers
  fits q r = str_eq r.repo q.repo && covers r.labels q.labels

  -- `waiting`: the jobs that a runner of ours could take, oldest first.
  unfoldable pub waiting : List Runner → List Job → List Job
  waiting ours jobs =
      sort (λ a b. ltb b.queued_since_ms a.queued_since_ms)
        (filter (λ q. is_runner_cause q.cause && any (fits q) ours) jobs)

  -- `fit`: the runners of ours that could take the job and have no slot yet.
  unfoldable pub candidates : List Runner → Slots → Job → List Runner
  candidates ours slotted q =
      filter (λ r. fits q r && parkable r && not (is_some (lookup r.name slotted))) ours

  -- The runner that the loop over `waiting` picks for one job: one that is online, else one that is
  -- being resumed, else one that the cap parked.
  unfoldable pub choose : Pending → List Runner → Slots → Job → Option Runner
  choose p ours slotted q =
      let fit = candidates ours slotted q in
      first (find? (λ r. not (has_drain r) && is_online r) fit)
        (first (find? (λ r. is_pending resume r.name p) fit) (find? own fit))

  -- The loop over `waiting`, with `left` slots to give.
  unfoldable pub give : Pending → List Runner → ℕ → Slots → List Job → Slots
  give p ours left slotted [] = slotted
  give p ours zero slotted (q ∷ qs) = slotted
  give p ours (suc left) slotted (q ∷ qs) = elim (choose p ours slotted q) [
    | none ↦ give p ours (suc left) slotted qs
    | some r ↦ give p ours left (insert r.name q.key slotted) qs
  ]
