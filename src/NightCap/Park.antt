-- ===== src/NightCap/Park.antt =====
-- What `decideNightCap` (dashboard/lib/night-cap.js) asks of each runner.
use actions_runners.Prelude.{
  Bool, List, [], any, erase, filter, if◌then◌else◌, lookup, ltb, map, none, not, some, str_eq, ℕ,
  ◌&&◌, ◌==◌, ◌∷◌,
}
use actions_runners.Runner.{Runner, is_busy, is_online}
use actions_runners.NightCap.Types.{
  Config, Job, Reason, Work, drain, others, over_cap, own, parked_by_cap, resume, slot_free, want,
}
use actions_runners.NightCap.Slots.{Slots}

-- Outside the window, or with the cap off: every runner that it parked comes back.
unfoldable pub release : Reason → List Runner → Work → Work
unfolding want
release why [] w = w
release why (r ∷ rs) w = release why rs (if own r then want r resume why w else w)

-- A round of the last loop, for a runner that got no slot.
unfoldable pub park_unslotted : Config → ℕ → Runner → Work → Work
unfolding want
park_unslotted c busy r (p, acts) =
    if is_busy r
    then (if ltb c.max_busy busy && r.working_locally && not (own r)
        then want r drain (over_cap busy c.max_busy) (p, acts)
        else (p, acts))
    else if own r
    then (erase r.name p, acts)
    else if is_online r
    then want r drain (parked_by_cap c.max_busy) (p, acts)
    else (p, acts)

-- A round of the last loop.
unfoldable pub park_one : Config → ℕ → Slots → Runner → Work → Work
unfolding want park_unslotted
park_one c busy slotted r w = if others r then w else elim (lookup r.name slotted) [
  | some key ↦ if own r then want r resume (slot_free key) w else w
  | none ↦ park_unslotted c busy r w
]

unfoldable pub park : Config → ℕ → Slots → List Runner → Work → Work
park c busy slotted [] w = w
park c busy slotted (r ∷ rs) w = park c busy slotted rs (park_one c busy slotted r w)

-- `held`: the runs of the waiting jobs that got no slot, without repeats.
unfoldable pub unique_ids : List ℕ → List ℕ
unique_ids [] = []
unique_ids (x ∷ xs) = x ∷ filter (λ y. not (y == x)) (unique_ids xs)

abbrev pub has_slot : Slots → Job → Bool
has_slot slotted q = any (λ e. str_eq e.1 q.key) slotted

unfoldable pub held_runs : Slots → List Job → List ℕ
held_runs slotted ws = unique_ids (map (λ q. q.run_id) (filter (λ q. not (has_slot slotted q)) ws))
