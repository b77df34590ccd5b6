-- ===== src/Placement/Examples.antt =====
-- A full host, an idle one and one that was not heard of, and the theorem on placement at them.
-- Labels are in lower case, so `lower` is the identity.
use actions_runners.Prelude.{
  Bool, List, Option, String, [], false, none, refl, some, sort, true, ℕ, ◌∷◌, ◌≡◌,
}
use actions_runners.Placement.{
  Host, Placement, Wish, choose_placement, chosen, free_slots, nowhere, refusal,
}
use actions_runners.Placement.Best.{Best, choose_placement-Best}

abbrev host_with : String → ℕ → ℕ → Host
host_with name heard runners = record {
  id = none;
  name = some name;
  drained = false;
  last_heartbeat = heard;
  room = some (record { ok = true; max_total_runners = some 32; reasons = [] });
  labels = "macos" ∷ "ci" ∷ [];
  repos = [];
  runner_count = runners;
  load_per_core = 500;
}

abbrev three_hosts : List Host
three_hosts = host_with "quiet" 1000 0 ∷ host_with "full" 900000 30 ∷ host_with "idle" 900000 3 ∷ []

abbrev ci_wish : Wish
ci_wish = record { repo = "o/app"; required = "ci" ∷ []; now = 1000000; require_headroom = true }

abbrev by_nothing : String → String → Bool
by_nothing s t = false

-- The name of the host that was chosen.
abbrev chosen_host : Placement → Option String
chosen_host (nowhere considered) = none
chosen_host (chosen c rest considered) = c.host

picks_idle : chosen_host (choose_placement (λ s. s) by_nothing ci_wish three_hosts) ≡ some "idle"
unfolding choose_placement sort refusal free_slots
picks_idle = refl

choose_placement-Best_example :
    Best (λ s. s) ci_wish three_hosts (choose_placement (λ s. s) by_nothing ci_wish three_hosts)
choose_placement-Best_example = choose_placement-Best (λ s. s) by_nothing ci_wish three_hosts
