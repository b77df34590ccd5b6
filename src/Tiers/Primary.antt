-- ===== src/Tiers/Primary.antt =====
-- What the tiers controller (dashboard/lib/tiers.js) asks of the primary host's own runners: shedding,
-- parking, and the metered release of parked runners.
use actions_runners.Prelude.{
  Bool, List, Option, String, [], all, any, false, filter, find?, first, if◌then◌else◌, insert,
  is_some, lookup, ltb, min, none, not, some, str_eq, true, ℕ, ◌&&◌, ◌+◌, ◌-◌, ◌||◌, ◌∷◌,
}
use actions_runners.Runner.{Runner, has_drain, is_busy, is_online}
use actions_runners.Tiers.Types.{
  Gate, Input, Lane, Lanes, Request, admission, at_lane, below_cap, drain, is_build, is_off, lane,
  no_online_twin, no_twin, of_primary, operator_drained, own, parked_for, repo_primary_only, resume,
  self_drain_disabled, shed_for, slot_free, switched_off,
}
use actions_runners.Tiers.Lanes.{
  cap_of, drain_lane, free_for, held, lane_busy, lanes_of, primary_blocked, primary_runners,
}
use actions_runners.Tiers.Groups.{
  job_fits, oldest_first, repo_in, servable, standby_runners, usable_host,
}
use actions_runners.Tiers.Moves.{
  Move, Work, ask, is_pending, leave, obey_all, put_off, standby_work,
}
use actions_runners.NightCap.Slots.{covers}

-- The runs that were given a slot, by runner, and how many slots of each lane are spent. The source
-- counts the slots down, below 0 where more is spent than there was.
pub record Release : Type 0 where
  pub slotted : List (String × ℕ)
  pub spent : Lanes ℕ

module _ (lower : String → String) (glob : String → String → Bool) (x : Input) where
  -- `twinFor`, with the runners that are on their way out.
  unfoldable pub twin_for : List String → Runner → Option Runner
  unfolding covers
  twin_for leaving p =
      find?
        (λ r.
          str_eq r.repo p.repo
          && covers lower r.labels p.labels
          && is_online r
          && not (has_drain r)
          && not (any (str_eq r.name) leaving)
          && usable_host lower x r.host_id)
        (standby_runners lower x)

  abbrev pub self_drain : Bool
  self_drain = x.config.self_drain && not (is_off x.config.mode)

  abbrev pub park : Bool
  park = self_drain && x.config.park

  abbrev pub pinned : Runner → Bool
  pinned p = repo_in p.repo x.config.primary_only_repos

  -- `twinOf`
  unfoldable pub twin_of : List String → Runner → Option Runner
  unfolding twin_for
  twin_of leaving p = if pinned p then none else twin_for leaving p

  -- `slots`, before any is spent.
  unfoldable pub slots_of : Lane → ℕ
  slots_of k = if primary_blocked x then 0 else cap_of glob x k - lane_busy glob x k

  unfoldable pub spend : Runner → Lanes ℕ → Lanes ℕ
  spend r s = record {
    of_build = if any is_build (lanes_of glob x r) then s.of_build + 1 else s.of_build;
    of_simulator =
        if any (λ k. not (is_build k)) (lanes_of glob x r)
        then s.of_simulator + 1
        else s.of_simulator;
  }

  -- The slots that jobs without a Worker yet have taken.
  unfoldable pub spend_loop : List Runner → Lanes ℕ → Lanes ℕ
  unfolding spend
  spend_loop [] s = s
  spend_loop (r ∷ rs) s =
      spend_loop rs (if r.gh_busy && not r.working_locally then spend r s else s)

  unfoldable pub parkable : List String → Runner → Bool
  parkable leaving r =
      not (operator_drained r)
      && not (is_busy r)
      && not (is_some (twin_of leaving r))
      && (own r || (not (has_drain r) && is_online r))

  -- The runner that a waiting run would get.
  unfoldable pub slot_runner : Work → Release → Request → Option Runner
  unfolding parkable
  slot_runner w s q =
      let fit =
        filter
          (λ r.
            job_fits lower x q r
            && parkable w.draining_now r
            && not (is_some (lookup r.name s.slotted)))
          (primary_runners x) in
      first (find? (λ r. not (has_drain r)) fit)
        (first (find? (λ r. is_pending resume r.name w.pending) fit) (find? (λ r. true) fit))

  abbrev pub has_slots : Lanes ℕ → Runner → Bool
  has_slots spent r = all (λ k. ltb (at_lane spent k) (slots_of k)) (lanes_of glob x r)

  unfoldable pub release_one : Work → Request → Release → Release
  release_one w q s = elim (slot_runner w s q) [
    | none ↦ s
    | some r ↦
        if has_slots s.spent r
        then record { slotted = insert r.name q.id s.slotted; spent = spend r s.spent }
        else s
  ]

  unfoldable pub release_loop : Work → List Request → Release → Release
  unfolding release_one
  release_loop w [] s = s
  release_loop w (q ∷ qs) s = release_loop w qs (release_one w q s)

  -- `slotted` and `slots`
  unfoldable pub release_of : Work → Release
  unfolding release_loop spend_loop
  release_of w =
      let nothing : Lanes ℕ = record { of_build = 0; of_simulator = 0 } in
      if park
      then release_loop w (oldest_first lower x (servable lower x))
          (record { slotted = []; spent = spend_loop (primary_runners x) nothing })
      else record { slotted = []; spent = nothing }

  -- The shortest time for which a lane of the runner has had room.
  unfoldable pub least_free : List Lane → Option ℕ
  least_free [] = none
  least_free (k ∷ ks) = elim (least_free ks) [
    | none ↦ some (free_for glob x k)
    | some n ↦ some (min (free_for glob x k) n)
  ]

  -- A runner that this controller drained.
  unfoldable pub own_move : List (String × ℕ) → Option Runner → Runner → Move
  own_move slotted twin p =
      if not self_drain
      then ask resume of_primary
          (if is_off x.config.mode then switched_off else self_drain_disabled)
      else if not park && pinned p
      then ask resume of_primary repo_primary_only
      else if not park && not (is_some twin)
      then ask resume of_primary no_twin
      else if not (held glob x p)
      then ask resume of_primary (below_cap (least_free (lanes_of glob x p)))
      else if is_some twin
      then leave
      else elim (lookup p.name slotted) [
        | none ↦ leave
        | some run ↦ ask resume of_primary (slot_free run)
      ]

  abbrev pub is_admission : Gate → Bool
  is_admission admission = true
  is_admission (lane k) = false

  -- A runner that nobody drained, whose lane says `gate`.
  unfoldable pub online_move : Option Runner → Runner → Gate → Move
  online_move twin p gate =
      if not self_drain || (not park && pinned p) || has_drain p
      then leave
      else if (is_busy p && not (is_admission gate)) || not (is_online p)
      then leave
      else if is_some twin
      then ask drain of_primary (shed_for gate)
      else if park
      then ask drain of_primary (parked_for gate)
      else put_off no_online_twin

  -- The loop over the primary's runners.
  unfoldable pub primary_move : List (String × ℕ) → Work → Runner → Move
  primary_move slotted w p =
      let twin = if park then twin_of w.draining_now p else twin_for w.draining_now p in
      if operator_drained p
      then leave
      else if own p
      then own_move slotted twin p
      else elim (drain_lane glob x p) [ none ↦ leave | some gate ↦ online_move twin p gate ]

  unfoldable pub all_work : Work
  unfolding release_of primary_move obey_all standby_work
  all_work =
      let w = standby_work lower glob x in
      obey_all (primary_move (release_of w).slotted) (primary_runners x) w
