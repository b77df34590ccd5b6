-- ===== src/Tiers/Standby.antt =====
-- The loops of the tiers controller (dashboard/lib/tiers.js) over the standby hosts' runners.
use actions_runners.Prelude.{
  All, All-append, Bool, Bool-cases, List, Option-cases, String, [], false, if◌then◌else◌, inl, inr,
  true, ◌∷◌, ◌≢◌,
}
use actions_runners.Runner.{Runner, has_drain}
use actions_runners.Tiers.Types.{
  Action, Input, Tier, is_off, of_floor, of_overflow, of_primary, of_sole, operator_drained, own,
}
use actions_runners.Tiers.Groups.{floor_runners, overflow_runners, sole_runners}
use actions_runners.Tiers.Moves.{
  Move, Work, ask, covering, floor_move, host_blocked, is_done, is_pending, leave, obey, obey_all,
  overflow_move, put_off, resume_if_own, standby_work, want, want_online,
}

-- The loops over the standby hosts' runners ask nothing of the primary's tier.
abbrev pub Standby : Action → Type 0
Standby a = a.tier ≢ of_primary

abbrev pub StandbyMove : Move → Type 0
StandbyMove (ask v tier why) = tier ≢ of_primary
StandbyMove leave = Unit {0}
StandbyMove (put_off why) = Unit {0}

obey_all-Standby :
    (move : Work → Runner → Move) (rs : List Runner) (w : Work)
    → ((v : Work) (r : Runner) → StandbyMove (move v r))
    → All Standby w.actions
    → All Standby (obey_all move rs w).actions
unfolding obey_all obey want
obey_all-Standby move [] w k h = h
obey_all-Standby move (r ∷ rs) w k h = obey_all-Standby move rs _ k (one r (move w r) (k w r) w h)
  where
    one :
        (r : Runner) (m : Move)
        → StandbyMove m
        → (w : Work) → All Standby w.actions
        → All Standby (obey r m w).actions
    one r leave k w h = h
    one r (put_off why) k w h = h
    one r (ask v tier why) k w h = elim (Bool-cases (is_done v r)) [
      | inl d ↦ rw d h
      | inr d ↦ rw d (elim (Bool-cases (is_pending v r.name w.pending)) [
        | inl p ↦ rw p h
        | inr p ↦ rw p (All-append Standby w.actions _ h (k, tt))
      ])
    ]

if-Standby :
    (b : Bool) (m n : Move) → StandbyMove m → StandbyMove n → StandbyMove (if b then m else n)
if-Standby true m n h k = h
if-Standby false m n h k = k

module _ (lower : String → String) (glob : String → String → Bool) (x : Input) where
  floor-Standby :
      (tier : Tier) (r : Runner) → tier ≢ of_primary → StandbyMove (floor_move lower glob x tier r)
  unfolding floor_move
  floor-Standby tier r n =
      if-Standby (operator_drained r) _ _ tt (elim (Option-cases (host_blocked lower glob x r)) [
        | inl e ↦ rw e resumed
        | inr (b, e) ↦ rw e (if-Standby (is_off x.config.mode) _ _ resumed n)
      ])
    where
      resumed : StandbyMove (resume_if_own lower glob x tier r)
      resumed = if-Standby (own r) _ _ n tt

  overflow-Standby : (r : Runner) → StandbyMove (overflow_move lower glob x r)
  unfolding overflow_move
  overflow-Standby r = if-Standby (operator_drained r) _ _ tt (
      if-Standby (is_off x.config.mode) _ _ (if-Standby (own r) _ _ differ tt) (
        if-Standby (want_online lower glob x r) _ _ (if-Standby (own r) _ _ differ tt)
          (if-Standby (has_drain r) _ _ tt (if-Standby (covering lower glob x r) _ _ tt differ))))
    where
      differ : of_overflow ≢ of_primary
      differ e = cc

  pub standby_work-Standby : All Standby (standby_work lower glob x).actions
  unfolding standby_work
  standby_work-Standby =
      obey_all-Standby (λ w r. overflow_move lower glob x r) (overflow_runners lower x) _
        (λ v r. overflow-Standby r)
        (obey_all-Standby (λ w r. floor_move lower glob x of_sole r) (sole_runners lower x) _
          (λ v r. floor-Standby of_sole r (λ e. cc))
          (obey_all-Standby (λ w r. floor_move lower glob x of_floor r) (floor_runners lower x) _
            (λ v r. floor-Standby of_floor r (λ e. cc)) tt))
