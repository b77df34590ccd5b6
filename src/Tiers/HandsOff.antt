-- ===== src/Tiers/HandsOff.antt =====
-- Which runners the tiers controller (dashboard/lib/tiers.js) acts on, and why.
use actions_runners.Prelude.{
  All, All-In, All-append, All-of, Bool, Bool-cases, In, In-filter, List, String, [], arith, false,
  inl, inr, not, refl, true, ◌&&◌, ◌∷◌, ◌≡◌,
}
use actions_runners.Runner.{Runner}
use actions_runners.Tiers.Types.{Action, Input, of_floor, of_sole}
use actions_runners.Tiers.Lanes.{primary_runners}
use actions_runners.Tiers.Groups.{
  floor_runners, not_floor, overflow_runners, sole_runners, standby_runners,
}
use actions_runners.Tiers.Moves.{
  Move, Work, ask, is_done, is_pending, leave, obey, obey_all, put_off, standby_work, want,
}
use actions_runners.Tiers.Primary.{all_work}
use actions_runners.Tiers.Decide.{decide_tiers, host_off, host_reached, issued_of}
use actions_runners.Tiers.Allowed.{
  Allowed, MoveAllowed, floor_allowed, overflow_allowed, primary_allowed,
}

module _ (lower : String → String) (glob : String → String → Bool) (x : Input) where
  -- The action is for a runner of the fleet that it may be for.
  abbrev pub Justified : Action → Type 0
  Justified a =
      (r : Runner) × In r x.runners
      × (r.ephemeral ≡ false)
      × (r.name ≡ a.name)
      × (r.host_id ≡ a.host_id)
      × Allowed lower glob x a.verb a.tier r

  obey-Justified :
      (r : Runner) (m : Move) (w : Work)
      → In r x.runners
      → r.ephemeral ≡ false
      → MoveAllowed lower glob x r m
      → All Justified w.actions
      → All Justified (obey r m w).actions
  unfolding obey want
  obey-Justified r leave w i e k h = h
  obey-Justified r (put_off why) w i e k h = h
  obey-Justified r (ask v tier why) w i e (inl d) h = rw d h
  obey-Justified r (ask v tier why) w i e (inr k) h = elim (Bool-cases (is_done v r)) [
    | inl d ↦ rw d h
    | inr d ↦ rw d (elim (Bool-cases (is_pending v r.name w.pending)) [
      | inl p ↦ rw p h
      | inr p ↦ rw p (All-append Justified w.actions _ h ((r, i, e, refl, refl, k), tt))
    ])
  ]

  obey_all-Justified :
      (move : Work → Runner → Move) (rs : List Runner) (w : Work)
      → ((w : Work) (r : Runner)
          → In r rs
          → In r x.runners × (r.ephemeral ≡ false) × MoveAllowed lower glob x r (move w r))
      → All Justified w.actions
      → All Justified (obey_all move rs w).actions
  unfolding obey_all
  obey_all-Justified move [] w k h = h
  obey_all-Justified move (r ∷ rs) w k h =
      let (i, e, m) = k w r (inl refl) in
      obey_all-Justified move rs (obey r (move w r) w) (λ v s j. k v s (inr j))
        (obey-Justified r (move w r) w i e m h)

  standby_In :
      (r : Runner) → In r (standby_runners lower x) → In r x.runners × (r.ephemeral ≡ false)
  unfolding standby_runners
  standby_In r i = let (j, t) = In-filter _ r x.runners i in (j, ground arith)

  primary_In : (r : Runner) → In r (primary_runners x) → In r x.runners × (r.ephemeral ≡ false)
  unfolding primary_runners
  primary_In r i = let (j, t) = In-filter _ r x.runners i in (j, ground arith)

  not_floor-In : (r : Runner) → In r (not_floor lower x) → In r x.runners × (r.ephemeral ≡ false)
  unfolding not_floor
  not_floor-In r i = standby_In r (In-filter _ r (standby_runners lower x) i).0

  all-Justified : All Justified (all_work lower glob x).actions
  unfolding all_work standby_work floor_runners sole_runners overflow_runners
  all-Justified =
      obey_all-Justified _ (primary_runners x) _
        (λ w r i. let (j, e) = primary_In r i in (j, e, primary_allowed lower glob x _ w r i))
        (obey_all-Justified _ (overflow_runners lower x) _
          (λ w r i.
            let (j, e) = not_floor-In r (In-filter _ r (not_floor lower x) i).0 in
            (j, e, overflow_allowed lower glob x r i))
          (obey_all-Justified _ (sole_runners lower x) _
            (λ w r i.
              let (j, e) = not_floor-In r (In-filter _ r (not_floor lower x) i).0 in
              (j, e, floor_allowed lower glob x of_sole r (λ b. (i, b))))
            (obey_all-Justified _ (floor_runners lower x) _
              (λ w r i.
                let (j, e) = standby_In r (In-filter _ r (standby_runners lower x) i).0 in
                (j, e, floor_allowed lower glob x of_floor r (λ b. (i, b))))
              tt)))

-- Every action that a step issues is for a host that is not switched off and, but for the primary,
-- reports, and for a runner of the fleet that is not ephemeral. A resume is for a runner that the
-- controller drained itself. A drain is for a runner without a marker, with the controller not off;
-- a floor or sole runner's host cannot admit; an overflow runner is not wanted online and, if its host
-- can admit, covers the labels of no primary runner of its repository that the controller drained
-- itself; a primary runner is online, and either the primary cannot admit or the runner is idle and a lane that sheds is at its cap.
pub decide_tiers_hands_off :
    (lower : String → String) (glob : String → String → Bool) (x : Input)
    → All
        (λ a.
          (host_off lower glob x a ≡ false)
          × (host_reached lower glob x a ≡ true)
          × Justified lower glob x a)
        (decide_tiers lower glob x).1.actions
unfolding decide_tiers issued_of
decide_tiers_hands_off lower glob x = All-of _ _ (λ a i.
    let (j, t) = In-filter _ a (all_work lower glob x).actions i in
    let (m, n) = both (host_off lower glob x a) (host_reached lower glob x a) t in
    (m, n, All-In (Justified lower glob x) a _ (all-Justified lower glob x) j))
  where
    both : (b d : Bool) → (not b && d) ≡ true → (b ≡ false) × (d ≡ true)
    both b d h = ground arith
