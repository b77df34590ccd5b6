-- ===== src/Tiers/Twins.antt =====
-- What stands in for a primary runner that the tiers controller (dashboard/lib/tiers.js) drains.
use actions_runners.Prelude.{
  All, All-In, All-append, All-of, Bool, Bool-cases, In, In-filter, List, Option, Option-cases,
  String, [], any, append-In_left, arith, false, find?-In, if◌then◌else◌, inl, inr, is_some, none,
  not, refl, some, str_eq, str_eq_iff, true, ℕ, ◌&&◌, ◌||◌, ◌∷◌, ◌≡◌, ◌≢◌, ◌⊎◌,
}
use actions_runners.Runner.{Runner, has_drain, is_busy, is_online}
use actions_runners.Tiers.Types.{
  Action, Gate, Input, Tier, Verb, drain, of_floor, of_overflow, of_primary, of_sole,
  operator_drained, own, resume,
}
use actions_runners.Tiers.Lanes.{drain_lane, primary_runners}
use actions_runners.Tiers.Groups.{standby_runners, usable_host}
use actions_runners.Tiers.Moves.{
  Move, Work, ask, is_done, is_pending, leave, obey, obey_all, put_off, standby_work, want,
}
use actions_runners.Tiers.Primary.{
  all_work, is_admission, online_move, own_move, park, pinned, primary_move, release_of, self_drain,
  twin_for, twin_of,
}
use actions_runners.Tiers.Decide.{decide_tiers, issued_of}
use actions_runners.Tiers.Allowed.{no_drain}
use actions_runners.Tiers.Kept.{Keeps, Knows, kept}
use actions_runners.Tiers.Standby.{Standby, standby_work-Standby}
use actions_runners.NightCap.Slots.{covers}

module _ (lower : String → String) (glob : String → String → Bool) (x : Input) where
  -- A standby runner that may take the jobs of a primary runner, now and after the step.
  abbrev pub Twin : String → Type 0
  Twin name =
      (p : Runner) × In p (primary_runners x)
      × (p.name ≡ name)
      × ((t : Runner) × In t (standby_runners lower x)
          × (t.repo ≡ p.repo)
          × (covers lower t.labels p.labels ≡ true)
          × (is_online t ≡ true)
          × (t.drain_state ≡ none)
          × (usable_host lower x t.host_id ≡ true)
          × All (Keeps t.name) (standby_work lower glob x).actions)

  -- A drain of a primary runner has a twin, or is parking.
  abbrev pub Covered : Verb → Tier → String → Type 0
  Covered drain of_primary name = (park lower glob x ≡ true) ⊎ Twin name
  Covered _ _ name = Unit {0}

  abbrev pub Good : Action → Type 0
  Good a = Covered a.verb a.tier a.name

  six :
      (a b d e f g : Bool)
      → (a && b && d && e && f && g) ≡ true
      → (a ≡ true) × (b ≡ true) × (d ≡ true) × (e ≡ true) × (f ≡ true) × (g ≡ true)
  six a b d e f g h = ground arith

  negated : (a : Bool) → not a ≡ true → a ≡ false
  negated a h = ground arith

  twin_for-Twin :
      (names : List String) (p : Runner) {t : Runner}
      → In p (primary_runners x)
      → Knows lower glob x names
      → twin_for lower glob x names p ≡ some t
      → Twin p.name
  unfolding twin_for
  twin_for-Twin names p {t} i sub h =
      let (j, e) =
        find?-In
          (λ r.
            str_eq r.repo p.repo
            && covers lower r.labels p.labels
            && is_online r
            && not (has_drain r)
            && not (any (str_eq r.name) names)
            && usable_host lower x r.host_id)
          (standby_runners lower x) {a = t} h in
      let (m, c, o, d, n, u) =
        six (str_eq t.repo p.repo) (covers lower t.labels p.labels) (is_online t)
          (not (has_drain t)) (not (any (str_eq t.name) names)) (usable_host lower x t.host_id) e in
      (
        p,
        i,
        refl,
        (
          t,
          j,
          (str_eq_iff t.repo p.repo).0 m,
          c,
          o,
          no_drain t (negated (has_drain t) d),
          u,
          kept lower glob x t.name names sub (negated (any (str_eq t.name) names) n),
        ),
      )

  -- Moves of the primary's loop.
  abbrev MoveGood : Runner → Move → Type 0
  MoveGood r (ask v tier why) = Covered v tier r.name
  MoveGood r leave = Unit {0}
  MoveGood r (put_off why) = Unit {0}

  online-Good :
      (twin : Option Runner) (p : Runner) (gate : Gate)
      → (is_some twin ≡ true → (park lower glob x ≡ true) ⊎ Twin p.name)
      → MoveGood p (online_move lower glob x twin p gate)
  unfolding online_move
  online-Good twin p gate k =
      elim (Bool-cases (
        not (self_drain lower glob x)
        || (not (park lower glob x) && pinned lower glob x p)
        || has_drain p)) [
          | inl e ↦ rw e tt
          | inr e ↦
              elim (Bool-cases
                ((is_busy p && not (is_admission lower glob x gate)) || not (is_online p))) [
                  | inl f ↦ rw (e, f) tt
                  | inr f ↦
                      rw (e, f)
                        (elim (Bool-cases (is_some twin)) [
                          | inl t ↦ rw t (k t)
                          | inr t ↦ rw t (elim (Bool-cases (park lower glob x)) [
                            | inl q ↦ rw q (inl q)
                            | inr q ↦ rw q tt
                          ])
                        ])
                ]
        ]

  own-Good :
      (slotted : List (String × ℕ)) (twin : Option Runner) (p : Runner)
      → MoveGood p (own_move lower glob x slotted twin p)
  unfolding own_move
  own-Good slotted twin p = ground arith

  primary-Good :
      (slotted : List (String × ℕ)) (w : Work) (p : Runner)
      → In p (primary_runners x)
      → Knows lower glob x w.draining_now
      → MoveGood p (primary_move lower glob x slotted w p)
  unfolding primary_move
  primary-Good slotted w p i sub = elim (Bool-cases (operator_drained p)) [
    | inl o ↦ rw o tt
    | inr o ↦ elim (Bool-cases (own p)) [
      | inl e ↦ rw (o, e) (own-Good slotted _ p)
      | inr e ↦ elim (Option-cases (drain_lane glob x p)) [
        | inl n ↦ rw (o, e, n) tt
        | inr (gate, n) ↦ rw (o, e, n) (online-Good _ p gate twin)
      ]
    ]
  ]
    where
      some_twin :
          (o : Option Runner)
          → ((t : Runner) → o ≡ some t → Twin p.name)
          → is_some o ≡ true
          → Twin p.name
      some_twin none k h = cc
      some_twin (some t) k h = k t refl

      twin :
          is_some (
              if park lower glob x
              then twin_of lower glob x w.draining_now p
              else twin_for lower glob x w.draining_now p)
            ≡ true
          → (park lower glob x ≡ true) ⊎ Twin p.name
      twin h = elim (Bool-cases (park lower glob x)) [
        | inl e ↦ inl e
        | inr e ↦ inr (
            some_twin (twin_for lower glob x w.draining_now p)
              (λ t g. twin_for-Twin w.draining_now p {t = t} i sub g) (rw e at h))
      ]

  obey-Good :
      (r : Runner) (m : Move) (w : Work)
      → MoveGood r m
      → All Good w.actions
      → All Good (obey r m w).actions
  unfolding obey want
  obey-Good r leave w k h = h
  obey-Good r (put_off why) w k h = h
  obey-Good r (ask v tier why) w k h = elim (Bool-cases (is_done v r)) [
    | inl d ↦ rw d h
    | inr d ↦ rw d (elim (Bool-cases (is_pending v r.name w.pending)) [
      | inl p ↦ rw p h
      | inr p ↦ rw p (All-append Good w.actions _ h (k, tt))
    ])
  ]

  obey-draining :
      (r : Runner) (m : Move) (w : Work) (n : String)
      → In n w.draining_now
      → In n (obey r m w).draining_now
  unfolding obey want
  obey-draining r leave w n i = i
  obey-draining r (put_off why) w n i = i
  obey-draining r (ask resume tier why) w n i = ground arith
  obey-draining r (ask drain tier why) w n i = elim (Bool-cases (own r)) [
    | inl d ↦ rw d i
    | inr d ↦ rw d (append-In_left n w.draining_now (r.name ∷ []) i)
  ]

  obey_all-Good :
      (move : Work → Runner → Move) (rs : List Runner) (w : Work)
      → ((v : Work) (r : Runner)
          → In r rs
          → Knows lower glob x v.draining_now
          → MoveGood r (move v r))
      → Knows lower glob x w.draining_now
      → All Good w.actions
      → All Good (obey_all move rs w).actions
  unfolding obey_all
  obey_all-Good move [] w k sub h = h
  obey_all-Good move (r ∷ rs) w k sub h =
      obey_all-Good move rs (obey r (move w r) w) (λ v s j. k v s (inr j))
        (λ n i. obey-draining r (move w r) w n (sub n i))
        (obey-Good r (move w r) w (k w r (inl refl) sub) h)

  elsewhere : (v : Verb) (tier : Tier) (n : String) → tier ≢ of_primary → Covered v tier n
  elsewhere resume tier n k = tt
  elsewhere drain of_primary n k = absurd (k refl)
  elsewhere drain of_floor n k = tt
  elsewhere drain of_sole n k = tt
  elsewhere drain of_overflow n k = tt

  pub all-Good : All Good (all_work lower glob x).actions
  unfolding all_work
  all-Good =
      let w = standby_work lower glob x in
      obey_all-Good (primary_move lower glob x (release_of lower glob x w).slotted)
        (primary_runners x) w
        (λ v p i sub. primary-Good (release_of lower glob x w).slotted v p i sub) (λ m i. i)
        (All-of Good w.actions (λ a i.
          elsewhere a.verb a.tier a.name
            (All-In Standby a w.actions (standby_work-Standby lower glob x) i)))

-- Unless parking is on, each drain on the primary's tier that a step issues is for the name of a
-- primary runner that has a twin: a standby runner of the same repository that covers its labels, is
-- online and unmarked, whose host can be used, and that no action of the step on the standby hosts
-- drains.
pub decide_tiers_twins :
    (lower : String → String) (glob : String → String → Bool) (x : Input)
    → All (Good lower glob x) (decide_tiers lower glob x).1.actions
unfolding decide_tiers issued_of
decide_tiers_twins lower glob x = All-of _ _ (λ a i.
    All-In (Good lower glob x) a (all_work lower glob x).actions (all-Good lower glob x)
      (In-filter _ a (all_work lower glob x).actions i).0)
