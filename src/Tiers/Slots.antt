-- ===== src/Tiers/Slots.antt =====
-- How many parked runners the tiers controller (dashboard/lib/tiers.js) brings back for queued runs.
use actions_runners.Prelude.{
  Bool, Bool-cases, In, In-filter, List, Option, Option-cases, String, [], all, any, arith, filter,
  find?-In, first-some, inl, inr, insert-new, is_some, length, length-append, lookup, ltb→lt, max,
  none, not, refl, some, true, ℕ, ◌&&◌, ◌+◌, ◌-◌, ◌∷◌, ◌≡◌, ◌≢◌, ◌≤◌,
}
use actions_runners.Runner.{Runner, has_drain}
use actions_runners.Tiers.Types.{Input, Lane, Lanes, Request, build, is_build, resume, simulator}
use actions_runners.Tiers.Lanes.{cap_of, lane_busy, lanes_of, lanes_on, primary_runners}
use actions_runners.Tiers.Groups.{job_fits, oldest_first, servable}
use actions_runners.Tiers.Moves.{Work, is_pending}
use actions_runners.Tiers.Primary.{
  Release, has_slots, park, parkable, release_loop, release_of, release_one, slot_runner, slots_of,
  spend, spend_loop,
}

no_value {ℓ} : {A : Type ℓ} (o : Option A) → not (is_some o) ≡ true → o ≡ none
no_value none h = refl
no_value (some v) h = cc

last_of : (a b d : Bool) → (a && b && d) ≡ true → d ≡ true
last_of a b d h = ground arith

module _ (lower : String → String) (glob : String → String → Bool) (x : Input) where
  -- The primary's runners that GitHub has given a job whose Worker has not started.
  abbrev pub assigned : List Runner → ℕ
  assigned rs = length (filter (λ r. r.gh_busy && not r.working_locally) rs)

  module _ (cap : x.config.build_cap ≢ 0) where
    build_on : (r : Runner) → any is_build (lanes_of glob x r) ≡ true
    unfolding lanes_of lanes_on
    build_on r = ground arith

    spend_build : (r : Runner) (s : Lanes ℕ) → (spend lower glob x r s).of_build ≡ s.of_build + 1
    unfolding spend
    spend_build r s = rw (build_on r) refl

    spend_loop_build :
        (rs : List Runner) (s : Lanes ℕ)
        → (spend_loop lower glob x rs s).of_build ≡ s.of_build + assigned rs
    unfolding spend_loop
    spend_loop_build [] s = omega arith
    spend_loop_build (r ∷ rs) s = elim (Bool-cases (r.gh_busy && not r.working_locally)) [
      | inl e ↦
          rw (e, spend_loop)
            (omega (arith, spend_loop_build rs (spend lower glob x r s), spend_build r s))
      | inr e ↦ rw (e, spend_loop) (spend_loop_build rs s)
    ]

    has_build :
        (p : Lane → Bool) (ks : List Lane)
        → any is_build ks ≡ true
        → all p ks ≡ true
        → p build ≡ true
    has_build p [] a h = cc
    has_build p (build ∷ ks) a h = ground arith
    has_build p (simulator ∷ ks) a h = has_build p ks a (ground arith)

    slot_runner_new :
        (w : Work) (s : Release) (q : Request) {r : Runner}
        → slot_runner lower glob x w s q ≡ some r
        → lookup r.name s.slotted ≡ none
    unfolding slot_runner
    slot_runner_new w s q {r} h =
        let p : Runner → Bool = λ r.
          job_fits lower x q r
          && parkable lower glob x w.draining_now r
          && not (is_some (lookup r.name s.slotted)) in
        let fit = filter p (primary_runners x) in
        let i : In r fit = elim (first-some _ _ h) [
          | inl e ↦ (find?-In (λ r. not (has_drain r)) fit e).0
          | inr e ↦ elim (first-some _ _ e) [
            | inl f ↦ (find?-In (λ r. is_pending resume r.name w.pending) fit f).0
            | inr f ↦ (find?-In (λ r. true) fit f).0
          ]
        ] in
        no_value (lookup r.name s.slotted) (
          last_of (job_fits lower x q r) (parkable lower glob x w.draining_now r) _
            (In-filter p r (primary_runners x) i).1)

    -- What has been given, over what was spent before.
    abbrev Within : ℕ → Release → Type 0
    Within spent s =
        (s.spent.of_build ≡ spent + length s.slotted)
        × (s.spent.of_build ≤ max spent (slots_of lower glob x build))

    release_one-Within :
        (spent : ℕ) (w : Work) (q : Request) (s : Release)
        → Within spent s
        → Within spent (release_one lower glob x w q s)
    unfolding release_one
    release_one-Within spent w q s h = elim (Option-cases (slot_runner lower glob x w s q)) [
      | inl n ↦ rw (n, release_one) h
      | inr (r, n) ↦
          rw (n, release_one)
            (elim (Bool-cases (has_slots lower glob x s.spent r)) [
              | inl e ↦
                  let new = slot_runner_new w s q n in
                  let room = has_build _ (lanes_of glob x r) (build_on r) e in
                  rw (e, insert-new r.name q.id s.slotted new)
                    (
                      omega (
                        arith,
                        spend_build r s.spent,
                        h.0,
                        length-append s.slotted ((r.name, q.id) ∷ []),
                      ),
                      omega (arith, spend_build r s.spent, h.1, ltb→lt _ _ room),
                    )
              | inr e ↦ rw e h
            ])
    ]

    release_loop-Within :
        (spent : ℕ) (w : Work) (qs : List Request) (s : Release)
        → Within spent s
        → Within spent (release_loop lower glob x w qs s)
    unfolding release_loop
    release_loop-Within spent w [] s h = h
    release_loop-Within spent w (q ∷ qs) s h =
        release_loop-Within spent w qs (release_one lower glob x w q s)
          (release_one-Within spent w q s h)

  slots_le : slots_of lower glob x build ≤ cap_of glob x build - lane_busy glob x build
  unfolding slots_of
  slots_le = ground arith

  -- With a build lane: the jobs with a Worker on the primary, the runners that GitHub has
  -- given a job and the runners that a step brings back for queued runs are together no more than the
  -- lane's cap, or than the first two alone.
  pub release_cap :
      x.config.build_cap ≢ 0
      → (w : Work)
      → lane_busy glob x build
          + assigned (primary_runners x)
          + length (release_of lower glob x w).slotted
        ≤ max (cap_of glob x build) (lane_busy glob x build + assigned (primary_runners x))
  unfolding release_of
  release_cap cap w = elim (Bool-cases (park lower glob x)) [
    | inl e ↦
        let nothing : Lanes ℕ = record { of_build = 0; of_simulator = 0 } in
        let spent = spend_loop lower glob x (primary_runners x) nothing in
        let pre = spend_loop_build cap (primary_runners x) nothing in
        let within =
          release_loop-Within cap spent.of_build w (oldest_first lower x (servable lower x))
            (record { slotted = []; spent = spent }) (omega arith, omega arith) in
        rw (e, release_of) (omega (arith, pre, within.0, within.1, slots_le))
    | inr e ↦ rw (e, release_of) (omega arith)
  ]
