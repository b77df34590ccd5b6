-- ===== src/Autoscale/Down.antt =====
-- Which runner `planScaleDown` (dashboard/lib/autoscale.js) removes.
use actions_runners.Prelude.{
  All, All-In, All-of, Bool, Bool-cases, In, In-filter, In-sort, IsSorted, List, Option,
  Option-cases, String, [], any, ap, arith, false, filter, filter-In, find?, find?-In, find?-least,
  find?-none, inl, inr, is_some, ltb, ltb→lt, lt→ltb, none, not, refl, some, sort-In, sort-IsSorted,
  str_eq, str_eq-false_iff, to_list, true, ℕ, ◌++◌, ◌+◌, ◌<◌, ◌↔◌, ◌∷◌, ◌≡◌, ◌≢◌, ◌≤◌,
}
use actions_runners.Runner.{Runner, is_busy}
use actions_runners.Labels.{Run}
use actions_runners.Autoscale.Types.{Limits}
use actions_runners.Autoscale.ScaleDown.{
  DownPlan, Idle, Skip, down_loop, down_skip, duplicates, idle_of, plan_scale_down, remove,
  remove_reason, stay, time_skip,
}

-- A runner that may go, stated without the code's tests.
pub record Removable (now ttl : ℕ) (active : List Run) (idle : List (String × Idle)) (r : Runner)
    : Type 0 where
  pub duplicate : 1 < r.instance_no
  pub not_busy : is_busy r ≡ false
  pub not_drained : r.drain_state ≡ none
  pub quiet : All (λ a. a.repo ≢ r.repo) active
  pub old : ttl ≤ (idle_of idle r.name).age_ms
  pub rested : All (λ t. t + ttl ≤ now) (to_list (idle_of idle r.name).last_job_at)

some_eq : {a b : Runner} → some a ≡ some b → a ≡ b
some_eq h = cc

module _ (now ttl : ℕ) (active : List Run) (idle : List (String × Idle)) where
  -- The loop's verdict on a runner.
  abbrev goes : Runner → Bool
  goes r = not (is_some (down_skip now ttl active idle r))

  loop_some :
      (skipped : List (String × Skip)) (rs : List Runner) {r : Runner}
      → find? goes rs ≡ some r
      → down_loop now ttl active idle skipped rs
        ≡ remove r.name r.repo (remove_reason now (idle_of idle r.name))
  unfolding down_loop
  loop_some skipped [] e = cc
  loop_some skipped (x ∷ rs) {r} e = elim (Option-cases (down_skip now ttl active idle x)) [
    | inl n ↦
        let same : x ≡ r = some_eq (rw n at e) in
        rw (n, down_loop)
          (ap (λ (y : Runner). remove y.name y.repo (remove_reason now (idle_of idle y.name))) same)
    | inr (s, n) ↦ rw (n, down_loop) (loop_some (skipped ++ ((x.name, s) ∷ [])) rs (rw n at e))
  ]

  loop_none :
      (skipped : List (String × Skip)) (rs : List Runner)
      → find? goes rs ≡ none
      → (s : List (String × Skip)) × (down_loop now ttl active idle skipped rs ≡ stay s)
  unfolding down_loop
  loop_none skipped [] e = (skipped, refl)
  loop_none skipped (x ∷ rs) e = elim (Option-cases (down_skip now ttl active idle x)) [
    | inl n ↦ cc (rw n at e)
    | inr (s, n) ↦
        let (t, q) = loop_none (skipped ++ ((x.name, s) ∷ [])) rs (rw n at e) in
        (t, rw (n, down_loop) q)
  ]

  quiet_iff :
      (repo : String) (rs : List Run)
      → (any (λ a. str_eq a.repo repo) rs ≡ false) ↔ All (λ a. a.repo ≢ repo) rs
  quiet_iff repo [] = ((λ _. tt), λ _. refl)
  quiet_iff repo (a ∷ rs) =
      let ne = str_eq-false_iff a.repo repo in
      let ih = quiet_iff repo rs in
      ((λ h. (ne.0 (ground arith), ih.0 (ground arith))), λ h. ground (arith, ne.1 h.0, ih.1 h.1))

  time_iff :
      (i : Idle)
      → (is_some (time_skip now ttl i) ≡ false)
        ↔ ((ttl ≤ i.age_ms) × All (λ t. t + ttl ≤ now) (to_list i.last_job_at))
  unfolding time_skip
  time_iff i = ground arith

  down_skip-active :
      (r : Runner)
      → any (λ a. str_eq a.repo r.repo) active ≡ true
      → is_some (down_skip now ttl active idle r) ≡ true
  unfolding down_skip
  down_skip-active r e = ground arith

  goes_parts :
      (r : Runner)
      → any (λ a. str_eq a.repo r.repo) active ≡ false
      → goes r ≡ true
      → (is_busy r ≡ false)
        × (r.drain_state ≡ none)
        × (is_some (time_skip now ttl (idle_of idle r.name)) ≡ false)
  unfolding down_skip
  goes_parts r e g = ground arith

  parts_go :
      (r : Runner)
      → any (λ a. str_eq a.repo r.repo) active ≡ false
      → is_busy r ≡ false
      → r.drain_state ≡ none
      → is_some (time_skip now ttl (idle_of idle r.name)) ≡ false
      → goes r ≡ true
  unfolding down_skip
  parts_go r e b n t = ground arith

  -- The code's tests, against `Removable`.
  goes_iff :
      (r : Runner) → ((goes r ≡ true) × (1 < r.instance_no)) ↔ Removable now ttl active idle r
  goes_iff r = (to, from)
    where
      to : (goes r ≡ true) × (1 < r.instance_no) → Removable now ttl active idle r
      to (g, d) = elim (Bool-cases (any (λ a. str_eq a.repo r.repo) active)) [
        | inl e ↦ absurd (cc (down_skip-active r e, g))
        | inr e ↦
            let (b, n, t) = goes_parts r e g in
            let (o, l) = (time_iff (idle_of idle r.name)).0 t in
            record {
              duplicate = d;
              not_busy = b;
              not_drained = n;
              quiet = (quiet_iff r.repo active).0 e;
              old = o;
              rested = l;
            }
      ]

      from : Removable now ttl active idle r → (goes r ≡ true) × (1 < r.instance_no)
      from v = (
        parts_go r ((quiet_iff r.repo active).1 v.quiet) v.not_busy v.not_drained
            ((time_iff (idle_of idle r.name)).1 (v.old, v.rested)),
        v.duplicate,
      )

  In-duplicates :
      (r : Runner) (rs : List Runner) → In r (duplicates rs) → In r rs × (1 < r.instance_no)
  unfolding duplicates
  In-duplicates r rs i =
      let (j, d) = In-filter (λ (x : Runner). ltb 1 x.instance_no) r rs (In-sort _ r _ i) in
      (j, ltb→lt 1 r.instance_no d)

  duplicates-In :
      (r : Runner) (rs : List Runner) → In r rs → 1 < r.instance_no → In r (duplicates rs)
  unfolding duplicates
  duplicates-In r rs i d = sort-In _ r _ (filter-In _ r rs i (lt→ltb 1 r.instance_no d))

  duplicates-IsSorted :
      (rs : List Runner)
      → IsSorted (λ (a b : Runner). ltb b.instance_no a.instance_no) (duplicates rs)
  unfolding duplicates
  duplicates-IsSorted rs =
      sort-IsSorted (λ (a b : Runner). ltb b.instance_no a.instance_no) (λ x y h. ground arith)
        (λ x y z h k. ground arith) (filter (λ r. ltb 1 r.instance_no) rs)

-- What a plan means for the runners: it removes one that may go, of the highest instance among
-- those that may, or none may go.
abbrev pub Sound : ℕ → ℕ → List Run → List (String × Idle) → List Runner → DownPlan → Type 0
Sound now ttl active idle rs (stay skipped) = All (λ r. ¬ Removable now ttl active idle r) rs
Sound now ttl active idle rs (remove name repo why) =
    (r : Runner) × In r rs
    × (r.name ≡ name)
    × (r.repo ≡ repo)
    × Removable now ttl active idle r
    × ((s : Runner) → In s rs → Removable now ttl active idle s → s.instance_no ≤ r.instance_no)

module _ (now ttl : ℕ) (active : List Run) (idle : List (String × Idle)) (rs : List Runner) where
  loop-Sound :
      (o : Option Runner)
      → find? (goes now ttl active idle) (duplicates rs) ≡ o
      → Sound now ttl active idle rs (down_loop now ttl active idle [] (duplicates rs))
  loop-Sound none e =
      let (s, q) = loop_none now ttl active idle [] (duplicates rs) e in
      rw q (
        All-of _ rs (λ r i v.
          let (g, d) = (goes_iff now ttl active idle r).1 v in
          cc (
            g,
            All-In _ r _ (find?-none (goes now ttl active idle) (duplicates rs) e)
                (duplicates-In now ttl active idle r rs i d),
          )))
  loop-Sound (some r) e =
      let (i, g) = find?-In (goes now ttl active idle) (duplicates rs) e in
      let (j, d) = In-duplicates now ttl active idle r rs i in
      rw (loop_some now ttl active idle [] (duplicates rs) e) (
        r,
        j,
        refl,
        refl,
        (goes_iff now ttl active idle r).0 (g, d),
        λ s k v.
            let (g', d') = (goes_iff now ttl active idle s).1 v in
            let least =
              find?-least (λ (a b : Runner). ltb b.instance_no a.instance_no)
                (goes now ttl active idle) (duplicates rs) s (λ x. ground arith)
                (duplicates-IsSorted now ttl active idle rs) e
                (duplicates-In now ttl active idle s rs k d') g' in
            ground (arith, least),
      )

-- A plan to remove names a runner of the fleet that is not the first of its repo, is not busy, has
-- no drain marker, whose repo has no active run, which is at least as old as the idle time and whose
-- last job, if it had one, is at least that long ago; and no other such runner has a higher
-- instance. A plan to stay means that no runner of the fleet is such.
pub scale_down-Sound :
    (rs : List Runner) (active : List Run) (idle : List (String × Idle)) (lim : Limits) (now : ℕ)
    → Sound now lim.idle_ttl_ms active idle rs (plan_scale_down rs active idle lim now)
unfolding plan_scale_down
scale_down-Sound rs active idle lim now =
    loop-Sound now lim.idle_ttl_ms active idle rs
      (find? (goes now lim.idle_ttl_ms active idle) (duplicates rs)) refl
