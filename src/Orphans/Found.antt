-- ===== src/Orphans/Found.antt =====
-- The list that findOrphans (dashboard/lib/orphans.js) returns.
use mathlib.Core.Path.{subst}
use actions_runners.Prelude.{
  Bool, In, In-append, In-sort, IsSorted, List, Option, String, [], ap, append-In_left,
  append-In_right, arith, false, inl, inr, ltb, none, or_else, refl, some, sort-In, sort-IsSorted,
  sym, to_list, true, ℕ, ◌++◌, ◌↔◌, ◌∙◌, ◌∷◌, ◌≡◌, ◌⊎◌,
}
use actions_runners.Orphans.Classify.{
  Job, Orphan, Row, Run, by_name, classify, find_orphans, job_loop, min_stuck_ms, run_loop,
}

In-to_list : (m : Option Orphan) (o : Orphan) → In o (to_list m) → m ≡ some o
In-to_list none o i = elim i [ ]
In-to_list (some p) o (inl e) = ap some (sym e)
In-to_list (some p) o (inr i) = elim i [ ]

to_list-In : (m : Option Orphan) (o : Orphan) → m ≡ some o → In o (to_list m)
to_list-In none o e = absurd (cc e)
to_list-In (some p) o e = inl (sym (ap (λ m. or_else m p) e))

module _ (runners : List Row) (now : ℕ) where
  -- What classifyJob says of a job of a repository, whose runner is looked up by its name.
  abbrev pub says : String → Job → Option Orphan
  says repo j = classify j repo (by_name runners j.runner_name) now min_stuck_ms

  job_loop-In :
      (repo : String) (js : List Job) (out : List Orphan) (o : Orphan)
      → In o (job_loop runners now repo js out)
      → In o out ⊎ ((j : Job) × In j js × (says repo j ≡ some o))
  unfolding job_loop
  job_loop-In repo [] out o i = inl i
  job_loop-In repo (j ∷ js) out o i =
      elim (job_loop-In repo js (out ++ to_list (says repo j)) o i) [
        | inr (k, n, e) ↦ inr (k, inr n, e)
        | inl n ↦ elim (In-append o out (to_list (says repo j)) n) [
          | inl m ↦ inl m
          | inr m ↦ inr (j, inl refl, In-to_list (says repo j) o m)
        ]
      ]

  In-job_loop_old :
      (repo : String) (js : List Job) (out : List Orphan) (o : Orphan)
      → In o out
      → In o (job_loop runners now repo js out)
  unfolding job_loop
  In-job_loop_old repo [] out o i = i
  In-job_loop_old repo (j ∷ js) out o i =
      In-job_loop_old repo js (out ++ to_list (says repo j)) o (append-In_left o out _ i)

  In-job_loop :
      (repo : String) (js : List Job) (out : List Orphan) (o : Orphan) (j : Job)
      → In j js
      → says repo j ≡ some o
      → In o (job_loop runners now repo js out)
  unfolding job_loop
  In-job_loop repo [] out o j i e = elim i [ ]
  In-job_loop repo (k ∷ js) out o j (inr i) e =
      In-job_loop repo js (out ++ to_list (says repo k)) o j i e
  In-job_loop repo (k ∷ js) out o j (inl p) e =
      In-job_loop_old repo js (out ++ to_list (says repo k)) o (
        append-In_right o out (to_list (says repo k))
          (to_list-In (says repo k) o (ap (says repo) (sym p) ∙ e)))

  -- The orphan is what classifyJob says of a job of one of the runs.
  abbrev pub Reported : List Run → Orphan → Type 0
  Reported runs o = (r : Run) × In r runs × ((j : Job) × In j r.jobs × (says r.repo j ≡ some o))

  run_loop-In :
      (rs : List Run) (out : List Orphan) (o : Orphan)
      → In o (run_loop runners now rs out)
      → In o out ⊎ Reported rs o
  unfolding run_loop
  run_loop-In [] out o i = inl i
  run_loop-In (r ∷ rs) out o i =
      elim (run_loop-In rs (job_loop runners now r.repo r.jobs out) o i) [
        | inr (s, n, k) ↦ inr (s, inr n, k)
        | inl n ↦ elim (job_loop-In r.repo r.jobs out o n) [
          | inl m ↦ inl m
          | inr m ↦ inr (r, inl refl, m)
        ]
      ]

  In-run_loop_old :
      (rs : List Run) (out : List Orphan) (o : Orphan)
      → In o out
      → In o (run_loop runners now rs out)
  unfolding run_loop
  In-run_loop_old [] out o i = i
  In-run_loop_old (r ∷ rs) out o i = In-run_loop_old rs _ o (In-job_loop_old r.repo r.jobs out o i)

  In-run_loop :
      (rs : List Run) (out : List Orphan) (o : Orphan)
      → Reported rs o
      → In o (run_loop runners now rs out)
  unfolding run_loop
  In-run_loop [] out o (r, i, k) = elim i [ ]
  In-run_loop (s ∷ rs) out o (r, inr i, k) =
      In-run_loop rs (job_loop runners now s.repo s.jobs out) o (r, i, k)
  In-run_loop (s ∷ rs) out o (r, inl p, k) =
      In-run_loop_old rs (job_loop runners now s.repo s.jobs out) o
        (here s (subst (λ t. (j : Job) × In j t.jobs × (says t.repo j ≡ some o)) p k))
    where
      here :
          (t : Run)
          → (j : Job) × In j t.jobs × (says t.repo j ≡ some o)
          → In o (job_loop runners now t.repo t.jobs out)
      here t (j, i, e) = In-job_loop t.repo t.jobs out o j i e

earlier_asym :
    (a b : Orphan)
    → ltb a.stuck_since b.stuck_since ≡ true
    → ltb b.stuck_since a.stuck_since ≡ false
earlier_asym a b h = ground arith

earlier_step :
    (a b c : Orphan)
    → ltb b.stuck_since a.stuck_since ≡ false
    → ltb c.stuck_since b.stuck_since ≡ false
    → ltb c.stuck_since a.stuck_since ≡ false
earlier_step a b c h k = ground arith

-- The list of findOrphans has just the orphans that classifyJob reports of the jobs of the runs, and
-- none stands before one that has been stuck for longer.
pub find_orphans_iff :
    (runs : List Run) (runners : List Row) (now : ℕ)
    → IsSorted (λ a b. ltb a.stuck_since b.stuck_since) (find_orphans runs runners now)
      × ((o : Orphan) → In o (find_orphans runs runners now) ↔ Reported runners now runs o)
unfolding find_orphans
find_orphans_iff runs runners now =
    let order : Orphan → Orphan → Bool = λ a b. ltb a.stuck_since b.stuck_since in
    let all = run_loop runners now runs [] in
    (
      sort-IsSorted order earlier_asym earlier_step all,
      λ o. (
        (λ i. elim (run_loop-In runners now runs [] o (In-sort order o all i)) [
          | inl n ↦ elim n [ ]
          | inr k ↦ k
        ]),
        λ k. sort-In order o all (In-run_loop runners now runs [] o k),
      ),
    )
