-- ===== src/NightCap/Jobs.antt =====
-- `queuedJobs` (dashboard/lib/night-cap.js): the queued jobs that `decideNightCap` gives slots to.
-- `show` stands for the text of a run's number.
use Prim.Native.String.{◌++◌ as text_append}
use mathlib.Core.Path.{subst}
use actions_runners.Prelude.{
  Bool, Bool-cases, In, In-append, In-filter, In-map, List, Option, String, [], append-In_left,
  append-In_right, arith, filter, filter-In, if◌then◌else◌, inl, inr, is_nil, map, map-In, max, not,
  or_else, refl, str_eq, str_eq_iff, true, ℕ, ◌&&◌, ◌++◌, ◌-◌, ◌==◌, ◌↔◌, ◌∷◌, ◌≡◌, ◌⊎◌,
}
use actions_runners.Labels.{Run, RunJob, is_queued}
use actions_runners.NightCap.Types.{Job}

-- How long a run has been queued: 0 where neither time is known.
unfoldable pub queued_for : ℕ → Run → ℕ
queued_for now a =
    let since = max (or_else a.created_at 0) (or_else a.at 0) in
    if since == 0 then 0 else now - since

module _ (show : ℕ → String) (now : ℕ) (causes : ℕ → Option String) where
  unfoldable pub job_of : Run → RunJob → Job
  unfolding queued_for
  job_of a j = record {
    key = text_append (show a.id) (text_append "/" j.tag);
    run_id = a.id;
    repo = a.repo;
    labels = j.labels;
    queued_since_ms = queued_for now a;
    cause = causes a.id;
  }

  -- A queued run whose jobs are not known yet.
  unfoldable pub job_of_run : Run → Job
  unfolding queued_for
  job_of_run a = record {
    key = show a.id;
    run_id = a.id;
    repo = a.repo;
    labels = [];
    queued_since_ms = queued_for now a;
    cause = causes a.id;
  }

  -- A round of the loop.
  unfoldable pub jobs_of : Run → List Job
  unfolding job_of job_of_run
  jobs_of a =
      let jobs = filter (λ j. str_eq j.status "queued") a.jobs in
      if not (is_nil jobs)
      then map (job_of a) jobs
      else if is_queued a && is_nil a.jobs
      then job_of_run a ∷ []
      else []

  unfoldable pub queued_jobs : List Run → List Job
  unfolding jobs_of
  queued_jobs [] = []
  queued_jobs (a ∷ rs) = jobs_of a ++ queued_jobs rs

  -- A job that is queued, or a queued run without jobs.
  abbrev pub Made : Run → Job → Type 0
  Made a q =
      ((j : RunJob) × In j a.jobs × (j.status ≡ "queued") × (q ≡ job_of a j))
      ⊎ ((a.status ≡ "queued") × (a.jobs ≡ []) × (q ≡ job_of_run a))

  known :
      (a : Run) (q : Job)
      → In q (map (job_of a) (filter (λ j. str_eq j.status "queued") a.jobs))
      → (j : RunJob) × In j a.jobs × (j.status ≡ "queued") × (q ≡ job_of a j)
  known a q i =
      let (j, m, e) = In-map (job_of a) q _ i in
      let (n, s) = In-filter (λ (j : RunJob). str_eq j.status "queued") j a.jobs m in
      (j, n, (str_eq_iff j.status "queued").0 s, e)

  jobs_sound : (a : Run) (q : Job) → In q (jobs_of a) → Made a q
  unfolding jobs_of
  jobs_sound a q i =
      elim (Bool-cases (not (is_nil (filter (λ j. str_eq j.status "queued") a.jobs)))) [
        | inl e ↦ inl (known a q (rw e at i))
        | inr e ↦ elim (Bool-cases (is_queued a && is_nil a.jobs)) [
          | inl f ↦
              let (s, n) = both (is_queued a) (is_nil a.jobs) f in
              inr ((str_eq_iff a.status "queued").0 s, nil_eq a.jobs n, only (rw (e, f) at i))
          | inr f ↦ let k : In q [] = rw (e, f) at i in elim k [ ]
        ]
      ]
    where
      both : (b d : Bool) → (b && d) ≡ true → (b ≡ true) × (d ≡ true)
      both b d h = ground arith

      nil_eq : (js : List RunJob) → is_nil js ≡ true → js ≡ []
      nil_eq [] h = refl
      nil_eq (j ∷ js) h = cc

      only : In q (job_of_run a ∷ []) → q ≡ job_of_run a
      only (inl e) = e
      only (inr k) = elim k [ ]

  jobs_full : (a : Run) (q : Job) → Made a q → In q (jobs_of a)
  unfolding jobs_of
  jobs_full a q (inl (j, m, s, e)) =
      let k =
        filter-In (λ (j : RunJob). str_eq j.status "queued") j a.jobs m
          ((str_eq_iff j.status "queued").1 s) in
      rw (held j _ k, e) (map-In (job_of a) j _ k)
    where
      held : (j : RunJob) (js : List RunJob) → In j js → not (is_nil js) ≡ true
      held j [] i = elim i [ ]
      held j (i ∷ js) m = refl
  jobs_full a q (inr (s, n, e)) = rw (n, (str_eq_iff a.status "queued").1 s) (inl e)

  -- The jobs that wait for a slot are exactly those that are queued in a run of the list, whatever
  -- that run's own status, and the queued runs whose jobs are not known yet.
  queued_jobs_iff :
      (rs : List Run) (q : Job) → In q (queued_jobs rs) ↔ ((a : Run) × In a rs × Made a q)
  unfolding queued_jobs
  queued_jobs_iff [] q = ((λ i. elim i [ ]), λ (a, i, h). elim i [ ])
  queued_jobs_iff (b ∷ rs) q =
      let (to, from) = queued_jobs_iff rs q in
      (
        (λ i. elim (In-append q (jobs_of b) (queued_jobs rs) i) [
          | inl j ↦ (b, inl refl, jobs_sound b q j)
          | inr j ↦ let (a, k, h) = to j in (a, inr k, h)
        ]),
        λ (a, i, h). elim i [
          | inl e ↦
              append-In_left q (jobs_of b) (queued_jobs rs)
                (jobs_full b q (subst (λ c. Made c q) e h))
          | inr k ↦ append-In_right q (jobs_of b) (queued_jobs rs) (from (a, k, h))
        ],
      )
