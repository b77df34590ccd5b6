-- ===== src/Orphans/Stuck.antt =====
-- What is true of a job that dashboard/lib/orphans.js reports.
use mathlib.Core.Path.{subst}
use actions_runners.Prelude.{
  All, Bool, Bool-cases, In, List, Option, Option-cases, String, [], all, any, ap, arith, false,
  find?, inl, inr, is_nil, is_some, leb, ltb, min, none, not, or_else, refl, some, str_eq, sym,
  true, ℕ, ◌&&◌, ◌+◌, ◌-◌, ◌||◌, ◌↔◌, ◌∙◌, ◌∷◌, ◌≡◌, ◌≤◌, ◌⊎◌,
}
use actions_runners.Orphans.Classify.{
  Job, Orphan, Row, Step, classify, earliest, finals_of, is_cancelled, is_completed, is_gone,
  is_suspect, open_of, orphan_of, passed, sooner, work_of,
}

all_All : (p : Step → Bool) (ss : List Step) → all p ss ≡ true → All (λ s. p s ≡ true) ss
all_All p [] h = tt
all_All p (s ∷ ss) h = (left (p s) (all p ss) h, all_All p ss (right (p s) (all p ss) h))
  where
    left : (a b : Bool) → (a && b) ≡ true → a ≡ true
    left a b h = ground arith

    right : (a b : Bool) → (a && b) ≡ true → b ≡ true
    right a b h = ground arith

-- The step started at `t` or later, or its start is not known.
abbrev pub NotBefore : ℕ → Step → Type 0
NotBefore t s = (s.started_at ≡ none) ⊎ (t ≤ or_else s.started_at 0)

weaker : (t u : ℕ) (ss : List Step) → u ≤ t → All (NotBefore t) ss → All (NotBefore u) ss
weaker t u [] k h = tt
weaker t u (s ∷ ss) k h =
    (elim h.0 [ inl n ↦ inl n | inr l ↦ inr (omega (arith, k, l)) ], weaker t u ss k h.1)

sooner-none : (a b : Option ℕ) → sooner a b ≡ none → (a ≡ none) × (b ≡ none)
sooner-none none b h = (refl, h)
sooner-none (some t) none h = absurd (cc h)
sooner-none (some t) (some u) h = absurd (cc h)

none_started : (t : ℕ) (ss : List Step) → earliest ss ≡ none → All (NotBefore t) ss
unfolding earliest
none_started t [] h = tt
none_started t (s ∷ ss) h =
    let (a, b) = sooner-none s.started_at (earliest ss) h in (inl a, none_started t ss b)

-- A start that is not before `t`, or none.
abbrev Later : ℕ → Option ℕ → Type 0
Later t none = Unit {0}
Later t (some u) = t ≤ u

sooner-Later : (a b : Option ℕ) {t : ℕ} → sooner a b ≡ some t → Later t a × Later t b
sooner-Later none none h = absurd (cc h)
sooner-Later none (some u) {t} h = (tt, let e : u ≡ t = ap (λ o. or_else o 0) h in omega (arith, e))
sooner-Later (some u) none {t} h = (let e : u ≡ t = ap (λ o. or_else o 0) h in omega (arith, e), tt)
sooner-Later (some u) (some v) {t} h =
    let e : min u v ≡ t = ap (λ o. or_else o 0) h in (omega (arith, e), omega (arith, e))

Later-NotBefore : (t : ℕ) (s : Step) → Later t s.started_at → NotBefore t s
Later-NotBefore t s h = by_start s.started_at h
  where
    by_start : (o : Option ℕ) → Later t o → (o ≡ none) ⊎ (t ≤ or_else o 0)
    by_start none h = inl refl
    by_start (some u) h = inr h

earliest-NotBefore : (ss : List Step) {t : ℕ} → earliest ss ≡ some t → All (NotBefore t) ss
unfolding earliest
earliest-NotBefore [] h = absurd (cc h)
earliest-NotBefore (s ∷ ss) {t} h =
    let (a, b) = sooner-Later s.started_at (earliest ss) {t = t} h in
    (
      Later-NotBefore t s a,
      elim (Option-cases (earliest ss)) [
        | inl n ↦ none_started t ss n
        | inr (u, n) ↦ weaker u t ss (subst (Later t) n b) (earliest-NotBefore ss {t = u} n)
      ],
    )

sooner-some : (a b : Option ℕ) {t : ℕ} → sooner a b ≡ some t → (a ≡ some t) ⊎ (b ≡ some t)
sooner-some none b h = inr h
sooner-some (some u) none h = inl h
sooner-some (some u) (some v) {t} h =
    let e : min u v ≡ t = ap (λ o. or_else o 0) h in
    elim (Bool-cases (leb u v)) [
      | inl l ↦ let m : min u v ≡ u = ground arith in inl (ap some (sym m ∙ e))
      | inr l ↦ let m : min u v ≡ v = ground arith in inr (ap some (sym m ∙ e))
    ]

-- The earliest start is that of a step.
earliest-In :
    (ss : List Step) {t : ℕ}
    → earliest ss ≡ some t
    → (s : Step) × (In s ss × (s.started_at ≡ some t))
unfolding earliest
earliest-In [] h = absurd (cc h)
earliest-In (s ∷ ss) {t} h = elim (sooner-some s.started_at (earliest ss) {t = t} h) [
  | inl e ↦ (s, (inl refl, e))
  | inr e ↦ let (r, (i, k)) = earliest-In ss {t = t} e in (r, (inr i, k))
]

-- The step started at `t`.
abbrev pub StartedAt : ℕ → Step → Type 0
StartedAt t s = s.started_at ≡ some t

-- A job that is in progress though all its work is completed, with a final step that is open, and whose
-- runner is gone or cancelled a final step. It is stuck since the earliest start of its open steps that
-- is known, which one of them has and which is at least `least` ago.
abbrev pub Stuck : Job → Option Row → ℕ → ℕ → Orphan → Type 0
Stuck j runner now least o =
    (str_eq j.status "in_progress" ≡ true)
    × (is_nil (work_of j) ≡ false)
    × All (λ s. is_completed s ≡ true) (work_of j)
    × (is_nil (open_of j) ≡ false)
    × ((any is_cancelled (finals_of j) ≡ true) ⊎ (is_gone runner ≡ true))
    × ((s : Step) × (In s (open_of j) × StartedAt o.stuck_since s))
    × All (NotBefore o.stuck_since) (open_of j)
    × (o.stuck_for_ms ≡ now - o.stuck_since)
    × (o.stuck_since + least ≤ now)

abbrev pub Report : Job → Option Row → ℕ → ℕ → Orphan → Type 0
Report j runner now least o =
    Stuck j runner now least o × ((o.work_passed ≡ true) ↔ All (λ s. passed s ≡ true) (work_of j))

five :
    (a b d e f g : Bool)
    → (not a) ≡ false
    → a ≡ (b && d && e && f && g)
    → (b ≡ true) × (d ≡ true) × (e ≡ true) × (f ≡ true) × (g ≡ true)
five a b d e f g h k = ground arith

either : (a b : Bool) → (a || b) ≡ true → (a ≡ true) ⊎ (b ≡ true)
either a b h = ground arith

negated : (b : Bool) → not b ≡ true → b ≡ false
negated b h = ground arith

not_lt : (m n : ℕ) → ltb m n ≡ false → n ≤ m
not_lt m n h = ground arith

suspect-Stuck :
    (j : Job) (repo : String) (runner : Option Row) (now least since : ℕ)
    → not (is_suspect j runner) ≡ false
    → earliest (open_of j) ≡ some since
    → ltb now (since + least) ≡ false
    → Stuck j runner now least (orphan_of j repo runner now since)
unfolding is_suspect orphan_of
suspect-Stuck j repo runner now least since h e l =
    let (a, b, d, f, g) =
      five (is_suspect j runner) (str_eq j.status "in_progress") (not (is_nil (work_of j)))
        (all is_completed (work_of j)) (not (is_nil (open_of j)))
        (any is_cancelled (finals_of j) || is_gone runner) h refl in
    (
      a,
      negated (is_nil (work_of j)) b,
      all_All is_completed (work_of j) d,
      negated (is_nil (open_of j)) f,
      either (any is_cancelled (finals_of j)) (is_gone runner) g,
      earliest-In (open_of j) {t = since} e,
      earliest-NotBefore (open_of j) {t = since} e,
      refl,
      not_lt now (since + least) l,
    )

failed-passed :
    (ss : List Step)
    → (not (is_some (find? (λ s. not (passed s)) ss)) ≡ true) ↔ All (λ s. passed s ≡ true) ss
failed-passed [] = (λ h. tt, λ h. refl)
failed-passed (s ∷ ss) = elim (Bool-cases (passed s)) [
  | inl e ↦ rw e ((λ h. (refl, (failed-passed ss).0 h)), λ h. (failed-passed ss).1 h.1)
  | inr e ↦ rw e ((λ h. absurd (cc h)), λ h. absurd (cc h.0))
]

-- A job that classifyJob reports is in progress though all its work is completed, it has an open final
-- step, and its runner is gone or it cancelled a final step. The time since when it is stuck is the
-- earliest known start of its open steps: it is the start of one of them, no other known one is before
-- it, and it is at least the minimum ago; the time for which it is stuck is counted from it. The report
-- says that the work passed just when each of its steps did.
pub classify-Stuck :
    (j : Job) (repo : String) (runner : Option Row) (now least : ℕ) {o : Orphan}
    → classify j repo runner now least ≡ some o
    → Report j runner now least o
unfolding classify orphan_of
classify-Stuck j repo runner now least {o} h = elim (Bool-cases (not (is_suspect j runner))) [
  | inl e ↦ absurd (cc (rw e at h))
  | inr e ↦ elim (Option-cases (earliest (open_of j))) [
    | inl n ↦ absurd (cc (rw (e, n) at h))
    | inr (since, n) ↦ elim (Bool-cases (ltb now (since + least))) [
      | inl l ↦ absurd (cc (rw (e, n, l) at h))
      | inr l ↦
          let made = orphan_of j repo runner now since in
          let same : made ≡ o = ap (λ s. or_else s made) (rw (e, n, l) at h) in
          subst (Report j runner now least) same
            (suspect-Stuck j repo runner now least since e n l, failed-passed (work_of j))
    ]
  ]
]
