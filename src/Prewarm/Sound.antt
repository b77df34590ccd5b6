-- ===== src/Prewarm/Sound.antt =====
-- When planPrewarm (dashboard/lib/prewarm.js) adds a runner, and which one.
use mathlib.Core.Path.{subst}
use actions_runners.Prelude.{
  All, All-append, Bool, Bool-cases, In, In-filter, List, Option-cases, String, [], ap, arith,
  false, filter, find?, find?-In, first-some, inl, inr, leb, length, ltb, not, refl, some, str_eq,
  true, ℕ, ◌+◌, ◌<◌, ◌==◌, ◌||◌, ◌∷◌, ◌≡◌, ◌≤◌,
}
use actions_runners.Runner.{Runner, has_drain, is_busy}
use actions_runners.Prewarm.Types.{Candidate, Input, Prediction, RepoPeak}
use actions_runners.Prewarm.Plan.{
  Judged, Scan, blocked, candidate, candidate_of, clone_source, confidence_meets, has_active_work,
  judge, judge_source, last_of, note, predict, repo_loop, repo_runners, scan, skipped,
}

abbrev pub have : Input → RepoPeak → ℕ
have x q = length (repo_runners x.runners q.repo)

-- The forecast's window is near, but has not begun.
abbrev pub IsNear : Input → Prediction → Type 0
IsNear x p =
    (confidence_meets p.confidence x.min_confidence ≡ true)
    × (x.now < p.window_start)
    × (p.window_start ≤ x.now + x.lead_ms)

-- The repository has fewer runners than the forecast's peak and the cap, no work, and got no runner
-- within the cooldown.
abbrev pub IsShort : Input → RepoPeak → Type 0
IsShort x q =
    (have x q < q.expected_peak)
    × (have x q < x.cap)
    × (has_active_work x.active q.repo ≡ false)
    × (last_of x q.repo + x.cooldown_ms ≤ x.now)

-- The runner to copy, and how many more might be wanted after it.
abbrev pub Copies : Input → RepoPeak → Candidate → Type 0
Copies x q c =
    In c.source x.runners
    × (str_eq c.source.repo q.repo ≡ true)
    × (has_drain c.source ≡ false)
    × (c.repo ≡ q.repo)
    × (have x q + 1 + c.deficit ≤ q.expected_peak)
    × (have x q + 1 + c.deficit ≤ x.cap)

abbrev pub Worth : Input → Candidate → Type 0
Worth x c =
    (p : Prediction) × In p x.predictions
    × IsNear x p
    × ((q : RepoPeak) × In q p.repos × IsShort x q × Copies x q c)

source_In :
    (rs : List Runner) (repo : String) {r : Runner}
    → clone_source (repo_runners rs repo) ≡ some r
    → In r rs × (str_eq r.repo repo ≡ true) × (has_drain r ≡ false)
unfolding clone_source
source_In rs repo {r} h =
    let pool = filter (λ r. not (has_drain r)) (repo_runners rs repo) in
    let found : In r pool = elim (first-some (find? (λ r. not (is_busy r)) pool) _ h) [
      | inl e ↦ (find?-In (λ r. not (is_busy r)) pool e).0
      | inr e ↦ (find?-In (λ r. true) pool e).0
    ] in
    let (i, d) = In-filter (λ r. not (has_drain r)) r (repo_runners rs repo) found in
    let (j, e) = In-filter (λ r. str_eq r.repo repo) r rs i in (j, e, negated (has_drain r) d)
  where
    negated : (b : Bool) → not b ≡ true → b ≡ false
    negated b h = ground arith

not_le : (m n : ℕ) → leb m n ≡ false → n < m
not_le m n h = ground arith

not_lt : (m n : ℕ) → ltb m n ≡ false → n ≤ m
not_lt m n h = ground arith

judge_source-Worth :
    (x : Input) (p : Prediction) (q : RepoPeak) (r : Runner) {c : Candidate}
    → have x q < q.expected_peak
    → have x q < x.cap
    → In r x.runners × (str_eq r.repo q.repo ≡ true) × (has_drain r ≡ false)
    → judge_source x p q (have x q) r ≡ candidate c
    → IsShort x q × Copies x q c
unfolding judge_source
judge_source-Worth x p q r {c} a b s h = elim (Bool-cases (has_active_work x.active q.repo)) [
  | inl e ↦ absurd (cc (rw e at h))
  | inr e ↦ elim (Bool-cases (ltb x.now (last_of x q.repo + x.cooldown_ms))) [
    | inl f ↦ absurd (cc (rw (e, f) at h))
    | inr f ↦
        let same : candidate_of x p q (have x q) r ≡ c = ap (candidate_in c) (rw (e, f) at h) in
        (
          (a, b, e, not_lt x.now (last_of x q.repo + x.cooldown_ms) f),
          subst (Copies x q) same (s.0, s.1, s.2, refl, omega (arith, a, b), omega (arith, a, b)),
        )
  ]
]
  where
    candidate_in : Candidate → Judged → Candidate
    candidate_in d (candidate c) = c
    candidate_in d _ = d

judge-Worth :
    (x : Input) (p : Prediction) (q : RepoPeak) {c : Candidate}
    → judge x p q ≡ candidate c
    → IsShort x q × Copies x q c
unfolding judge
judge-Worth x p q {c} h = elim (Bool-cases (str_eq q.repo "" || q.expected_peak == 0)) [
  | inl e ↦ absurd (cc (rw e at h))
  | inr e ↦ elim (Bool-cases (leb q.expected_peak (have x q))) [
    | inl f ↦ absurd (cc (rw (e, f) at h))
    | inr f ↦ elim (Bool-cases (leb x.cap (have x q))) [
      | inl g ↦ absurd (cc (rw (e, f, g) at h))
      | inr g ↦ elim (Option-cases (clone_source (repo_runners x.runners q.repo))) [
        | inl n ↦ absurd (cc (rw (e, f, g, n) at h))
        | inr (r, n) ↦
            judge_source-Worth x p q r {c = c} (not_le q.expected_peak (have x q) f)
              (not_le x.cap (have x q) g) (source_In x.runners q.repo {r = r} n)
              (rw (e, f, g, n) at h)
      ]
    ]
  ]
]

note-All :
    (P : Candidate → Type 0) (j : Judged) (s : Scan)
    → ((c : Candidate) → j ≡ candidate c → P c)
    → All P s.candidates
    → All P (note j s).candidates
note-All P skipped s k h = h
note-All P (blocked b) s k h = h
note-All P (candidate c) s k h = All-append P s.candidates (c ∷ []) h (k c refl, tt)

repo_loop-Worth :
    (x : Input) (p : Prediction) (qs : List RepoPeak) (s : Scan)
    → In p x.predictions
    → IsNear x p
    → ((q : RepoPeak) → In q qs → In q p.repos)
    → All (Worth x) s.candidates
    → All (Worth x) (repo_loop x p qs s).candidates
unfolding repo_loop
repo_loop-Worth x p [] s i n k h = h
repo_loop-Worth x p (q ∷ qs) s i n k h =
    repo_loop-Worth x p qs (note (judge x p q) s) i n (λ r j. k r (inr j))
      (note-All (Worth x) (judge x p q) s
        (λ c e. let (a, b) = judge-Worth x p q {c = c} e in (p, i, n, (q, k q (inl refl), a, b))) h)

predict-Worth :
    (x : Input) (p : Prediction) (s : Scan)
    → In p x.predictions
    → All (Worth x) s.candidates
    → All (Worth x) (predict x p s).candidates
unfolding predict
predict-Worth x p s i h = elim (Bool-cases (not (confidence_meets p.confidence x.min_confidence))) [
  | inl e ↦ rw e h
  | inr e ↦ elim (Bool-cases (leb p.window_start x.now)) [
    | inl f ↦ rw (e, f) h
    | inr f ↦ elim (Bool-cases (ltb (x.now + x.lead_ms) p.window_start)) [
      | inl g ↦ rw (e, f, g) h
      | inr g ↦
          rw (e, f, g)
            (repo_loop-Worth x p p.repos s i
              (
                meets (confidence_meets p.confidence x.min_confidence) e,
                not_le p.window_start x.now f,
                not_lt (x.now + x.lead_ms) p.window_start g,
              )
              (λ q j. j) h)
    ]
  ]
]
  where
    meets : (b : Bool) → not b ≡ false → b ≡ true
    meets b h = ground arith

pub scan-Worth :
    (x : Input) (ps : List Prediction) (s : Scan)
    → ((p : Prediction) → In p ps → In p x.predictions)
    → All (Worth x) s.candidates
    → All (Worth x) (scan x ps s).candidates
unfolding scan
scan-Worth x [] s k h = h
scan-Worth x (p ∷ ps) s k h =
    scan-Worth x ps (predict x p s) (λ q j. k q (inr j)) (predict-Worth x p s (k p (inl refl)) h)
