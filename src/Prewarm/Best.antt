-- ===== src/Prewarm/Best.antt =====
-- Which runner planPrewarm (dashboard/lib/prewarm.js) copies.
use mathlib.Core.Path.{subst}
use actions_runners.Prelude.{
  All, All-In, All-of, Bool-cases, In, In-sort, IsSorted, List, String, [], ap, arith, false, inl,
  inr, refl, sort, sort-In, sort-IsSorted, sym, true, ℕ, ◌∙◌, ◌∷◌, ◌≡◌,
}
use actions_runners.Prewarm.Types.{Candidate, Input, Plan, act, stay}
use actions_runners.Prewarm.Plan.{Scan, before, choose, passes, plan_prewarm, scan}
use actions_runners.Prewarm.Sound.{Worth, scan-Worth}

before_asym : (a b : Candidate) → before a b ≡ true → before b a ≡ false
before_asym a b h = ground arith

before_step : (a b c : Candidate) → before b a ≡ false → before c b ≡ false → before c a ≡ false
before_step a b c h k = ground arith

before_irr : (a : Candidate) → before a a ≡ false
before_irr a = ground arith

name_in : String → Plan → String
name_in n (stay q) = n
name_in n (act m r d c) = m

repo_in : String → Plan → String
repo_in n (stay q) = n
repo_in n (act m r d c) = r

deficit_in : ℕ → Plan → ℕ
deficit_in n (stay q) = n
deficit_in n (act m r d c) = d

candidate_in : Candidate → Plan → Candidate
candidate_in b (stay q) = b
candidate_in b (act m r d c) = c

choose-first :
    (s : Scan) (cs : List Candidate) {name repo : String} {d : ℕ} {c : Candidate}
    → choose s cs ≡ act name repo d c
    → (c.source.name ≡ name)
      × (c.repo ≡ repo)
      × (c.deficit ≡ d)
      × ((rest : List Candidate) × (cs ≡ c ∷ rest))
unfolding choose candidate_in name_in repo_in deficit_in
choose-first s [] h = absurd (cc h)
choose-first s (b ∷ cs) {name} {repo} {d} {c} h =
    let same : b ≡ c = ap (candidate_in b) h in
    (
      ap (λ r. r.source.name) (sym same) ∙ ap (name_in name) h,
      ap (λ r. r.repo) (sym same) ∙ ap (repo_in repo) h,
      ap (λ r. r.deficit) (sym same) ∙ ap (deficit_in d) h,
      (cs, ap (λ r. r ∷ cs) same),
    )

abbrev pub found : Input → List Candidate
found x = (scan x x.predictions (record { held = []; candidates = [] })).candidates

worth :
    (x : Input) (cs : List Candidate) (c : Candidate) (rest : List Candidate)
    → All (Worth x) cs
    → sort before cs ≡ c ∷ rest
    → Worth x c
worth x cs c rest h e =
    All-In (Worth x) c cs h (In-sort before c cs (subst (In c) (sym e) (inl refl)))

least :
    (cs : List Candidate) (c : Candidate) (rest : List Candidate)
    → sort before cs ≡ c ∷ rest
    → All (λ b. before b c ≡ false) cs
least cs c rest e =
    let sorted : IsSorted before (c ∷ rest) =
      subst (IsSorted before) e (sort-IsSorted before before_asym before_step cs) in
    All-of _ cs (λ b i. elim (subst (In b) e (sort-In before b cs i)) [
      | inl same ↦ rw same (before_irr c)
      | inr j ↦ All-In (λ y. before y c ≡ false) b rest sorted.0 j
    ])

-- What planPrewarm adds is wanted: it is enabled and the gate passed; a confident prediction's window
-- has not begun and is within the lead; its peak for the repository, and the cap, are no less than what the
-- repository has with the new runner and the deficit; no run is queued or in progress there, and
-- the cooldown is over. The runner to copy is one of the repository's that is not draining, and no
-- candidate of the step comes before it, by deficit and then by the start of the window.
pub plan_prewarm-Best :
    (x : Input) {name repo : String} {d : ℕ} {c : Candidate}
    → plan_prewarm x ≡ act name repo d c
    → (x.enabled ≡ true)
      × (passes x.gate ≡ true)
      × (c.source.name ≡ name)
      × (c.repo ≡ repo)
      × (c.deficit ≡ d)
      × Worth x c
      × All (λ b. before b c ≡ false) (found x)
unfolding plan_prewarm
plan_prewarm-Best x {name} {repo} {d} {c} h = elim (Bool-cases x.enabled) [
  | inr e ↦ absurd (cc (rw e at h))
  | inl e ↦ elim (Bool-cases (passes x.gate)) [
    | inr f ↦ absurd (cc (rw (e, f) at h))
    | inl f ↦
        let s = scan x x.predictions (record { held = []; candidates = [] }) in
        let (n, r, k, (rest, same)) =
          choose-first s (sort before s.candidates) {name = name} {repo = repo} {d = d} {c = c}
            (rw (e, f) at h) in
        (
          e,
          f,
          n,
          r,
          k,
          worth x s.candidates c rest (scan-Worth x x.predictions _ (λ p i. i) tt) same,
          least s.candidates c rest same,
        )
  ]
]
