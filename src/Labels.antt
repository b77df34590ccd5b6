-- ===== src/Labels.antt =====
-- The labels of runners and queued jobs: `roleLabel` (dashboard/lib/state.js), `queuedJobLabels`
-- (dashboard/lib/queue-cause.js) and the helpers of dashboard/lib/sizing.js and autoscale.js.
-- `lower` stands for String.prototype.toLowerCase; nothing is assumed of it.
use actions_runners.Prelude.{
  Bool, List, Option, String, [], any, false, filter, find?, first, if◌then◌else◌, is_nil, none,
  not, or_else, some, str_eq, true, ℕ, ◌&&◌, ◌∷◌,
}

-- A job of a run. `tag` is the text of `id ?? name`.
pub record RunJob : Type 0 where
  pub tag : String
  pub status : String
  pub labels : List String

-- A run of the snapshot's `active`. `at` is `Date.parse(startedAt ?? createdAt ?? '')`, and `none`
-- where that is not a number; `created_at` is the same of `createdAt`.
pub record Run : Type 0 where
  pub id : ℕ
  pub repo : String
  pub status : String
  pub at : Option ℕ
  pub created_at : Option ℕ
  pub jobs : List RunJob

abbrev pub is_queued : Run → Bool
is_queued a = str_eq a.status "queued"

-- `ROLE_LABELS`
abbrev pub role_labels : List String
role_labels = "ci" ∷ "ui-web" ∷ []

-- `PLATFORM_LABELS`
abbrev pub platform_labels : List String
platform_labels = "self-hosted" ∷ "macos" ∷ "linux" ∷ "windows" ∷ "x64" ∷ "arm64" ∷ []

abbrev pub includes : List String → String → Bool
includes xs s = any (str_eq s) xs

-- `roleLabel`, and `roleFromExtraLabels`
unfoldable pub role_label : List String → Option String
role_label ls = find? (includes role_labels) ls

abbrev pub same_role : Option String → Option String → Bool
same_role none none = true
same_role (some a) (some b) = str_eq a b
same_role _ _ = false

-- The key of `sizingKey`: a repo and a role.
pub record Key : Type 0 where
  pub repo : String
  pub role : Option String

abbrev pub same_key : Key → Key → Bool
same_key a b = str_eq a.repo b.repo && same_role a.role b.role

module _ (lower : String → String) where
  -- `extraFromJobLabels`
  unfoldable pub extra_labels_of : List String → List String
  extra_labels_of ls = filter (λ l. not (includes platform_labels (lower l))) ls

  -- `roleFromJobLabels`
  unfoldable pub role_of_job : List String → Option String
  unfolding extra_labels_of role_label
  role_of_job ls = role_label (extra_labels_of ls)

  -- `isSelfHosted`
  unfoldable pub self_hosted : List String → Bool
  self_hosted ls = any (λ l. str_eq (lower l) "self-hosted") ls

  -- `queuedJobLabels`: of the jobs still queued, or of all, the first self-hosted one, or the first.
  unfoldable pub queued_job_labels : List RunJob → Option (List String)
  unfolding self_hosted
  queued_job_labels jobs =
      let queued = filter (λ j. str_eq j.status "queued") jobs in
      let pool = if is_nil queued then jobs else queued in
      elim (first (find? (λ j. self_hosted j.labels) pool) (find? (λ j. true) pool)) [
        | none ↦ none
        | some j ↦ if is_nil j.labels then none else some j.labels
      ]

  -- The key under which a queued run is counted.
  unfoldable pub key_of : Run → Key
  unfolding queued_job_labels role_of_job
  key_of a = record { repo = a.repo; role = role_of_job (or_else (queued_job_labels a.jobs) []) }
