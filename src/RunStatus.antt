-- ===== src/RunStatus.antt =====
-- The cache of dashboard/lib/run-status.js, past the guards of `lookup`: a key is the source's
-- `repo#runId`, a value what GitHub said of the run. A promise is told by its key: `fetched` and
-- `failed` are the two callbacks of the fetch that `ask` starts, run when it settles.
pub mod Single
mod Examples
use actions_runners.Prelude.{
  Bool, List, Option, String, erase, false, filter, if◌then◌else◌, insert, leb, length, lookup, ltb,
  none, not, some, ℕ, ◌+◌,
}

pub record Value : Type 0 where
  pub status : Option String
  pub conclusion : Option String

-- An entry: a fetch in flight, or a value with the time at which it came.
pub data Entry : Type 0 where
  pending : Entry
  known : ℕ → Value → Entry

abbrev pub Cache : Type 0
Cache = List (String × Entry)

-- What a caller gets: a value, the promise of another caller's fetch, or one of its own.
pub data Answer : Type 0 where
  cached : Value → Answer
  shared : Answer
  fetching : Answer

-- `MAX_ENTRIES`
abbrev pub max_entries : ℕ
max_entries = 500

-- The body of `lookup`.
unfoldable pub ask : ℕ → ℕ → String → Cache → Answer × Cache
ask ttl now key c = elim (lookup key c) [
  | none ↦ (fetching, insert key pending c)
  | some e ↦ elim e [
    | pending ↦ (shared, c)
    | known at v ↦ if ltb now (at + ttl) then (cached v, c) else (fetching, insert key pending c)
  ]
]

abbrev pub expired : ℕ → ℕ → Entry → Bool
expired ttl now pending = false
expired ttl now (known at v) = ltb (at + ttl) now

-- `prune`
unfoldable pub prune : ℕ → ℕ → Cache → Cache
prune ttl now c =
    if leb (length c) max_entries then c else filter (λ e. not (expired ttl now e.1)) c

-- The callbacks of the fetch: it came back with a value, or it was refused.
unfoldable pub fetched : ℕ → ℕ → String → Value → Cache → Cache
unfolding prune
fetched ttl now key v c = prune ttl now (insert key (known now v) c)

unfoldable pub failed : String → Cache → Cache
failed key c = erase key c
