-- ===== src/Admission/Ingest.antt =====
-- The log of the coordinator's own host (dashboard/lib/admission.js, `ingest` and `ingestLines`).
use actions_runners.Prelude.{
  Bool, List, Option, String, [], if◌then◌else◌, leb, length, ltb, none, some, ℕ, ◌++◌, ◌+◌, ◌==◌,
  ◌||◌, ◌∷◌,
}
use actions_runners.Admission.Log.{drop, newline}

-- The text up to its last newline: nothing when there is none.
unfoldable pub until_last : List ℕ → List ℕ
until_last [] = []
until_last (b ∷ bs) =
    let rest = until_last bs in if b == newline || ltb 0 (length rest) then b ∷ rest else []

-- `split('\n')`, with what the first line has begun with.
unfoldable pub split : List ℕ → List ℕ → List (List ℕ)
split l [] = l ∷ []
split l (b ∷ bs) =
    let rest = split (if b == newline then [] else l ++ (b ∷ [])) bs in
    if b == newline then l ∷ rest else rest

-- The stored offset and the table.
pub record Source {ℓ} (Row : Type ℓ) : Type ℓ where
  pub offset : ℕ
  pub rows : List (Row × String)

module _ {ℓ} {Row : Type ℓ} (decoded : List ℕ → List ℕ) (blank : List ℕ → Bool)
    (row_from : List ℕ → Option Row) (accepts : Row × String → Bool) where
  abbrev pub insert_row : String → Option Row → List (Row × String)
  insert_row host none = []
  insert_row host (some row) = if accepts (row, host) then (row, host) ∷ [] else []

  -- `ingestLines`: the rows that it inserts.
  unfoldable pub ingest_lines : String → List (List ℕ) → List (Row × String)
  ingest_lines host [] = []
  ingest_lines host (l ∷ ls) =
      let rest = ingest_lines host ls in
      if blank l then rest else insert_row host (row_from l) ++ rest

  abbrev pub consume : String → ℕ → List ℕ → Source Row → Source Row
  consume host from consumed s = if length consumed == 0 then s else record {
    offset = from + length consumed;
    rows = s.rows ++ ingest_lines host (split [] consumed);
  }

  -- `ingest`, of a file that may be missing.
  unfoldable pub ingest : String → Option (List ℕ) → Source Row → Source Row
  unfolding until_last split ingest_lines
  ingest host none s = s
  ingest host (some file) s =
      let from = if ltb (length file) s.offset then 0 else s.offset in
      if leb (length file) from
      then s
      else consume host from (until_last (decoded (drop from file))) s
