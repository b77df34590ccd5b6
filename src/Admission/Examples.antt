-- ===== src/Admission/Examples.antt =====
-- Logs of two short lines, one of them still being written. The row of a line is the line.
use actions_runners.Prelude.{
  All, Bool, In, List, String, [], length, map, refl, some, true, ℕ, ◌++◌, ◌==◌, ◌∷◌, ◌≡◌,
}
use actions_runners.Admission.Log.{IsLine, joined, lines_of}
use actions_runners.Admission.Ship.{ship_limits}
use actions_runners.Admission.Beat.{answered, lost, unanswered}
use actions_runners.Admission.Ingest.{ingest_lines}
use actions_runners.Admission.Ingested.{Event, appended, happen_all, ingested_once, read, written}
use actions_runners.Admission.Shipped.{shipped}
use actions_runners.Admission.Sent.{Action, act_all, added, beaten, grown}

abbrev same_bytes : List ℕ → List ℕ
same_bytes bs = bs

abbrev is_empty : List ℕ → Bool
is_empty bs = length bs == 0

abbrev any_row : List ℕ × String → Bool
any_row r = true

-- A line is written in two pieces, with a read between them.
abbrev pieces_of_lines : List Event
pieces_of_lines = appended (7 ∷ 10 ∷ 8 ∷ []) ∷ read ∷ appended (9 ∷ 10 ∷ 5 ∷ []) ∷ []

ingested_once_example :
    (happen_all same_bytes is_empty
      (λ l. some l)
      any_row
      "ultra"
      (pieces_of_lines ++ (read ∷ []))
      (4 ∷ [], record { offset = 0; rows = [] })).1.rows
    ≡ ingest_lines same_bytes is_empty
        (λ l. some l)
        any_row
        "ultra"
        (lines_of [] ((4 ∷ []) ++ written pieces_of_lines))
ingested_once_example =
    ingested_once same_bytes (λ bs h. refl) is_empty refl (λ l. some l) any_row "ultra" (4 ∷ [])
      pieces_of_lines (refl, tt)
      ((refl, (refl, (refl, tt))), (tt, ((refl, (refl, (refl, tt))), tt)))

both_rows :
    ingest_lines same_bytes is_empty
      (λ l. some l)
      any_row
      "ultra"
      (lines_of [] ((4 ∷ []) ++ written pieces_of_lines))
    ≡ (4 ∷ 7 ∷ [], "ultra") ∷ (8 ∷ 9 ∷ [], "ultra") ∷ []
unfolding ingest_lines lines_of
both_rows = refl

abbrev shaky : List Action
shaky = beaten unanswered ∷ grown (9 ∷ 10 ∷ 5 ∷ []) ∷ beaten lost ∷ beaten answered ∷ []

shipped_example :
    let x =
      act_all same_bytes is_empty
        (λ l. some l)
        any_row
        "air"
        ship_limits
        shaky
        (record { file = (3 ∷ 10 ∷ []) ++ (7 ∷ 10 ∷ 8 ∷ []); offset = 2; rows = [] }) in
    (ls : List (List ℕ)) × (rest : List ℕ) × (extra : List (List ℕ × String)) × All IsLine ls
    × ((7 ∷ 10 ∷ 8 ∷ []) ++ added shaky ≡ joined ls ++ rest)
    × (x.file ≡ (3 ∷ 10 ∷ []) ++ ((7 ∷ 10 ∷ 8 ∷ []) ++ added shaky))
    × (x.offset ≡ length ((3 ∷ 10 ∷ []) ++ joined ls))
    × (x.rows ≡ [] ++ extra)
    × All
        (λ r. In r extra)
        (ingest_lines same_bytes is_empty (λ l. some l) any_row "air" (map same_bytes ls))
shipped_example =
    shipped same_bytes is_empty (λ l. some l) any_row "air" ship_limits shaky (3 ∷ 10 ∷ [])
      (7 ∷ 10 ∷ 8 ∷ []) []
