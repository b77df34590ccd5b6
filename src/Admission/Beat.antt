-- ===== src/Admission/Beat.antt =====
-- A heartbeat with the lines of the log (dashboard/agent.js, `heartbeat`; the answer is that of
-- `/api/host/heartbeat` in dashboard/fleetd.js).
use actions_runners.Prelude.{
  Bool, List, Option, String, if◌then◌else◌, length, min, some, take, ℕ, ◌++◌, ◌==◌,
}
use actions_runners.Admission.Ship.{Limits, Pending, advance, read_pending}
use actions_runners.Admission.Ingest.{ingest_lines}

-- What becomes of a heartbeat: it does not arrive, its answer does not, or both do.
pub data Delivery : Type 0 where
  lost unanswered answered : Delivery

-- The agent's log and stored offset, and the coordinator's table.
pub record Link {ℓ} (Row : Type ℓ) : Type ℓ where
  pub file : List ℕ
  pub offset : ℕ
  pub rows : List (Row × String)

-- The lines that the coordinator takes from one heartbeat.
abbrev pub most_lines : ℕ
most_lines = 2000

module _ {ℓ} {Row : Type ℓ} (decoded : List ℕ → List ℕ) (blank : List ℕ → Bool)
    (row_from : List ℕ → Option Row) (accepts : Row × String → Bool) (host : String) where
  -- The rows of what the coordinator takes, and the count it answers.
  abbrev pub took : List (List ℕ) → List (Row × String)
  took lines = ingest_lines decoded blank row_from accepts host (take most_lines lines)

  abbrev pub accepted_of : List (List ℕ) → ℕ
  accepted_of lines = min (length lines) most_lines

  abbrev pub deliver_lines : Pending → Delivery → Link Row → Link Row
  deliver_lines p lost x = x
  deliver_lines p unanswered x = record x { rows = x.rows ++ took p.lines }
  deliver_lines p answered x = record {
    file = x.file;
    offset = advance p (accepted_of p.lines);
    rows = x.rows ++ took p.lines;
  }

  -- The lines' part of `heartbeat`, which sends none when there are none.
  unfoldable pub beat : Limits → Delivery → Link Row → Link Row
  unfolding read_pending advance ingest_lines
  beat lim d x =
      let p = read_pending decoded lim (some x.file) x.offset in
      if length p.lines == 0 then x else deliver_lines p d x
