-- ===== src/Settle/Loop.antt =====
-- The loop of JobSettler.settle and of RunSettler.settle (dashboard/lib/settle.js).
use actions_runners.Prelude.{
  Bool, List, Option, String, [], false, if◌then◌else◌, leb, none, some, true, ℕ, ◌++◌, ◌+◌, ◌∷◌,
}

-- `got true` is a job with a conclusion, or a run that is completed; `missing` is the status 404.
pub data Reply : Type 0 where
  got : Bool → Reply
  rate_limited missing broken : Reply

-- A row, the rest of the rate limit before it is asked about, and the answer.
pub record Ask : Type 0 where
  pub id : ℕ
  pub repo : String
  pub remaining : Option ℕ
  pub reply : Reply

pub record Settling : Type 0 where
  pub calls : ℕ
  pub settled : List ℕ
  pub persisted : List ℕ
  pub touched : List ℕ
  pub warned : List ℕ

abbrev pub nothing : Settling
nothing = record { calls = 0; settled = []; persisted = []; touched = []; warned = [] }

-- `calls >= maxCalls`, which is Infinity if there is no limit.
abbrev pub at_limit : Option ℕ → ℕ → Bool
at_limit none calls = false
at_limit (some most) calls = leb most calls

-- `rem != null && rem <= minRemaining`
abbrev pub is_low : Option ℕ → ℕ → Bool
is_low none least = false
is_low (some rem) least = leb rem least

abbrev pub stops : Reply → Bool
stops rate_limited = true
stops _ = false

-- The body of `try` and of `catch`.
abbrev pub react : Ask → Reply → Settling → Settling
react a (got moved) s = record s {
  calls = s.calls + 1;
  persisted = s.persisted ++ (a.id ∷ []);
  settled = if moved then s.settled ++ (a.id ∷ []) else s.settled;
}
react a rate_limited s = record s { calls = s.calls + 1 }
react a missing s = record s { calls = s.calls + 1; touched = s.touched ++ (a.id ∷ []) }
react a broken s = record s { calls = s.calls + 1; warned = s.warned ++ (a.id ∷ []) }

-- `settle`
unfoldable pub settle : Option ℕ → ℕ → List Ask → Settling → Settling
settle most least [] s = s
settle most least (a ∷ rest) s =
    let next = react a a.reply s in
    let final = settle most least rest next in
    if at_limit most s.calls
    then s
    else if is_low a.remaining least
    then s
    else if stops a.reply
    then next
    else final
