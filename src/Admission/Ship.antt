-- ===== src/Admission/Ship.antt =====
-- The log of an agent host, sent with the heartbeats (dashboard/lib/admission-ship.js).
use actions_runners.Prelude.{
  List, Option, [], if◌then◌else◌, leb, length, ltb, map, max, min, none, some, suc, take, zero, ℕ,
  ◌++◌, ◌+◌, ◌-◌, ◌==◌, ◌∷◌,
}
use actions_runners.Admission.Log.{drop, newline}

pub record Limits : Type 0 where
  pub max_lines : ℕ
  pub max_bytes : ℕ

-- SHIP_MAX_LINES, SHIP_MAX_BYTES
abbrev pub ship_limits : Limits
ship_limits = record { max_lines = 500; max_bytes = 196608 }

-- What `readPending` returns.
pub record Pending : Type 0 where
  pub offset : ℕ
  pub lines : List (List ℕ)
  pub sizes : List ℕ

-- The loop of `readPending` over the bytes that were read, with the lines it may still take and the
-- bytes since the last newline.
unfoldable pub pieces : ℕ → List ℕ → List ℕ → List (List ℕ)
pieces max l [] = []
pieces zero l (b ∷ bs) = []
pieces (suc n) l (b ∷ bs) =
    let ends = b == newline in
    let rest = pieces (if ends then n else suc n) (if ends then [] else l ++ (b ∷ [])) bs in
    if ends then l ∷ rest else rest

abbrev pub sizes_of : List (List ℕ) → List ℕ
sizes_of ls = map (λ l. length l + 1) ls

-- `readPending`, of a file that may be missing.
unfoldable pub read_pending : (List ℕ → List ℕ) → Limits → Option (List ℕ) → ℕ → Pending
unfolding pieces
read_pending decoded lim none offset = record { offset = 0; lines = []; sizes = [] }
read_pending decoded lim (some file) offset =
    let from = if ltb (length file) offset then 0 else offset in
    let found = take (min (length file - from) lim.max_bytes) (drop from file) in
    let raw = pieces lim.max_lines [] found in
    if leb (length file) from
    then record { offset = from; lines = []; sizes = [] }
    else record { offset = from; lines = map decoded raw; sizes = sizes_of raw }

abbrev pub sum : List ℕ → ℕ
sum [] = 0
sum (n ∷ ns) = n + sum ns

-- `advance`, for a count that is no less than 0.
unfoldable pub advance : Pending → ℕ → ℕ
advance p accepted = p.offset + sum (take (min accepted (length p.sizes)) p.sizes)

-- `loadOffset`: the stored offset, or the end of the log at the first start.
abbrev pub load_offset : Option ℕ → Option (List ℕ) → ℕ
load_offset (some n) file = n
load_offset none none = 0
load_offset none (some file) = length file
