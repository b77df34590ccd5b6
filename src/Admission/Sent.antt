-- ===== src/Admission/Sent.antt =====
-- What an agent's log and heartbeats do to the coordinator's table (dashboard/lib/admission-ship.js).
use mathlib.Core.List.{append-nil}
use actions_runners.Prelude.{
  Bool, List, Option, String, [], ap, arith, false, if◌then◌else◌, length, map, refl, suc, take,
  zero, ℕ, ◌++◌, ◌==◌, ◌∷◌, ◌≡◌,
}
use actions_runners.Admission.Log.{joined}
use actions_runners.Admission.Ship.{Limits, sizes_of}
use actions_runners.Admission.Ingest.{ingest_lines}
use actions_runners.Admission.Beat.{
  Delivery, Link, answered, beat, deliver_lines, lost, most_lines, unanswered,
}
use actions_runners.Admission.Pieces.{advance_lem, read_pending_lem, sent_of}

-- What happens to an agent's log.
pub data Action : Type 0 where
  grown : List ℕ → Action
  beaten : Delivery → Action

-- The bytes that a sequence of actions appends.
abbrev pub added : List Action → List ℕ
added [] = []
added (grown bs ∷ es) = bs ++ added es
added (beaten d ∷ es) = added es

take-map {ℓ κ} :
    {A : Type ℓ} {B : Type κ} (f : A → B) (n : ℕ) (xs : List A)
    → take n (map f xs) ≡ map f (take n xs)
take-map f zero xs = refl
take-map f (suc n) [] = refl
take-map f (suc n) (x ∷ xs) = ap (λ t. f x ∷ t) (take-map f n xs)

module _ {ℓ} {Row : Type ℓ} (decoded : List ℕ → List ℕ) (blank : List ℕ → Bool)
    (row_from : List ℕ → Option Row) (accepts : Row × String → Bool) (host : String)
    (lim : Limits) where
  unfoldable pub act : Action → Link Row → Link Row
  unfolding beat
  act (grown bs) x = record x { file = x.file ++ bs }
  act (beaten d) x = beat decoded blank row_from accepts host lim d x

  unfoldable pub act_all : List Action → Link Row → Link Row
  unfolding act
  act_all [] x = x
  act_all (e ∷ es) x = act_all es (act e x)

  abbrev pub rows_of : List (List ℕ) → List (Row × String)
  rows_of ls = ingest_lines decoded blank row_from accepts host (map decoded ls)

  abbrev pub at_end_of : List ℕ → List ℕ → List (Row × String) → Link Row
  at_end_of a t rows = record { file = a ++ t; offset = length a; rows = rows }

  -- The state after a heartbeat with the lines `qs`.
  abbrev pub outcome : Delivery → List ℕ → List ℕ → List (List ℕ) → List (Row × String) → Link Row
  outcome lost a t qs rows = at_end_of a t rows
  outcome unanswered a t qs rows = at_end_of a t (rows ++ rows_of qs)
  outcome answered a t qs rows = record {
    file = a ++ t;
    offset = length (a ++ joined qs);
    rows = rows ++ rows_of qs;
  }

  delivered :
      (d : Delivery) (a t : List ℕ) (ls : List (List ℕ)) (rows : List (Row × String))
      → deliver_lines decoded blank row_from accepts host
          (record { offset = length a; lines = map decoded ls; sizes = sizes_of ls })
          d
          (at_end_of a t rows)
        ≡ outcome d a t (take most_lines ls) rows
  delivered lost a t ls rows = refl
  delivered unanswered a t ls rows = rw (take-map decoded most_lines ls) refl
  delivered answered a t ls rows =
      rw (take-map decoded most_lines ls, advance_lem decoded most_lines a ls) refl

  nothing_sent :
      (d : Delivery) (a t : List ℕ) (rows : List (Row × String))
      → at_end_of a t rows ≡ outcome d a t [] rows
  unfolding ingest_lines
  nothing_sent lost a t rows = refl
  nothing_sent unanswered a t rows = rw (append-nil rows) refl
  nothing_sent answered a t rows = rw (append-nil rows, append-nil a) refl

  pub beat_lem :
      (d : Delivery) (a t : List ℕ) (rows : List (Row × String))
      → beat decoded blank row_from accepts host lim d (at_end_of a t rows)
        ≡ outcome d a t (take most_lines (sent_of lim a t)) rows
  unfolding beat
  beat_lem d a t rows = rw (read_pending_lem decoded lim a t) (by_lines (sent_of lim a t))
    where
      by_lines :
          (ls : List (List ℕ))
          → (if length (map decoded ls) == 0
              then at_end_of a t rows
              else deliver_lines decoded blank row_from accepts host
                  (record { offset = length a; lines = map decoded ls; sizes = sizes_of ls })
                  d
                  (at_end_of a t rows))
            ≡ outcome d a t (take most_lines ls) rows
      by_lines [] = nothing_sent d a t rows
      by_lines (l ∷ ls) =
          let more : (length (map decoded (l ∷ ls)) == 0) ≡ false = ground arith in
          rw more (delivered d a t (l ∷ ls) rows)
