-- ===== src/Admission/Shipped.antt =====
-- The lines of an agent's log become rows of the coordinator (dashboard/lib/admission-ship.js).
use mathlib.Core.List.{append_assoc, append-nil}
use actions_runners.Prelude.{
  All, All-In, All-append, All-of, Bool, Bool-cases, In, List, Option, String, [], ap,
  append-In_left, append-In_right, inl, inr, length, map, refl, suc, sym, take, zero, ℕ, ◌++◌, ◌∙◌,
  ◌∷◌, ◌≡◌,
}
use actions_runners.Admission.Log.{IsLine, drop, joined, joined-append, take-drop}
use actions_runners.Admission.Ship.{Limits}
use actions_runners.Admission.Ingest.{ingest_lines, insert_row}
use actions_runners.Admission.Beat.{Link, answered, lost, most_lines, unanswered}
use actions_runners.Admission.Pieces.{sent-Begins, sent_of}
use actions_runners.Admission.Sent.{
  Action, act, act_all, added, at_end_of, beat_lem, beaten, grown, outcome, rows_of,
}

All-take {ℓ κ} : {A : Type ℓ} (P : A → Type κ) (n : ℕ) (xs : List A) → All P xs → All P (take n xs)
All-take P zero xs h = tt
All-take P (suc n) [] h = tt
All-take P (suc n) (x ∷ xs) h = (h.0, All-take P n xs h.1)

module _ {ℓ} {Row : Type ℓ} (decoded : List ℕ → List ℕ) (blank : List ℕ → Bool)
    (row_from : List ℕ → Option Row) (accepts : Row × String → Bool) (host : String)
    (lim : Limits) where
  -- What a run from a state with `before` read makes of the log and of the table.
  record Ships (before after : List ℕ) (rows : List (Row × String)) (x : Link Row) : Type ℓ where
    sent : List (List ℕ)
    rest : List ℕ
    extra : List (Row × String)
    lines : All IsLine sent
    same : after ≡ joined sent ++ rest
    file : x.file ≡ before ++ after
    offset : x.offset ≡ length (before ++ joined sent)
    grows : x.rows ≡ rows ++ extra
    there : All (λ r. In r extra) (rows_of decoded blank row_from accepts host lim sent)

  pub rows_of-append :
      (xs ys : List (List ℕ))
      → rows_of decoded blank row_from accepts host lim (xs ++ ys)
        ≡ rows_of decoded blank row_from accepts host lim xs
          ++ rows_of decoded blank row_from accepts host lim ys
  unfolding ingest_lines
  rows_of-append [] ys = refl
  rows_of-append (x ∷ xs) ys = elim (Bool-cases (blank (decoded x))) [
    | inl e ↦ rw e (rows_of-append xs ys)
    | inr e ↦
        rw (e, rows_of-append xs ys)
          (sym (
            append_assoc (insert_row decoded blank row_from accepts host (row_from (decoded x))) _
              _))
  ]

  later : (xs ys zs : List (Row × String)) → All (λ r. In r ys) zs → All (λ r. In r (xs ++ ys)) zs
  later xs ys zs h = All-of _ zs (λ r i. append-In_right r xs ys (All-In (λ r. In r ys) r zs h i))

  -- After a heartbeat that was answered.
  after_answer :
      (a t : List ℕ) (rows : List (Row × String)) (qs : List (List ℕ)) (r more : List ℕ)
      (x : Link Row)
      → All IsLine qs
      → t ≡ joined qs ++ r
      → Ships
          (a ++ joined qs)
          (r ++ more)
          (rows ++ rows_of decoded blank row_from accepts host lim qs)
          x
      → Ships a (t ++ more) rows x
  after_answer a t rows qs r more x h e s = record {
    sent = qs ++ s.sent;
    rest = s.rest;
    extra = rows_of decoded blank row_from accepts host lim qs ++ s.extra;
    lines = All-append _ qs s.sent h s.lines;
    same =
        ap (λ u. u ++ more) e
        ∙ append_assoc (joined qs) r more
        ∙ ap (λ u. joined qs ++ u) s.same
        ∙ sym (append_assoc (joined qs) (joined s.sent) s.rest)
        ∙ ap (λ u. u ++ s.rest) (sym (joined-append qs s.sent));
    file =
        s.file
        ∙ append_assoc a (joined qs) (r ++ more)
        ∙ ap (λ u. a ++ u) (sym (append_assoc (joined qs) r more) ∙ ap (λ u. u ++ more) (sym e));
    offset =
        s.offset
        ∙ ap length (
            append_assoc a (joined qs) (joined s.sent)
            ∙ ap (λ u. a ++ u) (sym (joined-append qs s.sent)));
    grows =
        s.grows ∙ append_assoc rows (rows_of decoded blank row_from accepts host lim qs) s.extra;
    there = rw (rows_of-append qs s.sent) (
        All-append _ (rows_of decoded blank row_from accepts host lim qs)
          (rows_of decoded blank row_from accepts host lim s.sent)
          (All-of _ (rows_of decoded blank row_from accepts host lim qs) (λ r i.
            append-In_left r (rows_of decoded blank row_from accepts host lim qs) s.extra i))
          (later (rows_of decoded blank row_from accepts host lim qs) s.extra
            (rows_of decoded blank row_from accepts host lim s.sent) s.there));
  }

  -- After a heartbeat that arrived without an answer.
  after_arrival :
      (a t : List ℕ) (rows new : List (Row × String)) (x : Link Row)
      → Ships a t (rows ++ new) x
      → Ships a t rows x
  after_arrival a t rows new x s = record {
    sent = s.sent;
    rest = s.rest;
    extra = new ++ s.extra;
    lines = s.lines;
    same = s.same;
    file = s.file;
    offset = s.offset;
    grows = s.grows ∙ append_assoc rows new s.extra;
    there = later new s.extra (rows_of decoded blank row_from accepts host lim s.sent) s.there;
  }

  -- The lines that the coordinator takes from a heartbeat are the next ones of the log.
  pub taken_next :
      (a t : List ℕ)
      → All IsLine (take most_lines (sent_of lim a t))
        × (r : List ℕ) × (t ≡ joined (take most_lines (sent_of lim a t)) ++ r)
  taken_next a t =
      let ls = sent_of lim a t in
      let p = sent-Begins lim a t in
      (
        All-take IsLine most_lines ls p.lines,
        joined (drop most_lines ls) ++ p.rest,
        p.same
            ∙ ap (λ u. u ++ p.rest)
                (ap joined (sym (take-drop most_lines ls))
                  ∙ joined-append (take most_lines ls) (drop most_lines ls))
            ∙ append_assoc (joined (take most_lines ls)) (joined (drop most_lines ls)) p.rest,
      )

  pub answered_next :
      (a t r : List ℕ) (qs : List (List ℕ)) (rows : List (Row × String))
      → t ≡ joined qs ++ r
      → outcome decoded blank row_from accepts host lim answered a t qs rows
        ≡ at_end_of decoded blank row_from accepts host lim
            (a ++ joined qs)
            r
            (rows ++ rows_of decoded blank row_from accepts host lim qs)
  answered_next a t r qs rows e =
      let file : a ++ t ≡ (a ++ joined qs) ++ r =
        ap (λ u. a ++ u) e ∙ sym (append_assoc a (joined qs) r) in
      rw file refl

  ships :
      (es : List Action) (a t : List ℕ) (rows : List (Row × String))
      → Ships a (t ++ added es) rows (
          act_all decoded blank row_from accepts host lim es
            (at_end_of decoded blank row_from accepts host lim a t rows))
  unfolding act_all act ingest_lines
  ships [] a t rows = record {
    sent = [];
    rest = t ++ [];
    extra = [];
    lines = tt;
    same = refl;
    file = ap (λ u. a ++ u) (sym (append-nil t));
    offset = ap length (sym (append-nil a));
    grows = sym (append-nil rows);
    there = tt;
  }
  ships (grown bs ∷ es) a t rows =
      rw (append_assoc a t bs, sym (append_assoc t bs (added es))) (ships es a (t ++ bs) rows)
  ships (beaten lost ∷ es) a t rows =
      rw (beat_lem decoded blank row_from accepts host lim lost a t rows) (ships es a t rows)
  ships (beaten unanswered ∷ es) a t rows =
      let qs = take most_lines (sent_of lim a t) in
      rw (beat_lem decoded blank row_from accepts host lim unanswered a t rows) (
        after_arrival a (t ++ added es) rows (rows_of decoded blank row_from accepts host lim qs) _
          (ships es a t (rows ++ rows_of decoded blank row_from accepts host lim qs)))
  ships (beaten answered ∷ es) a t rows =
      let qs = take most_lines (sent_of lim a t) in
      let (lines, r, e) = taken_next a t in
      rw
        (beat_lem decoded blank row_from accepts host lim answered a t rows
          ∙ answered_next a t r qs rows e)
        (after_answer a t rows qs r (added es) _ lines e (
          ships es (a ++ joined qs) r (rows ++ rows_of decoded blank row_from accepts host lim qs)))

-- An agent's log that only grows reaches the coordinator's table without a hole: whatever appends and
-- heartbeats follow each other, and whichever heartbeats or answers are lost, what lies before the
-- stored offset is what lay there at the start and then whole lines, and the rows of all these lines
-- are among those that were added to the table, which keeps what it had.
pub shipped {ℓ} :
    {Row : Type ℓ} (decoded : List ℕ → List ℕ) (blank : List ℕ → Bool)
    (row_from : List ℕ → Option Row) (accepts : Row × String → Bool) (host : String) (lim : Limits)
    (es : List Action) (before after : List ℕ) (rows : List (Row × String))
    → let x =
        act_all decoded blank row_from accepts host lim es
          (record { file = before ++ after; offset = length before; rows = rows }) in
      (ls : List (List ℕ)) × (rest : List ℕ) × (extra : List (Row × String)) × All IsLine ls
      × (after ++ added es ≡ joined ls ++ rest)
      × (x.file ≡ before ++ (after ++ added es))
      × (x.offset ≡ length (before ++ joined ls))
      × (x.rows ≡ rows ++ extra)
      × All (λ r. In r extra) (ingest_lines decoded blank row_from accepts host (map decoded ls))
shipped decoded blank row_from accepts host lim es before after rows =
    let s = ships decoded blank row_from accepts host lim es before after rows in
    (s.sent, s.rest, s.extra, s.lines, s.same, s.file, s.offset, s.grows, s.there)
