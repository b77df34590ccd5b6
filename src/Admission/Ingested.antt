-- ===== src/Admission/Ingested.antt =====
-- Every line of the own log becomes a row once (dashboard/lib/admission.js).
use mathlib.Core.Path.{subst}
use mathlib.Core.List.{append_assoc, append-nil}
use actions_runners.Prelude.{
  All, All-append, Bool, Bool-cases, List, Option, String, [], ap, append-All_right, arith, false,
  inl, inr, leb, length, length-append, ltb, refl, some, sym, true, ℕ, ◌++◌, ◌==◌, ◌∙◌, ◌∷◌, ◌≡◌,
}
use actions_runners.Admission.Log.{
  IsLine, drop-append, joined, joined-append, lines_of, lines_of-joined, newline, parts_of,
  parts_of-nil,
}
use actions_runners.Admission.Ingest.{Source, consume, ingest, ingest_lines, insert_row, until_last}
use actions_runners.Admission.Cut.{split-joined, until_last-joined}

-- What happens to the log and to its reader.
pub data Event : Type 0 where
  appended : List ℕ → Event
  read : Event

-- Bytes that are ASCII.
abbrev pub IsAscii : List ℕ → Type 0
IsAscii bs = All (λ b. ltb b 128 ≡ true) bs

abbrev pub IsPlain : Event → Type 0
IsPlain (appended bs) = IsAscii bs
IsPlain read = Unit {0}

-- The bytes that a sequence of events appends.
abbrev pub written : List Event → List ℕ
written [] = []
written (appended bs ∷ es) = bs ++ written es
written (read ∷ es) = written es

module _ {ℓ} {Row : Type ℓ} (decoded : List ℕ → List ℕ) (blank : List ℕ → Bool)
    (row_from : List ℕ → Option Row) (accepts : Row × String → Bool) (host : String) where
  -- The log and what its reader has of it.
  abbrev pub Local : Type ℓ
  Local = List ℕ × Source Row

  unfoldable pub happen : Event → Local → Local
  unfolding ingest
  happen (appended bs) (file, s) = (file ++ bs, s)
  happen read (file, s) = (file, ingest decoded blank row_from accepts host (some file) s)

  unfoldable pub happen_all : List Event → Local → Local
  unfolding happen
  happen_all [] x = x
  happen_all (e ∷ es) x = happen_all es (happen e x)

  happen_all-append :
      (es ds : List Event) (x : Local) → happen_all (es ++ ds) x ≡ happen_all ds (happen_all es x)
  unfolding happen_all
  happen_all-append [] ds x = refl
  happen_all-append (e ∷ es) ds x = happen_all-append es ds (happen e x)

  happen_all-written :
      (es : List Event) (file : List ℕ) (s : Source Row)
      → (happen_all es (file, s)).0 ≡ file ++ written es
  unfolding happen_all happen
  happen_all-written [] file s = sym (append-nil file)
  happen_all-written (appended bs ∷ es) file s =
      happen_all-written es (file ++ bs) s ∙ append_assoc file bs (written es)
  happen_all-written (read ∷ es) file s = happen_all-written es file _

  ingest_lines-append :
      (xs ys : List (List ℕ))
      → ingest_lines decoded blank row_from accepts host (xs ++ ys)
        ≡ ingest_lines decoded blank row_from accepts host xs
          ++ ingest_lines decoded blank row_from accepts host ys
  unfolding ingest_lines
  ingest_lines-append [] ys = refl
  ingest_lines-append (x ∷ xs) ys = elim (Bool-cases (blank x)) [
    | inl e ↦ rw e (ingest_lines-append xs ys)
    | inr e ↦
        rw (e, ingest_lines-append xs ys)
          (sym (append_assoc (insert_row decoded blank row_from accepts host (row_from x)) _ _))
  ]

  -- The reader when the lines `ls` are rows.
  caught : List (List ℕ) → Source Row
  caught ls = record {
    offset = length (joined ls);
    rows = ingest_lines decoded blank row_from accepts host ls;
  }

  module _ (empty_blank : blank [] ≡ true) where
    consume-joined :
        (ls ms : List (List ℕ))
        → All IsLine ms
        → consume decoded blank row_from accepts host (length (joined ls)) (joined ms) (caught ls)
          ≡ caught (ls ++ ms)
    unfolding caught ingest_lines
    consume-joined ls [] h = rw (append-nil ls) refl
    consume-joined ls (m ∷ ms) h =
        let some_bytes : (length (joined (m ∷ ms)) == 0) ≡ false =
          ground (arith, length-append m (newline ∷ joined ms)) in
        rw
          (
            some_bytes,
            split-joined (m ∷ ms) h,
            ingest_lines-append (m ∷ ms) ([] ∷ []),
            ingest_lines-append ls (m ∷ ms),
            joined-append ls (m ∷ ms),
            length-append (joined ls) (joined (m ∷ ms)),
            empty_blank,
            append-nil (ingest_lines decoded blank row_from accepts host (m ∷ ms)),
          )
          refl

    module _ (plain : (bs : List ℕ) → IsAscii bs → decoded bs ≡ bs) where
      -- A read makes rows of the whole lines that are new.
      ingest-joined :
          (ls : List (List ℕ)) (rest : List ℕ)
          → IsAscii rest
          → ingest decoded blank row_from accepts host (some (joined ls ++ rest)) (caught ls)
            ≡ caught (ls ++ (parts_of rest).whole)
      unfolding ingest caught
      ingest-joined ls [] a =
          let kept : ltb (length (joined ls)) (length (joined ls)) ≡ false = ground arith in
          let done : leb (length (joined ls)) (length (joined ls)) ≡ true = ground arith in
          rw (append-nil (joined ls), parts_of-nil, append-nil ls, kept, done) refl
      ingest-joined ls (b ∷ bs) a =
          let p = parts_of (b ∷ bs) in
          let file = joined ls ++ (b ∷ bs) in
          let kept : ltb (length file) (length (joined ls)) ≡ false =
            ground (arith, length-append (joined ls) (b ∷ bs)) in
          let more : leb (length file) (length (joined ls)) ≡ false =
            ground (arith, length-append (joined ls) (b ∷ bs)) in
          let found : until_last (b ∷ bs) ≡ joined p.whole =
            ap until_last p.same ∙ until_last-joined p.whole p.rest p.tail_line in
          rw (kept, more, drop-append (joined ls) (b ∷ bs), plain (b ∷ bs) a, found)
            (consume-joined ls p.whole p.lines)

      -- However appends and reads follow each other, the table has the lines that were read.
      caught_up :
          (es : List Event) (ls : List (List ℕ)) (rest : List ℕ)
          → All IsPlain es
          → All IsLine ls
          → IsAscii rest
          → (ms : List (List ℕ)) × (r : List ℕ) × All IsLine ms
            × IsAscii r
            × (happen_all es (joined ls ++ rest, caught ls) ≡ (joined ms ++ r, caught ms))
      unfolding happen_all happen
      caught_up [] ls rest p h a = (ls, rest, h, a, refl)
      caught_up (appended bs ∷ es) ls rest p h a =
          rw (append_assoc (joined ls) rest bs)
            (caught_up es ls (rest ++ bs) p.1 h (All-append _ rest bs a p.0))
      caught_up (read ∷ es) ls rest p h a =
          let q = parts_of rest in
          let now : joined ls ++ rest ≡ joined (ls ++ q.whole) ++ q.rest =
            ap (λ t. joined ls ++ t) q.same
            ∙ sym (append_assoc (joined ls) (joined q.whole) q.rest)
            ∙ sym (ap (λ t. t ++ q.rest) (joined-append ls q.whole)) in
          rw (ingest-joined ls rest a, now)
            (caught_up es (ls ++ q.whole) q.rest p.1 (All-append _ ls q.whole h q.lines)
              (append-All_right _ (joined q.whole) q.rest (subst IsAscii q.same a)))

      last_read :
          (es : List Event) (file : List ℕ)
          → IsAscii file
          → All IsPlain es
          → (happen_all (es ++ (read ∷ [])) (file, caught [])).1.rows
            ≡ ingest_lines decoded blank row_from accepts host (lines_of [] (file ++ written es))
      unfolding happen_all happen caught
      last_read es file a p =
          let (ms, r, h, b, e) = caught_up es [] file p tt a in
          let q = parts_of r in
          let whole : file ++ written es ≡ joined (ms ++ q.whole) ++ q.rest =
            sym (happen_all-written es file (caught []))
            ∙ ap (λ x. x.0) e
            ∙ ap (λ t. joined ms ++ t) q.same
            ∙ sym (append_assoc (joined ms) (joined q.whole) q.rest)
            ∙ sym (ap (λ t. t ++ q.rest) (joined-append ms q.whole)) in
          let found : lines_of [] (file ++ written es) ≡ ms ++ q.whole =
            ap (lines_of []) whole
            ∙ lines_of-joined (ms ++ q.whole) q.rest (All-append _ ms q.whole h q.lines)
                q.tail_line in
          rw (happen_all-append es (read ∷ []) (file, caught []), e, ingest-joined ms r b, found)
            refl

-- A log in ASCII that only grows is read without a line lost or read twice: whatever appends and reads
-- follow each other from a table without rows, with lines written in pieces or many at a time, a last
-- read leaves the table with the rows of the whole lines of the log, each once and in their order. The
-- decoding of ASCII is taken to change nothing, and the test for a blank line to hold of the empty one.
pub ingested_once {ℓ} :
    {Row : Type ℓ} (decoded : List ℕ → List ℕ)
    → ((bs : List ℕ) → IsAscii bs → decoded bs ≡ bs)
    → (blank : List ℕ → Bool) → blank [] ≡ true
    → (row_from : List ℕ → Option Row) (accepts : Row × String → Bool) (host : String)
      (file : List ℕ) (es : List Event)
    → IsAscii file
    → All IsPlain es
    → (happen_all decoded blank row_from accepts host
        (es ++ (read ∷ []))
        (file, record { offset = 0; rows = [] })).1.rows
      ≡ ingest_lines decoded blank row_from accepts host (lines_of [] (file ++ written es))
unfolding caught ingest_lines
ingested_once decoded plain blank empty_blank row_from accepts host file es a p =
    last_read decoded blank row_from accepts host empty_blank plain es file a p
