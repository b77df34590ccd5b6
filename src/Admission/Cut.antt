-- ===== src/Admission/Cut.antt =====
-- What `ingest` cuts a text into (dashboard/lib/admission.js).
use mathlib.Core.List.{append_assoc, append-nil}
use actions_runners.Prelude.{All, List, [], ap, arith, length-append, refl, ℕ, ◌++◌, ◌∙◌, ◌∷◌, ◌≡◌}
use actions_runners.Admission.Log.{IsLine, joined, newline}
use actions_runners.Admission.Ingest.{split, until_last}

until_last_rest : (r : List ℕ) → IsLine r → until_last r ≡ []
unfolding until_last
until_last_rest [] h = refl
until_last_rest (b ∷ r) h = rw (h.0, until_last_rest r h.1) refl

until_last_line :
    (m bs : List ℕ) → until_last (m ++ (newline ∷ bs)) ≡ m ++ (newline ∷ until_last bs)
unfolding until_last
until_last_line [] bs = refl
until_last_line (b ∷ m) bs =
    rw (until_last_line m bs) (ground (arith, length-append m (newline ∷ until_last bs)))

pub until_last-joined :
    (ls : List (List ℕ)) (r : List ℕ) → IsLine r → until_last (joined ls ++ r) ≡ joined ls
until_last-joined [] r o = until_last_rest r o
until_last-joined (l ∷ ls) r o =
    rw (append_assoc l (newline ∷ joined ls) r)
      (until_last_line l (joined ls ++ r) ∙ ap (λ t. l ++ (newline ∷ t)) (until_last-joined ls r o))

split_line : (l m bs : List ℕ) → IsLine m → split l (m ++ (newline ∷ bs)) ≡ (l ++ m) ∷ split [] bs
unfolding split
split_line l [] bs h = rw (append-nil l) refl
split_line l (b ∷ m) bs h =
    rw (h.0, split_line (l ++ (b ∷ [])) m bs h.1, append_assoc l (b ∷ []) m) refl

pub split-joined : (ls : List (List ℕ)) → All IsLine ls → split [] (joined ls) ≡ ls ++ ([] ∷ [])
unfolding split
split-joined [] h = refl
split-joined (l ∷ ls) h = split_line [] l (joined ls) h.0 ∙ ap (λ t. l ∷ t) (split-joined ls h.1)
