-- ===== src/Admission/Next.antt =====
-- The first lines of a log are in the next heartbeat (dashboard/lib/admission-ship.js).
use mathlib.Core.List.{append_assoc, append-nil}
use actions_runners.Prelude.{
  All, All-append, List, [], ap, arith, inl, inr, length, length-append, max, min, refl, suc, sym,
  take, zero, ℕ, ◌++◌, ◌-◌, ◌<◌, ◌∙◌, ◌∷◌, ◌≡◌, ◌≤◌, ◌⊎◌,
}
use actions_runners.Admission.Log.{
  IsLine, drop, drop-append, joined, joined-append, lines_of, lines_of-joined, newline, parts_of,
}
use actions_runners.Admission.Ship.{Limits, pieces}
use actions_runners.Admission.Beat.{most_lines}
use actions_runners.Admission.Pieces.{sent_of}

-- A first line that fits is found.
first_piece :
    (max k : ℕ) (l m u : List ℕ)
    → IsLine m
    → length m < k
    → 1 ≤ max
    → (ps : List (List ℕ)) × (pieces max l (take k (m ++ (newline ∷ u))) ≡ (l ++ m) ∷ ps)
unfolding pieces
first_piece zero k l m u h f p = absurd (omega (arith, p))
first_piece (suc max) zero l m u h f p = absurd (omega (arith, f))
first_piece (suc max) (suc k) l [] u h f p = (pieces max [] (take k u), rw (append-nil l) refl)
first_piece (suc max) (suc k) l (b ∷ m) u h f p =
    let (ps, e) = first_piece (suc max) k (l ++ (b ∷ [])) m u h.1 (omega (arith, f)) p in
    (ps, rw h.0 (e ∙ ap (λ t. t ∷ ps) (append_assoc l (b ∷ []) m)))

take_first {ℓ} :
    {A : Type ℓ} (n : ℕ) (x : A) (xs : List A) → 1 ≤ n → (ys : List A) × (take n (x ∷ xs) ≡ x ∷ ys)
take_first zero x xs h = absurd (omega (arith, h))
take_first (suc n) x xs h = (take n xs, refl)

-- With a limit that the first line is within, one line at least is taken.
abbrev pub Fits : Limits → List ℕ → Type 0
Fits lim l = length l < lim.max_bytes

one_taken : (l : List ℕ) (ps xs : List (List ℕ)) → xs ≡ l ∷ ps → 1 ≤ length (take most_lines xs)
one_taken l ps xs e =
    let (ys, s) = take_first most_lines l ps (omega arith) in
    let counted = ap (λ z. length (take most_lines z)) e ∙ ap length s in omega (arith, counted)

room :
    (lim : Limits) (a l u : List ℕ)
    → Fits lim l
    → length l < min (length (a ++ (l ++ (newline ∷ u))) - length a) lim.max_bytes
room lim a l u f =
    omega (arith, length-append a (l ++ (newline ∷ u)), length-append l (newline ∷ u), f)

pub progresses :
    (lim : Limits) (a : List ℕ) (ls : List (List ℕ)) (rest : List ℕ)
    → All IsLine ls
    → All (Fits lim) ls
    → 1 ≤ lim.max_lines
    → (length ls ≡ 0) ⊎ (1 ≤ length (take most_lines (sent_of lim a (joined ls ++ rest))))
progresses lim a [] rest h f p = inl refl
progresses lim a (l ∷ ls) rest h f p =
    let u = joined ls ++ rest in
    let (ps, e) = first_piece lim.max_lines _ [] l u h.0 (room lim a l u f.0) p in
    inr (rw (append_assoc l (newline ∷ joined ls) rest) (one_taken l ps _ e))

-- Whole lines at the beginning of a text of whole lines are the first of them.
pub first_lines :
    (ls qs : List (List ℕ)) (rest r : List ℕ)
    → All IsLine ls
    → IsLine rest
    → All IsLine qs
    → joined ls ++ rest ≡ joined qs ++ r
    → (ns : List (List ℕ)) × (ls ≡ qs ++ ns) × (r ≡ joined ns ++ rest)
first_lines ls qs rest r h o g e =
    let p = parts_of r in
    let split : joined ls ++ rest ≡ joined (qs ++ p.whole) ++ p.rest =
      e
      ∙ ap (λ t. joined qs ++ t) p.same
      ∙ sym (append_assoc (joined qs) (joined p.whole) p.rest)
      ∙ sym (ap (λ t. t ++ p.rest) (joined-append qs p.whole)) in
    let lines : ls ≡ qs ++ p.whole =
      sym (lines_of-joined ls rest h o)
      ∙ ap (lines_of []) split
      ∙ lines_of-joined (qs ++ p.whole) p.rest (All-append _ qs p.whole g p.lines) p.tail_line in
    let both : joined qs ++ r ≡ joined qs ++ (joined p.whole ++ rest) =
      sym e
      ∙ ap (λ t. joined t ++ rest) lines
      ∙ ap (λ t. t ++ rest) (joined-append qs p.whole)
      ∙ append_assoc (joined qs) (joined p.whole) rest in
    (p.whole, lines, cut (joined qs) r (joined p.whole ++ rest) both)
  where
    cut : (xs ys zs : List ℕ) → xs ++ ys ≡ xs ++ zs → ys ≡ zs
    cut xs ys zs e = sym (drop-append xs ys) ∙ ap (drop (length xs)) e ∙ drop-append xs zs
