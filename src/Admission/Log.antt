-- ===== src/Admission/Log.antt =====
-- Bytes and the lines in them.
use mathlib.Core.List.{append_assoc, append-nil}
use actions_runners.Prelude.{
  All, Bool-cases, List, [], ap, arith, false, if◌then◌else◌, inl, inr, length, length-append, refl,
  suc, sym, take, true, zero, ℕ, ◌++◌, ◌==◌, ◌∙◌, ◌∷◌, ◌≡◌,
}

-- 0x0a
abbrev pub newline : ℕ
newline = 10

-- The lines with a newline after each.
abbrev pub joined : List (List ℕ) → List ℕ
joined [] = []
joined (l ∷ ls) = l ++ (newline ∷ joined ls)

-- Bytes without a newline.
abbrev pub IsLine : List ℕ → Type 0
IsLine l = All (λ b. (b == newline) ≡ false) l

abbrev pub drop {ℓ} : {A : Type ℓ} → ℕ → List A → List A
drop zero xs = xs
drop (suc n) [] = []
drop (suc n) (x ∷ xs) = drop n xs

module _ {ℓ} {A : Type ℓ} where
  pub drop-append : (xs ys : List A) → drop (length xs) (xs ++ ys) ≡ ys
  drop-append [] ys = refl
  drop-append (x ∷ xs) ys = drop-append xs ys

  pub take-append : (xs ys : List A) → take (length xs) (xs ++ ys) ≡ xs
  take-append [] ys = refl
  take-append (x ∷ xs) ys = ap (λ t. x ∷ t) (take-append xs ys)

  pub take-drop : (n : ℕ) (xs : List A) → take n xs ++ drop n xs ≡ xs
  take-drop zero xs = refl
  take-drop (suc n) [] = refl
  take-drop (suc n) (x ∷ xs) = ap (λ t. x ∷ t) (take-drop n xs)

pub joined-append : (xs ys : List (List ℕ)) → joined (xs ++ ys) ≡ joined xs ++ joined ys
joined-append [] ys = refl
joined-append (x ∷ xs) ys =
    ap (λ t. x ++ (newline ∷ t)) (joined-append xs ys)
    ∙ sym (append_assoc x (newline ∷ joined xs) (joined ys))

-- The whole lines of a text, the first of which has begun with `l`.
unfoldable pub lines_of : List ℕ → List ℕ → List (List ℕ)
lines_of l [] = []
lines_of l (b ∷ bs) =
    let rest = lines_of (if b == newline then [] else l ++ (b ∷ [])) bs in
    if b == newline then l ∷ rest else rest

-- A text is whole lines and the beginning of one.
pub record Parts (bs : List ℕ) : Type 0 where
  pub whole : List (List ℕ)
  pub rest : List ℕ
  pub lines : All IsLine whole
  pub tail_line : IsLine rest
  pub same : bs ≡ joined whole ++ rest

begun :
    (b : ℕ) (bs : List ℕ) (ls : List (List ℕ)) (r : List ℕ)
    → (b == newline) ≡ false
    → All IsLine ls
    → IsLine r
    → bs ≡ joined ls ++ r
    → Parts (b ∷ bs)
begun b bs [] r n h o e = record {
  whole = [];
  rest = b ∷ r;
  lines = tt;
  tail_line = (n, o);
  same = ap (λ t. b ∷ t) e;
}
begun b bs (l ∷ ls) r n h o e = record {
  whole = (b ∷ l) ∷ ls;
  rest = r;
  lines = ((n, h.0), h.1);
  tail_line = o;
  same = ap (λ t. b ∷ t) e;
}

pub is_newline :
    (b : ℕ) (bs xs : List ℕ) → (b == newline) ≡ true → bs ≡ xs → (b ∷ bs) ≡ (newline ∷ xs)
is_newline b bs xs e h = let q : b ≡ newline = ground arith in cc

pub parts_of : (bs : List ℕ) → Parts bs
parts_of [] = record { whole = []; rest = []; lines = tt; tail_line = tt; same = refl }
parts_of (b ∷ bs) =
    let p = parts_of bs in
    elim (Bool-cases (b == newline)) [
      | inl e ↦ record {
        whole = [] ∷ p.whole;
        rest = p.rest;
        lines = (tt, p.lines);
        tail_line = p.tail_line;
        same = is_newline b bs (joined p.whole ++ p.rest) e p.same;
      }
      | inr e ↦ begun b bs p.whole p.rest e p.lines p.tail_line p.same
    ]

-- How the lines of a text that begins with whole lines are found.
lines_of_line :
    (l m bs : List ℕ) → IsLine m → lines_of l (m ++ (newline ∷ bs)) ≡ (l ++ m) ∷ lines_of [] bs
unfolding lines_of
lines_of_line l [] bs h = rw (append-nil l) refl
lines_of_line l (b ∷ m) bs h =
    rw (h.0, lines_of_line (l ++ (b ∷ [])) m bs h.1, append_assoc l (b ∷ []) m) refl

lines_of_rest : (l r : List ℕ) → IsLine r → lines_of l r ≡ []
unfolding lines_of
lines_of_rest l [] h = refl
lines_of_rest l (b ∷ r) h = rw h.0 (lines_of_rest (l ++ (b ∷ [])) r h.1)

pub lines_of-joined :
    (ls : List (List ℕ)) (r : List ℕ) → All IsLine ls → IsLine r → lines_of [] (joined ls ++ r) ≡ ls
lines_of-joined [] r h o = lines_of_rest [] r o
lines_of-joined (l ∷ ls) r h o =
    rw (append_assoc l (newline ∷ joined ls) r)
      (lines_of_line [] l (joined ls ++ r) h.0 ∙ ap (λ t. l ∷ t) (lines_of-joined ls r h.1 o))

-- No bytes hold no line.
no_line : (ms : List (List ℕ)) (r : List ℕ) → [] ≡ joined ms ++ r → ms ≡ []
no_line [] r e = refl
no_line (m ∷ ms) r e = absurd (
    omega (
      arith,
      ap length e,
      length-append (joined (m ∷ ms)) r,
      length-append m (newline ∷ joined ms),
    ))

pub parts_of-nil : (parts_of []).whole ≡ []
parts_of-nil = no_line (parts_of []).whole (parts_of []).rest (parts_of []).same
