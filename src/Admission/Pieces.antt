-- ===== src/Admission/Pieces.antt =====
-- What a heartbeat carries of the log (dashboard/lib/admission-ship.js).
use mathlib.Core.List.{append_assoc, append-nil}
use actions_runners.Prelude.{
  All, All-append, Bool-cases, List, [], ap, arith, false, inl, inr, leb, length, length-append,
  length-map, ltb, map, min, refl, some, suc, sym, take, true, zero, ℕ, ◌++◌, ◌+◌, ◌-◌, ◌==◌, ◌∙◌,
  ◌∷◌, ◌≡◌, ◌≤◌,
}
use actions_runners.Admission.Log.{
  IsLine, drop, drop-append, is_newline, joined, newline, take-drop,
}
use actions_runners.Admission.Ship.{Limits, advance, pieces, read_pending, sizes_of, sum}

-- The lines found are those that the bytes begin with.
pub record Begins (bs : List ℕ) (ls : List (List ℕ)) : Type 0 where
  pub rest : List ℕ
  pub lines : All IsLine ls
  pub same : bs ≡ joined ls ++ rest

pieces-Begins : (n : ℕ) (l bs : List ℕ) → IsLine l → Begins (l ++ bs) (pieces n l bs)
unfolding pieces
pieces-Begins n l [] h = record { rest = l ++ []; lines = tt; same = refl }
pieces-Begins zero l (b ∷ bs) h = record { rest = l ++ (b ∷ bs); lines = tt; same = refl }
pieces-Begins (suc n) l (b ∷ bs) h = elim (Bool-cases (b == newline)) [
  | inl e ↦
      let p = pieces-Begins n [] bs tt in
      rw e (record {
        rest = p.rest;
        lines = (h, p.lines);
        same =
            ap (λ t. l ++ t) (is_newline b bs (joined (pieces n [] bs) ++ p.rest) e p.same)
            ∙ sym (append_assoc l (newline ∷ joined (pieces n [] bs)) p.rest);
      })
  | inr e ↦
      let p = pieces-Begins (suc n) (l ++ (b ∷ [])) bs (All-append _ l (b ∷ []) h (e, tt)) in
      rw e (record {
        rest = p.rest;
        lines = p.lines;
        same = sym (append_assoc l (b ∷ []) bs) ∙ p.same;
      })
]

-- The lines that a heartbeat takes from a log that goes on after `a` with `t`.
abbrev pub sent_of : Limits → List ℕ → List ℕ → List (List ℕ)
sent_of lim a t = pieces lim.max_lines [] (take (min (length (a ++ t) - length a) lim.max_bytes) t)

take-nil : (n : ℕ) → take {A = ℕ} n [] ≡ []
take-nil zero = refl
take-nil (suc n) = refl

pub sent-Begins : (lim : Limits) (a t : List ℕ) → Begins t (sent_of lim a t)
sent-Begins lim a t =
    let k = min (length (a ++ t) - length a) lim.max_bytes in
    let p = pieces-Begins lim.max_lines [] (take k t) tt in
    record {
      rest = p.rest ++ drop k t;
      lines = p.lines;
      same =
          sym (take-drop k t)
          ∙ ap (λ s. s ++ drop k t) p.same
          ∙ append_assoc (joined (sent_of lim a t)) p.rest (drop k t);
    }

pub read_pending_lem :
    (decoded : List ℕ → List ℕ) (lim : Limits) (a t : List ℕ)
    → read_pending decoded lim (some (a ++ t)) (length a) ≡ record {
      offset = length a;
      lines = map decoded (sent_of lim a t);
      sizes = sizes_of (sent_of lim a t);
    }
unfolding read_pending pieces
read_pending_lem decoded lim a [] =
    let kept : ltb (length a) (length a) ≡ false = ground arith in
    let done : leb (length a) (length a) ≡ true = ground arith in
    rw (append-nil a, kept, done, take-nil (min (length a - length a) lim.max_bytes)) refl
read_pending_lem decoded lim a (b ∷ t) =
    let kept : ltb (length (a ++ (b ∷ t))) (length a) ≡ false =
      ground (arith, length-append a (b ∷ t)) in
    let more : leb (length (a ++ (b ∷ t))) (length a) ≡ false =
      ground (arith, length-append a (b ∷ t)) in
    rw (kept, more, drop-append a (b ∷ t)) refl

-- The bytes of the first lines.
sum-take : (k : ℕ) (ls : List (List ℕ)) → sum (take k (sizes_of ls)) ≡ length (joined (take k ls))
sum-take zero ls = refl
sum-take (suc k) [] = refl
sum-take (suc k) (l ∷ ls) =
    omega (arith, sum-take k ls, length-append l (newline ∷ joined (take k ls)))

take_all {ℓ} : {A : Type ℓ} (k : ℕ) (xs : List A) → length xs ≤ k → take k xs ≡ xs
take_all zero [] h = refl
take_all zero (x ∷ xs) h = absurd (omega (arith, h))
take_all (suc k) [] h = refl
take_all (suc k) (x ∷ xs) h = ap (λ t. x ∷ t) (take_all k xs (omega (arith, h)))

take-min {ℓ} :
    {A : Type ℓ} (k : ℕ) (ls : List A) → take (min (min (length ls) k) (length ls)) ls ≡ take k ls
take-min k ls = elim (Bool-cases (leb k (length ls))) [
  | inl e ↦
      let same : min (min (length ls) k) (length ls) ≡ k = ground arith in ap (λ n. take n ls) same
  | inr e ↦
      let all : min (min (length ls) k) (length ls) ≡ length ls = ground arith in
      let le : length ls ≤ k = ground arith in
      ap (λ n. take n ls) all ∙ take_all (length ls) ls (omega arith) ∙ sym (take_all k ls le)
]

pub advance_lem :
    (decoded : List ℕ → List ℕ) (k : ℕ) (a : List ℕ) (ls : List (List ℕ))
    → advance
        (record { offset = length a; lines = map decoded ls; sizes = sizes_of ls })
        (min (length (map decoded ls)) k)
      ≡ length (a ++ joined (take k ls))
unfolding advance
advance_lem decoded k a ls =
    let e : length (sizes_of ls) ≡ length ls = length-map (λ l. length l + 1) ls in
    let m = take-min k (sizes_of ls) in
    let first = ap sum (rw e at m) ∙ sum-take k ls in
    rw (length-map decoded ls, length-append a (joined (take k ls)), e)
      (ap (λ n. length a + n) first)
