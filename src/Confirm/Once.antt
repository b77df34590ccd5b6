-- ===== src/Confirm/Once.antt =====
-- What a confirmation lets run (dashboard/lib/confirm.js).
use actions_runners.Prelude.{
  All, All-In, All-of, Bool, List, Option, Option-cases, String, [], all, ap, arith, erase, false,
  if◌then◌else◌, inl, inr, is_some, lookup, lookup-erase, none, refl, some, str_eq,
  str_eq-false_iff, str_eq_iff, str_eq_refl, sym, true, ℕ, ◌<◌, ◌∙◌, ◌∷◌, ◌≡◌,
}
use actions_runners.Confirm.{
  Held, Request, Token, canonical, consume_confirmation, delete_token, given, key_of_token, other,
  refusal_of,
}

-- A second step of an action.
pub record Attempt : Type 0 where
  pub at : ℕ
  pub token : Token
  pub request : Request

module _ (quoted : String → String) where
  -- The attempts that may run, in their order.
  unfoldable pub ran : List Attempt → List (String × Held) → List Attempt
  unfolding consume_confirmation
  ran [] p = []
  ran (t ∷ ts) p =
      let c = consume_confirmation quoted t.token t.request t.at p in
      let rest = ran ts c.1 in if is_some c.0 then rest else t ∷ rest

  -- The entry of an attempt that may run is for the same request, and its time is not over.
  abbrev pub IsFor : List (String × Held) → Attempt → Type 0
  IsFor p t =
      (e : Held) × (lookup (key_of_token t.token) p ≡ some e)
      × (t.at < e.expires)
      × (e.caller ≡ t.request.caller)
      × (e.action ≡ t.request.action)
      × (e.args ≡ canonical quoted t.request.args)

  allowed :
      (r : Request) (now : ℕ) (o : Option Held)
      → refusal_of quoted r now o ≡ none
      → (e : Held) × (o ≡ some e)
        × (now < e.expires)
        × (e.caller ≡ r.caller)
        × (e.action ≡ r.action)
        × (e.args ≡ canonical quoted r.args)
  allowed r now none h = cc
  allowed r now (some e) h = (
    e,
    refl,
    ground arith,
    (str_eq_iff e.caller r.caller).0 (ground arith),
    (str_eq_iff e.action r.action).0 (ground arith),
    (str_eq_iff e.args (canonical quoted r.args)).0 (ground arith),
  )

  IsFor-delete :
      (k : Token) (p : List (String × Held)) (t : Attempt) → IsFor (delete_token k p) t → IsFor p t
  IsFor-delete (other k) p t h = h
  IsFor-delete (given k) p t (e, l, a, b, c, d) =
      let key = key_of_token t.token in
      (e, kept (str_eq k key) (lookup-erase k key p) l, a, b, c, d)
    where
      kept :
          {o q : Option Held} {x : Held} (b : Bool)
          → o ≡ (if b then none else q)
          → o ≡ some x
          → q ≡ some x
      kept true h l = cc
      kept false h l = sym h ∙ l

  -- After a text, no token with its key.
  abbrev pub Ends : Token → List Attempt → Type 0
  Ends (other k) ts = Unit {0}
  Ends (given k) ts = All (λ t. str_eq (key_of_token t.token) k ≡ false) ts

  abbrev pub Spent : List Attempt → Type 0
  Spent [] = Unit {0}
  Spent (t ∷ ts) = Ends t.token ts × Spent ts

  delete-none :
      (k : String) (t : Token) (p : List (String × Held))
      → lookup k p ≡ none
      → lookup k (delete_token t p) ≡ none
  delete-none k (other j) p n = n
  delete-none k (given j) p n = lookup-erase j k p ∙ either (str_eq j k)
    where
      either : (b : Bool) → (if b then none else lookup k p) ≡ none
      either true = refl
      either false = n

  -- A token that is not pending runs nothing.
  gone :
      (k : String) (ts : List Attempt) (p : List (String × Held))
      → lookup k p ≡ none
      → All (λ t. str_eq (key_of_token t.token) k ≡ false) (ran ts p)
  unfolding ran consume_confirmation
  gone k [] p n = tt
  gone k (t ∷ ts) p n =
      let key = key_of_token t.token in
      elim (Option-cases (refusal_of quoted t.request t.at (lookup key p))) [
        | inr (w, e) ↦ rw e (gone k ts p n)
        | inl e ↦
            let (h, l, a, b, c, d) = allowed t.request t.at (lookup key p) e in
            let other_key : str_eq key k ≡ false =
              (str_eq-false_iff key k).1 (λ s. absurd (cc (ap (λ x. lookup x p) s, l, n))) in
            rw e (other_key, gone k ts (delete_token t.token p) (delete-none k t.token p n))
      ]

  ends :
      (t : Token) (ts : List Attempt) (p : List (String × Held))
      → Ends t (ran ts (delete_token t p))
  ends (other k) ts p = tt
  ends (given k) ts p = gone k ts (erase k p) (lookup-erase k k p ∙ rw (str_eq_refl k) refl)

  runs :
      (ts : List Attempt) (p : List (String × Held)) → Spent (ran ts p) × All (IsFor p) (ran ts p)
  unfolding ran consume_confirmation
  runs [] p = (tt, tt)
  runs (t ∷ ts) p =
      elim (Option-cases (refusal_of quoted t.request t.at (lookup (key_of_token t.token) p))) [
        | inr (w, e) ↦ rw e (runs ts p)
        | inl e ↦
            let left = delete_token t.token p in
            let (d, all) = runs ts left in
            rw e (
              (ends t.token ts p, d),
              (
                allowed t.request t.at (lookup (key_of_token t.token) p) e,
                All-of _ (ran ts left)
                    (λ u i. IsFor-delete t.token p u (All-In _ u (ran ts left) all i)),
              ),
            )
      ]

-- In any sequence of second steps without a new preview, with tokens that are texts or other values:
-- once a step with a text runs, none after it that has the same key runs, so no confirmation runs twice
-- by texts; and each step that runs had, before its time was over, a pending confirmation for the same
-- caller, the same action and arguments of the same canonical text.
pub ran_once :
    (quoted : String → String) (ts : List Attempt) (p : List (String × Held))
    → Spent quoted (ran quoted ts p) × All (IsFor quoted p) (ran quoted ts p)
ran_once quoted ts p = runs quoted ts p
