-- ===== src/Ha/Invariant.antt =====
-- What holds of the table fleet_commands (dashboard/lib/ha.js) after any statements.
use actions_runners.Prelude.{
  ==_iff, All, All-In, All-append, Bool, Bool-cases, In, In-filter, List, Option, String, [],
  any-In, ap, arith, filter, if◌then◌else◌, inl, inr, is_some, none, refl, some, suc, sym, take,
  true, zero, ℕ, ◌++◌, ◌+◌, ◌<◌, ◌∙◌, ◌∷◌, ◌≡◌, ◌≢◌, ◌≤◌,
}
use actions_runners.Ha.Queue.{
  Command, Queue, Status, done, failed, has_id, insert_row, is_among, is_claimable, pending,
  pending_commands, sent, update,
}

-- The times and the attempts of a row, by its status.
abbrev pub Timed : Status → Command → Type 0
Timed pending c = c.completed_at ≡ none
Timed sent c = (1 ≤ c.attempts) × (is_some c.started_at ≡ true) × (c.completed_at ≡ none)
Timed done c = (1 ≤ c.attempts) × (is_some c.completed_at ≡ true)
Timed failed c = (1 ≤ c.attempts) × (is_some c.completed_at ≡ true)

abbrev pub Sane : Command → Type 0
Sane c = (c.attempts ≤ 3) × Timed c.status c

-- The ids rise, and are below the next one.
abbrev pub Rising : List Command → ℕ → Type 0
Rising [] n = Unit {0}
Rising (c ∷ cs) n = All (λ d. c.id < d.id) cs × (c.id < n) × Rising cs n

pub record IsWellFormed (q : Queue) : Type 0 where
  pub rising : Rising q.commands q.next_id
  pub sane : All Sane q.commands

abbrev pub empty : Queue
empty = record { commands = []; next_id = 1 }

In-take {ℓ} : {A : Type ℓ} (n : ℕ) (a : A) (xs : List A) → In a (take n xs) → In a xs
In-take zero a xs i = elim i [ ]
In-take (suc n) a [] i = elim i [ ]
In-take (suc n) a (x ∷ xs) (inl e) = inl e
In-take (suc n) a (x ∷ xs) (inr i) = inr (In-take n a xs i)

apart : (e d : Command) (cs : List Command) → All (λ d. e.id < d.id) cs → In d cs → e.id ≢ d.id
apart e d cs h i q = let k = All-In (λ d. e.id < d.id) d cs h i in omega (arith, k, q)

pub same_row :
    (cs : List Command) (n : ℕ) (c d : Command)
    → Rising cs n
    → In c cs
    → In d cs
    → c.id ≡ d.id
    → c ≡ d
same_row [] n c d h i j q = elim i [ ]
same_row (e ∷ cs) n c d h (inl p) (inl r) q = p ∙ sym r
same_row (e ∷ cs) n c d h (inl p) (inr j) q =
    absurd (apart e d cs h.0 j (sym (ap (λ r. r.id) p) ∙ q))
same_row (e ∷ cs) n c d h (inr i) (inl r) q =
    absurd (apart e c cs h.0 i (sym (ap (λ r. r.id) r) ∙ sym q))
same_row (e ∷ cs) n c d h (inr i) (inr j) q = same_row cs n c d h.2 i j q

module _ (p : Command → Bool) (f : Command → Command) (same : (c : Command) → (f c).id ≡ c.id) where
  pub update_id : (c : Command) → (if p c then f c else c).id ≡ c.id
  update_id c = ground (arith, same c)

  update-above :
      (i : ℕ) (cs : List Command) → All (λ d. i < d.id) cs → All (λ d. i < d.id) (update p f cs)
  unfolding update
  update-above i [] h = tt
  update-above i (c ∷ cs) h = (omega (arith, h.0, update_id c), update-above i cs h.1)

  pub update-Rising : (cs : List Command) (n : ℕ) → Rising cs n → Rising (update p f cs) n
  unfolding update
  update-Rising [] n h = tt
  update-Rising (c ∷ cs) n h = (
    rw (update_id c) (update-above c.id cs h.0),
    omega (arith, h.1, update_id c),
    update-Rising cs n h.2,
  )

  pub update-Sane :
      (cs : List Command)
      → ((c : Command) → In c cs → p c ≡ true → Sane c → Sane (f c))
      → All Sane cs
      → All Sane (update p f cs)
  unfolding update
  update-Sane [] k h = tt
  update-Sane (c ∷ cs) k h = (
    elim (Bool-cases (p c)) [ inl e ↦ rw e (k c (inl refl) e h.0) | inr e ↦ rw e h.0 ],
    update-Sane cs (λ d i. k d (inr i)) h.1,
  )

  pub update-IsWellFormed :
      (q : Queue)
      → ((c : Command) → In c q.commands → p c ≡ true → Sane c → Sane (f c))
      → IsWellFormed q
      → IsWellFormed (record q { commands = update p f q.commands })
  update-IsWellFormed q k h = record {
    rising = update-Rising q.commands q.next_id h.rising;
    sane = update-Sane q.commands k h.sane;
  }

append-Rising :
    (cs : List Command) (n : ℕ) (c : Command)
    → c.id ≡ n
    → Rising cs n
    → Rising (cs ++ (c ∷ [])) (n + 1)
append-Rising [] n c e h = (tt, omega (arith, e), tt)
append-Rising (d ∷ cs) n c e h = (
  All-append (λ r. d.id < r.id) cs (c ∷ []) h.0 (omega (arith, e, h.1), tt),
  omega (arith, h.1),
  append-Rising cs n c e h.2,
)

wider-Rising : (cs : List Command) (n : ℕ) → Rising cs n → Rising cs (n + 1)
wider-Rising [] n h = tt
wider-Rising (c ∷ cs) n h = (h.0, omega (arith, h.1), wider-Rising cs n h.2)

pub insert-IsWellFormed :
    (o : Option ℕ) (c : Command) (q : Queue)
    → c.id ≡ q.next_id
    → Sane c
    → IsWellFormed q
    → IsWellFormed (insert_row o c q).1
unfolding insert_row
insert-IsWellFormed (some i) c q e k h = record {
  rising = wider-Rising q.commands q.next_id h.rising;
  sane = h.sane;
}
insert-IsWellFormed none c q e k h = record {
  rising = append-Rising q.commands q.next_id c e h.rising;
  sane = All-append Sane q.commands _ h.sane (k, tt);
}

-- The rows that a claim chooses can be claimed.
pub chosen_claimable :
    (host : String) (limit : ℕ) (q : Queue) (c : Command)
    → IsWellFormed q
    → In c q.commands
    → is_among (pending_commands host limit q) c ≡ true
    → is_claimable host c ≡ true
unfolding pending_commands
chosen_claimable host limit q c h i e =
    let (d, j, k) = any-In (λ d. has_id d.id c) (pending_commands host limit q) e in
    let (m, t) =
      In-filter (is_claimable host) d q.commands
        (In-take limit d (filter (is_claimable host) q.commands) j) in
    let same = same_row q.commands q.next_id c d h.rising i m ((==_iff c.id d.id).0 k) in rw same t
