-- ===== src/Ha/Apart.antt =====
-- Elections that do not overlap (dashboard/lib/ha.js).
use actions_runners.Prelude.{
  Bool, Bool-cases, List, Never, Option, String, [], false, inl, inr, is_nil, none, not, refl, some,
  suc, sym, to_list, true, zero, ℕ, ◌&&◌, ◌||◌, ◌∙◌, ◌∷◌, ◌≡◌, ◌⊎◌,
}
use actions_runners.Ha.Leader.{Speaks, turns-Speaks}
use actions_runners.Ha.Role.{
  Coordinator, Elections, Next, Point, Reply, Turn, answer, answered_at, begin_election, connecting,
  continued, go_on, leads, leasing, locking, lose_leadership, lost, probing, reading, renewing,
  set_role, thrown, timer, turn, turns,
}

-- A call of the timer finds an election that waits.
unfoldable pub overlapped : List Turn → Elections → Bool
unfolding turn
overlapped [] x = false
overlapped (timer ∷ es) x =
    let rest = overlapped es (turn timer x) in not (is_nil x.waiting) || rest
overlapped (answer now i t ∷ es) x = overlapped es (turn (answer now i t) x)

-- How the role and the session agree while an election waits.
abbrev pub AgreesAt : Point → Coordinator → Type 0
AgreesAt probing s = (s.is_leader ≡ s.has_client) × (s.has_client ≡ true)
AgreesAt renewing s = (s.is_leader ≡ s.has_client) × (s.has_client ≡ true)
AgreesAt connecting s = (s.is_leader ≡ s.has_client) × (s.has_client ≡ false)
AgreesAt locking s = (s.is_leader ≡ s.has_client) × (s.has_client ≡ false)
AgreesAt leasing s = s.has_client ≡ true
AgreesAt reading s = (s.is_leader ≡ s.has_client) × (s.has_client ≡ false)

-- At most one election waits, and the role and the session agree.
abbrev pub Agrees : Coordinator → List Point → Type 0
Agrees s [] = s.is_leader ≡ s.has_client
Agrees s (p ∷ []) = AgreesAt p s
Agrees s (p ∷ q ∷ ps) = Never {0}

AgreesNext : Next → Type 0
AgreesNext (none, s) = Agrees s []
AgreesNext (some p, s) = AgreesAt p s

lose_agrees : (now : ℕ) (s : Coordinator) → AgreesNext (thrown now s) × AgreesNext (lost now s)
unfolding AgreesNext lose_leadership set_role
lose_agrees now s = (refl, (refl, refl))

lead_agrees : (now : ℕ) (s : Coordinator) → s.has_client ≡ true → AgreesNext (leads now s)
unfolding AgreesNext set_role
lead_agrees now s h = sym h

follow_agrees :
    (now : ℕ) (id : Option String) (s : Coordinator)
    → s.has_client ≡ false
    → AgreesNext (none, set_role now false id s)
unfolding AgreesNext set_role
follow_agrees now id s h = sym h

go_on-Agrees :
    (now : ℕ) (p : Point) (t : Reply) (s : Coordinator)
    → AgreesAt p s
    → AgreesNext (go_on now p t s)
unfolding go_on AgreesNext
go_on-Agrees now probing t s h = elim (Bool-cases (t.ok && s.has_client)) [
  | inl e ↦ rw e h
  | inr e ↦ rw e (lose_agrees now s).1
]
go_on-Agrees now renewing t s h = elim (Bool-cases t.ok) [
  | inl e ↦ rw e (lead_agrees now s h.1)
  | inr e ↦ rw e (lose_agrees now s).1
]
go_on-Agrees now connecting t s h = elim (Bool-cases t.ok) [
  | inl e ↦ rw e h
  | inr e ↦ rw e (lose_agrees now s).0
]
go_on-Agrees now locking t s h = elim (Bool-cases t.ok) [
  | inr e ↦ rw e (lose_agrees now s).0
  | inl e ↦ elim (Bool-cases t.won) [ inl w ↦ rw (e, w) refl | inr w ↦ rw (e, w) h ]
]
go_on-Agrees now leasing t s h = elim (Bool-cases t.ok) [
  | inl e ↦ rw e (lead_agrees now s h)
  | inr e ↦ rw e (lose_agrees now s).0
]
go_on-Agrees now reading t s h = elim (Bool-cases t.ok) [
  | inl e ↦ rw e (follow_agrees now t.holder s h.1)
  | inr e ↦ rw e (lose_agrees now s).0
]

continued-Agrees :
    (n : Next) → AgreesNext n → Agrees (continued n []).state (continued n []).waiting
unfolding AgreesNext
continued-Agrees (none, s) h = h
continued-Agrees (some p, s) h = h

answered_at-Agrees :
    (now i : ℕ) (t : Reply) (ps : List Point) (s : Coordinator)
    → Agrees s ps
    → Agrees (answered_at now i t ps s).state (answered_at now i t ps s).waiting
unfolding answered_at
answered_at-Agrees now i t [] s h = h
answered_at-Agrees now zero t (p ∷ []) s h =
    continued-Agrees (go_on now p t s) (go_on-Agrees now p t s h)
answered_at-Agrees now (suc i) t (p ∷ []) s h = h
answered_at-Agrees now i t (p ∷ q ∷ ps) s h = elim h [ ]

begun-Agrees :
    (s : Coordinator) → s.is_leader ≡ s.has_client → Agrees s (to_list (begin_election s))
unfolding begin_election
begun-Agrees s h = elim (Bool-cases (not s.has_pool)) [
  | inl e ↦ rw e h
  | inr e ↦ elim (Bool-cases s.has_client) [
    | inl c ↦ rw (e, c) (h ∙ c, refl)
    | inr c ↦ rw (e, c) (h ∙ c, refl)
  ]
]

turns_agree :
    (es : List Turn) (s : Coordinator) (ps : List Point)
    → Agrees s ps
    → let x : Elections = record { state = s; waiting = ps } in
      (overlapped es x ≡ true) ⊎ Agrees (turns es x).state (turns es x).waiting
unfolding turns turn overlapped
turns_agree [] s ps h = inr h
turns_agree (timer ∷ es) s [] h = turns_agree es s (to_list (begin_election s)) (begun-Agrees s h)
turns_agree (timer ∷ es) s (p ∷ ps) h = inl refl
turns_agree (answer now i t ∷ es) s ps h =
    let x = answered_at now i t ps s in
    turns_agree es x.state x.waiting (answered_at-Agrees now i t ps s h)

-- However the database answers the elections, with errors at any point and in any order: a coordinator
-- keeps a time since when it leads just while it leads, it then names itself as the leader, and the last
-- call of `onRoleChange` told its role and the leader that it names. And unless the timer began an
-- election while another one waited, it leads just when it has a session, but for the one election that
-- takes the lease with the lock that it won.
pub turns_hold :
    (es : List Turn) (s : Coordinator)
    → Speaks s
    → s.is_leader ≡ s.has_client
    → let x : Elections = record { state = s; waiting = [] } in
      Speaks (turns es x).state
      × ((overlapped es x ≡ true) ⊎ Agrees (turns es x).state (turns es x).waiting)
turns_hold es s h k =
    (turns-Speaks es (record { state = s; waiting = [] }) h, turns_agree es s [] k)
