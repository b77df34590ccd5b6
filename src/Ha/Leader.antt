-- ===== src/Ha/Leader.antt =====
-- What a coordinator (dashboard/lib/ha.js) says of its role.
use mathlib.Core.Path.{subst}
use actions_runners.Prelude.{
  Bool, Bool-cases, List, Option, String, [], ap, arith, false, if◌then◌else◌, inl, inr, is_some,
  none, not, refl, some, str_eq_iff, suc, sym, true, zero, ℕ, ◌&&◌, ◌||◌, ◌∷◌, ◌≡◌,
}
use actions_runners.Ha.Role.{
  Coordinator, Elections, Next, Notice, Point, Reply, Turn, answer, answered_at, connecting,
  continued, go_on, leads, leasing, locking, lose_leadership, probing, reading, renewing, same_bool,
  same_id, set_role, timer, turn, turns,
}

-- The last call of `onRoleChange` told the role and the leader.
abbrev pub Told : List Notice → Bool → Option String → Type 0
Told [] leads id = (leads ≡ false) × (id ≡ none)
Told (n ∷ ns) leads id = (n.is_leader ≡ leads) × (n.leader_id ≡ id)

abbrev pub KnowsLeader : Bool → Coordinator → Type 0
KnowsLeader true s = s.leader_id ≡ some s.replica_id
KnowsLeader false s = Unit {0}

-- What a coordinator says fits together.
pub record Speaks (s : Coordinator) : Type 0 where
  pub since : is_some s.leader_since ≡ s.is_leader
  pub leader : KnowsLeader s.is_leader s
  pub told : Told s.notified s.is_leader s.leader_id

same_bool-true : (a b : Bool) → same_bool a b ≡ true → a ≡ b
same_bool-true a b h = ground arith

same_id-true : (a b : Option String) → same_id a b ≡ true → a ≡ b
same_id-true none none h = refl
same_id-true none (some b) h = absurd (cc h)
same_id-true (some a) none h = absurd (cc h)
same_id-true (some a) (some b) h = ap some (sym ((str_eq_iff b a).0 h))

unchanged : (a b : Bool) → (not a || not b) ≡ false → (a ≡ true) × (b ≡ true)
unchanged a b h = ground arith

note-Told :
    (ns : List Notice) (leads leads2 : Bool) (id id2 : Option String)
    → Told ns leads id
    → Told
        (if not (same_bool leads leads2) || not (same_id id id2)
          then record { is_leader = leads2; leader_id = id2 } ∷ ns
          else ns)
        leads2
        id2
note-Told ns leads leads2 id id2 h =
    elim (Bool-cases (not (same_bool leads leads2) || not (same_id id id2))) [
      | inl e ↦ rw e (refl, refl)
      | inr e ↦
          let (a, b) = unchanged (same_bool leads leads2) (same_id id id2) e in
          rw e (
            subst (λ l. Told ns l id2) (same_bool-true leads leads2 a)
              (subst (λ i. Told ns leads i) (same_id-true id id2 b) h))
    ]

set_role-Speaks :
    (now : ℕ) (id : Option String) (s : Coordinator)
    → Told s.notified s.is_leader s.leader_id
    → Speaks (set_role now false id s)
unfolding set_role
set_role-Speaks now id s h = record {
  since = refl;
  leader = tt;
  told = note-Told s.notified s.is_leader false s.leader_id id h;
}

leads-Speaks :
    (now : ℕ) (s : Coordinator)
    → Told s.notified s.is_leader s.leader_id
    → Speaks (set_role now true (some s.replica_id) s)
unfolding set_role
leads-Speaks now s h = record {
  since = refl;
  leader = refl;
  told = note-Told s.notified s.is_leader true s.leader_id (some s.replica_id) h;
}

loses-Speaks :
    (now : ℕ) (s : Coordinator)
    → Told s.notified s.is_leader s.leader_id
    → Speaks (lose_leadership now s)
unfolding lose_leadership
loses-Speaks now s h = set_role-Speaks now none (record s { has_client = false }) h

with_client-Speaks : (s : Coordinator) → Speaks s → Speaks (record s { has_client = true })
with_client-Speaks s h = record {
  since = h.since;
  leader = knows s.is_leader s h.leader;
  told = h.told;
}
  where
    knows :
        (b : Bool) (s : Coordinator)
        → KnowsLeader b s
        → KnowsLeader b (record s { has_client = true })
    knows true s k = k
    knows false s k = k

go_on-Speaks :
    (now : ℕ) (p : Point) (t : Reply) (s : Coordinator) → Speaks s → Speaks (go_on now p t s).1
unfolding go_on
go_on-Speaks now probing t s h = elim (Bool-cases (t.ok && s.has_client)) [
  | inl e ↦ rw e h
  | inr e ↦ rw e (loses-Speaks now s h.told)
]
go_on-Speaks now renewing t s h = elim (Bool-cases t.ok) [
  | inl e ↦ rw e (leads-Speaks now s h.told)
  | inr e ↦ rw e (loses-Speaks now s h.told)
]
go_on-Speaks now connecting t s h = elim (Bool-cases t.ok) [
  | inl e ↦ rw e h
  | inr e ↦ rw e (loses-Speaks now s h.told)
]
go_on-Speaks now locking t s h = elim (Bool-cases t.ok) [
  | inr e ↦ rw e (loses-Speaks now s h.told)
  | inl e ↦ elim (Bool-cases t.won) [
    | inl w ↦ rw (e, w) (with_client-Speaks s h)
    | inr w ↦ rw (e, w) h
  ]
]
go_on-Speaks now leasing t s h = elim (Bool-cases t.ok) [
  | inl e ↦ rw e (leads-Speaks now s h.told)
  | inr e ↦ rw e (loses-Speaks now s h.told)
]
go_on-Speaks now reading t s h = elim (Bool-cases t.ok) [
  | inl e ↦ rw e (set_role-Speaks now t.holder s h.told)
  | inr e ↦ rw e (loses-Speaks now s h.told)
]

continued-state : (n : Next) (ps : List Point) → (continued n ps).state ≡ n.1
continued-state (none, s) ps = refl
continued-state (some p, s) ps = refl

answered_at-Speaks :
    (now i : ℕ) (t : Reply) (ps : List Point) (s : Coordinator)
    → Speaks s
    → Speaks (answered_at now i t ps s).state
unfolding answered_at
answered_at-Speaks now i t [] s h = h
answered_at-Speaks now zero t (p ∷ ps) s h =
    subst Speaks (sym (continued-state (go_on now p t s) ps)) (go_on-Speaks now p t s h)
answered_at-Speaks now (suc i) t (p ∷ ps) s h = answered_at-Speaks now i t ps s h

pub turns-Speaks : (es : List Turn) (x : Elections) → Speaks x.state → Speaks (turns es x).state
unfolding turns turn
turns-Speaks [] x h = h
turns-Speaks (timer ∷ es) x h = turns-Speaks es (turn timer x) h
turns-Speaks (answer now i t ∷ es) x h =
    turns-Speaks es (turn (answer now i t) x) (answered_at-Speaks now i t x.waiting x.state h)
