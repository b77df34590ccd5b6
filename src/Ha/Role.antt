-- ===== src/Ha/Role.antt =====
-- The role of a coordinator (dashboard/lib/ha.js). An election is given by its steps between awaits, so
-- that several may wait at once.
-- `leaderClient` is the database session that holds the advisory lock: `has_client` says that there is
-- one. `notified` are the calls of `onRoleChange`, the last one first.
use actions_runners.Prelude.{
  Bool, List, Option, String, [], false, if◌then◌else◌, is_some, is_text, none, not, or_else, some,
  suc, to_list, true, zero, ℕ, ◌&&◌, ◌++◌, ◌||◌, ◌∷◌,
}

pub record Notice : Type 0 where
  pub is_leader : Bool
  pub leader_id : Option String

pub record Coordinator : Type 0 where
  pub replica_id : String
  pub has_pool : Bool
  pub has_client : Bool
  pub is_leader : Bool
  pub leader_id : Option String
  pub leader_since : Option ℕ
  pub notified : List Notice

-- The constructor; `url` is missing where there is no shared database.
unfoldable pub coordinator : Option String → String → ℕ → Coordinator
coordinator url replica_id now = record {
  replica_id = replica_id;
  has_pool = false;
  has_client = false;
  is_leader = not (is_some url);
  leader_id = if is_some url then none else some replica_id;
  leader_since = if is_some url then none else some now;
  notified = [];
}

abbrev pub same_bool : Bool → Bool → Bool
same_bool a b = if a then b else not b

abbrev pub same_id : Option String → Option String → Bool
same_id none none = true
same_id (some a) o = is_text o a
same_id none (some b) = false

-- `setRole`
unfoldable pub set_role : ℕ → Bool → Option String → Coordinator → Coordinator
set_role now leads leader_id s =
    let changed = not (same_bool s.is_leader leads) || not (same_id s.leader_id leader_id) in
    let own = if leads then some s.replica_id else leader_id in
    record s {
      is_leader = leads;
      leader_id = own;
      leader_since = if leads then some (or_else s.leader_since now) else none;
      notified =
          if changed
          then record { is_leader = leads; leader_id = own } ∷ s.notified
          else s.notified;
    }

-- `loseLeadership`
unfoldable pub lose_leadership : ℕ → Coordinator → Coordinator
unfolding set_role
lose_leadership now s = set_role now false none (record s { has_client = false })

-- What an election waits for: the session's `SELECT 1`, its renewal of the lease, a connection, the
-- answer of the lock, the taking of the lease with the lock, and the holder of the lease.
pub data Point : Type 0 where
  probing renewing connecting locking leasing reading : Point

-- What comes back: an error where `ok` is false, whether the lock was won, and who holds the lease.
pub record Reply : Type 0 where
  pub ok : Bool
  pub won : Bool
  pub holder : Option String

-- Where an election goes on, and the coordinator.
abbrev pub Next : Type 0
Next = Option Point × Coordinator

-- The end of an election that throws: `catch` of the timer of `start`.
abbrev pub thrown : ℕ → Coordinator → Next
thrown now s = (none, lose_leadership now s)

-- The `catch` of the leader's session, after which the election goes on without it.
abbrev pub lost : ℕ → Coordinator → Next
lost now s = (some connecting, lose_leadership now s)

abbrev pub leads : ℕ → Coordinator → Next
leads now s = (none, set_role now true (some s.replica_id) s)

-- `elect` up to what it waits for first.
unfoldable pub begin_election : Coordinator → Option Point
begin_election s =
    if not s.has_pool then none else if s.has_client then some probing else some connecting

-- `elect` from what it waits for to what it waits for next. The lease is renewed by the session that there
-- is by then, and without one that throws.
unfoldable pub go_on : ℕ → Point → Reply → Coordinator → Next
unfolding lose_leadership set_role
go_on now probing t s = if t.ok && s.has_client then (some renewing, s) else lost now s
go_on now renewing t s = if t.ok then leads now s else lost now s
go_on now connecting t s = if t.ok then (some locking, s) else thrown now s
go_on now locking t s =
    if not t.ok
    then thrown now s
    else if t.won
    then (some leasing, record s { has_client = true })
    else (some reading, s)
go_on now leasing t s = if t.ok then leads now s else thrown now s
go_on now reading t s = if t.ok then (none, set_role now false t.holder s) else thrown now s

-- The coordinator and its elections that wait, the first begun first. The timer begins another one
-- whether or not the ones before have ended.
pub record Elections : Type 0 where
  pub state : Coordinator
  pub waiting : List Point

pub data Turn : Type 0 where
  timer : Turn
  answer : ℕ → ℕ → Reply → Turn

-- The election at a place of the list goes on.
abbrev pub continued : Next → List Point → Elections
continued (none, s) ps = record { state = s; waiting = ps }
continued (some p, s) ps = record { state = s; waiting = p ∷ ps }

abbrev pub behind : Point → Elections → Elections
behind p x = record x { waiting = p ∷ x.waiting }

unfoldable pub answered_at : ℕ → ℕ → Reply → List Point → Coordinator → Elections
unfolding go_on
answered_at now i t [] s = record { state = s; waiting = [] }
answered_at now zero t (p ∷ ps) s = continued (go_on now p t s) ps
answered_at now (suc i) t (p ∷ ps) s = behind p (answered_at now i t ps s)

-- A call of the timer of `start`, or an answer to the `i`th election that waits.
unfoldable pub turn : Turn → Elections → Elections
unfolding answered_at begin_election
turn timer x = record x { waiting = x.waiting ++ to_list (begin_election x.state) }
turn (answer now i t) x = answered_at now i t x.waiting x.state

unfoldable pub turns : List Turn → Elections → Elections
unfolding turn
turns [] x = x
turns (e ∷ es) x = turns es (turn e x)
