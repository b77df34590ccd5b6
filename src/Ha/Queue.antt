-- ===== src/Ha/Queue.antt =====
-- The statements of dashboard/lib/ha.js on the table fleet_commands.
use actions_runners.Prelude.{
  Bool, List, Option, String, [], any, false, filter, if◌then◌else◌, is_text, leb, length, ltb, map,
  none, some, sort, str_eq, take, true, ℕ, ◌&&◌, ◌++◌, ◌+◌, ◌-◌, ◌==◌, ◌∷◌,
}

-- `status`
pub data Status : Type 0 where
  pending sent done failed : Status

abbrev pub is_waiting : Status → Bool
is_waiting pending = true
is_waiting _ = false

abbrev pub is_sent : Status → Bool
is_sent sent = true
is_sent _ = false

-- The arguments are a JSON text.
pub record Command : Type 0 where
  pub id : ℕ
  pub host_id : String
  pub ts : ℕ
  pub action : String
  pub args : String
  pub status : Status
  pub idempotency_key : Option String
  pub started_at : Option ℕ
  pub completed_at : Option ℕ
  pub result : Option String
  pub attempts : ℕ

-- The table, and the next value of its BIGSERIAL.
pub record Queue : Type 0 where
  pub commands : List Command
  pub next_id : ℕ

-- UPDATE … SET … WHERE
unfoldable pub update : (Command → Bool) → (Command → Command) → List Command → List Command
update p f xs = map (λ c. if p c then f c else c) xs

abbrev pub has_key : String → Command → Bool
has_key k c = is_text c.idempotency_key k

-- The id of the row with a key.
unfoldable pub key_id : String → List Command → Option ℕ
key_id k [] = none
key_id k (c ∷ cs) = if has_key k c then some c.id else key_id k cs

abbrev pub conflict : Option String → List Command → Option ℕ
conflict none cs = none
conflict (some k) cs = key_id k cs

abbrev pub has_id : ℕ → Command → Bool
has_id i c = c.id == i

-- The queries of a coordinator, which do nothing without a pool.
abbrev pub with_pool : {A : Type 0} → A → (Queue → A × Queue) → Option Queue → A × Option Queue
with_pool a f none = (a, none)
with_pool a f (some q) = ((f q).0, some (f q).1)

-- INSERT … ON CONFLICT … RETURNING id, with the id of the row in conflict. A conflict takes a value of
-- the BIGSERIAL too.
unfoldable pub insert_row : Option ℕ → Command → Queue → ℕ × Queue
insert_row (some i) c q = (i, record q { next_id = q.next_id + 1 })
insert_row none c q =
    (q.next_id, record { commands = q.commands ++ (c ∷ []); next_id = q.next_id + 1 })

-- `queueCommand`
unfoldable pub insert_command : String → String → String → Option String → ℕ → Queue → ℕ × Queue
unfolding key_id insert_row
insert_command host action args key ts q =
    insert_row (conflict key q.commands)
      (record {
        id = q.next_id;
        host_id = host;
        ts = ts;
        action = action;
        args = args;
        status = pending;
        idempotency_key = key;
        started_at = none;
        completed_at = none;
        result = none;
        attempts = 0;
      })
      q

abbrev pub queue_command :
    String → String → String → Option String → ℕ → Option Queue → Option ℕ × Option Queue
queue_command host action args key ts =
    with_pool none (λ q. let r = insert_command host action args key ts q in (some r.0, r.1))

abbrev pub is_claimable : String → Command → Bool
is_claimable host c = str_eq c.host_id host && is_waiting c.status && ltb c.attempts 3

-- `pendingCommands`
unfoldable pub pending_commands : String → ℕ → Queue → List Command
pending_commands host limit q = take limit (filter (is_claimable host) q.commands)

abbrev pub deliver : ℕ → Command → Command
deliver ts c = record c { status = sent; started_at = some ts; attempts = c.attempts + 1 }

abbrev pub is_among : List Command → Command → Bool
is_among xs c = any (λ d. has_id d.id c) xs

-- `claimCommands`
unfoldable pub claim : String → ℕ → ℕ → Queue → List Command × Queue
unfolding update pending_commands
claim host ts limit q =
    let chosen = is_among (pending_commands host limit q) in
    let rows = update chosen (deliver ts) q.commands in
    (sort (λ a b. ltb a.id b.id) (filter chosen rows), record q { commands = rows })

abbrev pub claim_commands : String → ℕ → ℕ → Option Queue → List Command × Option Queue
claim_commands host ts limit = with_pool [] (claim host ts limit)

-- The rows that a statement changes, and whether it was one.
unfoldable pub change_one : (Command → Bool) → (Command → Command) → Queue → Bool × Queue
unfolding update
change_one p f q =
    (length (filter p q.commands) == 1, record q { commands = update p f q.commands })

abbrev pub is_sent_id : ℕ → Command → Bool
is_sent_id i c = has_id i c && is_sent c.status

-- `releaseCommandClaim`
abbrev pub release_claim : ℕ → Queue → Bool × Queue
release_claim i =
    change_one (is_sent_id i)
      (λ c. record c { status = pending; started_at = none; attempts = c.attempts - 1 })

abbrev pub release_command_claim : ℕ → Option Queue → Bool × Option Queue
release_command_claim i = with_pool false (release_claim i)

-- `markCommandSent`
abbrev pub mark_sent : ℕ → ℕ → Queue → Bool × Queue
mark_sent i ts =
    change_one (λ c. has_id i c && is_waiting c.status && ltb c.attempts 3) (deliver ts)

abbrev pub mark_command_sent : ℕ → ℕ → Option Queue → Bool × Option Queue
mark_command_sent i ts = with_pool false (mark_sent i ts)

-- `completeCommand`
abbrev pub complete : ℕ → Bool → Option String → ℕ → Queue → Bool × Queue
complete i ok result ts = change_one (is_sent_id i) (λ c. record c {
  completed_at = some ts;
  status = if ok then done else failed;
  result = result;
})

abbrev pub complete_command : ℕ → Bool → Option String → ℕ → Option Queue → Bool × Option Queue
complete_command i ok result ts = with_pool false (complete i ok result ts)

abbrev pub started_before : ℕ → Option ℕ → Bool
started_before before none = false
started_before before (some t) = ltb t before

abbrev pub expire : ℕ → ℕ → Command → Command
expire max_attempts now c =
    if leb max_attempts c.attempts
    then record c {
      status = failed;
      completed_at = some now;
      result = some "delivery acknowledgement timed out";
    }
    else record c { status = pending }

-- `resetExpiredCommands`
unfoldable pub reset_expired : ℕ → ℕ → ℕ → Queue → Queue
unfolding update
reset_expired before max_attempts now q = record q {
  commands =
      update (λ c. is_sent c.status && started_before before c.started_at) (expire max_attempts now)
        q.commands;
}

abbrev pub reset_expired_commands : ℕ → ℕ → ℕ → Option Queue → Option Queue
reset_expired_commands before max_attempts now none = none
reset_expired_commands before max_attempts now (some q) =
    some (reset_expired before max_attempts now q)
