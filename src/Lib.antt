-- ===== src/Lib.antt =====
-- A verification library for the decisions of the runner fleet's dashboard (dashboard/lib).
--
-- The daemon (dashboard/fleetd.js) collects a snapshot of the runners, of GitHub's queue and of
-- the hosts, and hands it to pure modules that decide; it carries their decisions out. The modules
-- here are these decisions, translated function by function: sizing says what each repo wants,
-- capacity whether a host may take a runner, autoscale turns the two into one next step, placement
-- chooses its host, the night cap drains and resumes runners inside its window, the tiers
-- controller does so between a primary and its standby hosts, the host switch
-- does so for a whole host, and the tick guard says when the daemon may start its next round. Devices
-- are paired by codes and then call with tokens, an action that changes the fleet is confirmed in a second
-- step, and what the runners' hooks log is read on its host or sent to the coordinator's database.
--
-- Files and code (paths from the repository's root):
--   Runner       the runner of dashboard/lib/state.js (buildRunners) with the drain marker that
--                dashboard/lib/local.js reads
--   Labels       roleLabel of dashboard/lib/state.js, queuedJobLabels of dashboard/lib/queue-cause.js,
--                sizingKey and roleFromJobLabels of dashboard/lib/sizing.js
--   Sizing       sizeFleet of dashboard/lib/sizing.js; Keys, Rows, Count and Grants hold the lemmas on
--                its rows, Cap the theorem
--   Capacity     headroom of dashboard/lib/capacity.js
--   Autoscale    dashboard/lib/autoscale.js: ScaleUp is buildScaleUpPlan, ScaleDown planScaleDown
--   Placement    choosePlacement of dashboard/lib/placement.js
--   NightCap     dashboard/lib/night-cap.js: Jobs is queuedJobs; of decideNightCap, Slots gives slots
--                to jobs, Park asks for drains and resumes, Decide puts them together
--   Tiers        decideTiers of dashboard/lib/tiers.js: Lanes the caps and their hysteresis, Groups the
--                runners by tier and the queue, Phase the overflow tier, Moves what is asked of the
--                standby hosts' runners, Primary of the primary's, Decide the step; Allowed, Kept and
--                Standby hold the lemmas on moves
--   Ha           dashboard/lib/ha.js: Queue has the statements on fleet_commands, Trace their sequences,
--                Role the elections in their steps between awaits, whose answers from the database
--                are inputs; Leader and Apart hold the lemmas and the theorem on them
--   Prewarm      planPrewarm of dashboard/lib/prewarm.js: Plan is the code, Sound the lemmas on its loops
--   LongRunning  dashboard/lib/long-running.js: Baseline the expected durations, Annotate the flags
--   Orphans      classifyJob and findOrphans of dashboard/lib/orphans.js
--   Settle       the loops of dashboard/lib/settle.js, with GitHub's answers as inputs
--   Devices      dashboard/lib/devices.js: Pairing has the codes, Store and Manage the tokens, Exchange the one
--                for the other; Guesses, Once, Names, Tokens, Refresh and Paired hold the theorems
--   Admission    the hooks' log: Ingest is ingest of dashboard/lib/admission.js, Ship
--                dashboard/lib/admission-ship.js, Beat the heartbeat of dashboard/agent.js that carries
--                it and the answer of dashboard/fleetd.js; Log, Cut, Pieces, Sent and Next hold lemmas,
--                Ingested, Shipped and CatchUp the theorems
--   Confirm      dashboard/lib/confirm.js, the second step of an action; Once and Issued hold its theorems
--   HostSwitch   switchOffImpact, drainsToReassert, reassertArgs of dashboard/lib/host-switch.js
--   RunStatus    the cache of dashboard/lib/run-status.js, one function per call or callback
--   TickGuard    the class of dashboard/lib/tick-guard.js, one function per call or settling promise
--   Prelude      tests, lists, texts, maps and the stable sort that the components share
--
-- Records are the source's objects, Option is a value that may be missing, and a map is an association
-- list in insertion order, or a function of its key. What the program mutates is passed on and
-- returned. Times are milliseconds, as natural numbers; `now - t < d` is written `now < t + d`. A
-- sentence that the program shows is a constructor with the values that it contains. A measure that
-- the program holds as a float is a natural number in a fixed unit. Every loop is a recursion on the
-- list that the source goes through, but for the search of a free name in Devices, which has a round for
-- every name and one more, which is enough; so every function is total. Parameters stand
-- for String.prototype.toLowerCase (`lower`), localeCompare (`locale`) and the text of a number
-- (`show`), `glob` for the regular expressions that
-- dashboard/lib/tiers.js builds from patterns, `digest` for SHA-256 and `clean` for the regular expressions
-- that make a name safe; that `show` gives different texts to different numbers is a hypothesis where
-- names are made unique, and nothing is assumed of the others. In LongRunning `over` says of a
-- percentage and a number whether their floating product is above the exact one. In Confirm `quoted`
-- stands for JSON.stringify of a key. In Admission a file is its bytes and a text the bytes of its UTF-8, with
-- parameters for the decoding (`decoded`), a line's row (`row_from`), a blank line (`blank`) and a
-- statement that does not throw (`accepts`); that ASCII is decoded to itself and the empty line is blank
-- are hypotheses where they are used, and a read is taken to return all the bytes it asks for.
--
-- Not modelled: the daemon's timers, processes and HTTP, the queries and statistics over the job history,
-- the GitHub client, the regular expressions on texts that come in, wall-clock windows
-- (Intl.DateTimeFormat), and the pages of the dashboard.
pub mod Prelude
pub mod Runner
pub mod Labels
pub mod Sizing
pub mod HostSwitch
pub mod TickGuard
pub mod NightCap
pub mod Tiers
pub mod Capacity
pub mod Autoscale
pub mod Placement
pub mod RunStatus
pub mod Ha
pub mod Prewarm
pub mod LongRunning
pub mod Orphans
pub mod Settle
pub mod Devices
pub mod Admission
pub mod Confirm
