-- ===== src/Admission.antt =====
-- The log of the admission hooks on its way to the database: dashboard/lib/admission.js reads the log
-- of its own host, and dashboard/lib/admission-ship.js sends an agent host's with the heartbeats of
-- dashboard/agent.js, which dashboard/fleetd.js answers. A file is the list of its bytes, and a text
-- is the list of the bytes of its UTF-8: `decoded` stands for what `toString('utf8')` makes of bytes,
-- `row_from` for the parsing of a line, `blank` for the test of its `trim`, and `accepts` for the
-- statements of the database that do not throw.
pub mod Log
pub mod Ship
pub mod Beat
mod Pieces
pub mod Sent
pub mod Shipped
mod Next
pub mod CatchUp
pub mod Ingest
mod Cut
pub mod Ingested
mod Examples
