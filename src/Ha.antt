-- ===== src/Ha.antt =====
-- dashboard/lib/ha.js: the leader's role, and the commands for the hosts in the shared database. A table
-- is the list of its rows in the order of their ids, and each SQL statement of the source is one
-- function that takes effect at once; `none` for the table is a coordinator without a pool.
pub mod Queue
pub mod Trace
pub mod Invariant
pub mod Steps
pub mod Once
pub mod Final
pub mod Claims
pub mod Role
pub mod Leader
pub mod Apart
mod Examples
