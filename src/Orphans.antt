-- ===== src/Orphans.antt =====
-- dashboard/lib/orphans.js: jobs whose work is done but whose result never reached GitHub. Times are
-- milliseconds, `none` where the text of a time cannot be read; the sentences and commands that an
-- orphan carries are left out.
pub mod Classify
pub mod Stuck
pub mod Found
mod Examples
