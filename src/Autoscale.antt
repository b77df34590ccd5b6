-- ===== src/Autoscale.antt =====
-- dashboard/lib/autoscale.js: which runner to add or remove next. Times are milliseconds, and
-- `now - t < d` is written `now < t + d`. Reasons are constructors with the values that they show.
pub mod Types
pub mod ScaleDown
pub mod ScaleUp
pub mod Down
pub mod Wait
pub mod Up
mod Examples
