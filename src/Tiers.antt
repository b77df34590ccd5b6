-- ===== src/Tiers.antt =====
-- dashboard/lib/tiers.js: which runners of a primary host and its standby hosts are online. Times are
-- milliseconds, and `now - t < d` is written `now < t + d`. A sentence that a decision shows is a
-- constructor with the values in it. `lower` stands for String.prototype.toLowerCase, and `glob` says
-- that the regular expression of `globToRegExp` matches; nothing is assumed of either.
pub mod Types
pub mod Lanes
pub mod Groups
pub mod Phase
pub mod Moves
pub mod Primary
pub mod Decide
pub mod Allowed
pub mod HandsOff
pub mod Hysteresis
pub mod Slots
pub mod Kept
pub mod Standby
pub mod Twins
mod Examples
