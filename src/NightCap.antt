-- ===== src/NightCap.antt =====
-- dashboard/lib/night-cap.js: the controller that keeps at most `maxBusy` CI runners of a host busy
-- inside a nightly window. Times are milliseconds, and `now - t < d` is written `now < t + d`.
-- `lower` stands for String.prototype.toLowerCase; nothing is assumed of it. A text that a decision
-- gives as its reason is a constructor with the values that the text shows.
pub mod Types
pub mod Jobs
pub mod Slots
pub mod Park
pub mod Decide
pub mod HandsOff
pub mod Sent
pub mod Cap
pub mod Release
pub mod Fair
mod Examples
