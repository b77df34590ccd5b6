-- ===== src/Prewarm.antt =====
-- dashboard/lib/prewarm.js: the one runner that is added ahead of a forecast burst. Times are
-- milliseconds, and `windowStart - now <= d` is written `windowStart <= now + d`; a sentence is a
-- constructor with the values in it.
pub mod Types
pub mod Plan
pub mod Sound
pub mod Best
pub mod Acts
mod Examples
