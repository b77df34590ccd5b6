-- ===== src/LongRunning.antt =====
-- dashboard/lib/long-running.js: how long a run may take before it is flagged. Durations are
-- milliseconds, the multiplier is in hundredths and the percentile in percent, and the products that
-- the program rounds are rounded exactly. What the two queries return is an input.
pub mod Baseline
pub mod Rank
pub mod Annotate
pub mod Flagged
mod Examples
