-- ===== src/Settle.antt =====
-- dashboard/lib/settle.js: fetching again the jobs and runs that stopped moving. What GitHub answers to
-- each row, and its rate limit before, are inputs; a list is kept of what the program persists, touches
-- and warns about.
pub mod Loop
pub mod Errors
mod Examples
