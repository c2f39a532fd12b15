-- ===== src/Cron.antt =====
-- packages/core/cron.ts: the parser of cron expressions and the search for the next fire time.
pub mod Calendar
pub mod Search
pub mod Field
pub mod Expression
mod Tests
