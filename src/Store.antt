-- ===== src/Store.antt =====
-- The tables of packages/bun/src/sqlite_adapter.ts that hold the data of the application.
pub mod Paging
pub mod Streams
