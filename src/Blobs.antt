-- ===== src/Blobs.antt =====
-- Blobs: the driver that keeps their bytes in memory, the tables of their metadata, and the client that
-- the engine gives to the application.
pub mod Memory
pub mod Tables
pub mod Client
pub mod Uploads
mod Tests
