-- ===== src/Contracts.antt =====
-- The contracts of workflows and how two of them compare (packages/runtime/index.ts).
pub mod Values
pub mod Steps
pub mod Schemas
pub mod Shapes
pub mod Versions
