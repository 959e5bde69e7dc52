-- ===== src/Bubblegum.antt =====
-- Bubblegum transactions (program_transformers/src/bubblegum): from a parsed instruction to the
-- rows of the asset tables and of the tree's change log.
pub mod Types
pub mod Upserts
pub mod Names
pub mod ChangeLog
pub mod Leaf
pub mod Metadata
pub mod Dispatch
