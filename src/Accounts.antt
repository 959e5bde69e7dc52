-- ===== src/Accounts.antt =====
-- program_transformers/src: what the updates of accounts write, other than those of Bubblegum.
pub mod Columns
pub mod Burns
pub mod Tokens
pub mod Agents
pub mod Metadata
