-- ===== src/Database.antt =====
-- The Postgres tables that the indexer writes (digital_asset_types/src/dao/generated), one SQL
-- upsert as a function on a row, and the handlers' effects: statements that run in order, may each
-- fail, and are rolled back by a transaction (program_transformers/src/error.rs).
mod Schema
mod Upsert
mod Effect
pub mod Rollback
pub mod Laws
pub mod Quiet
pub mod Decompressed
pub mod Registers
pub mod Silent
unfoldable pub use Schema.*
unfoldable pub use Upsert.*
unfoldable pub use Effect.*
