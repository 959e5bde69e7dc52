-- ===== src/Dapi.antt =====
-- digital_asset_types/src/dapi: what the read API computes from the rows.
pub mod Proofs
pub mod Sorting
pub mod Pages
pub mod Groups
pub mod Assets
pub mod Terms
pub mod Search
