-- ===== src/Backfiller.antt =====
-- nft_ingester/src/backfiller.rs: the trees whose change logs have gaps, and the blocks that are
-- fetched to fill them.
pub mod Rows
pub mod Gaps
pub mod Blocks
pub mod Node
pub mod Plug
pub mod Signatures
pub mod Filler
pub mod Finder
