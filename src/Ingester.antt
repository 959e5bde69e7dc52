-- ===== src/Ingester.antt =====
-- grpc_ingester/src: where the stream resumes, how hosts are paused, how writes are retried, and which
-- addresses a download may reach.
pub mod Cursor
pub mod Hosts
pub mod Retry
pub mod Downloads
pub mod Guard
