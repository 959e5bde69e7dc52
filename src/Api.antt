-- ===== src/Api.antt =====
-- das_api/src: the checks of the JSON-RPC server on its arguments.
pub mod Pagination
