-- ===== src/Source.antt =====
-- Where the bytes come from.
pub mod Reader
pub mod Memory
pub mod Serves
pub mod Parallel
pub mod Prefix
pub mod Http
pub mod Blob
