-- ===== src/Tests.antt =====
-- The theorems at concrete inputs, where their hypotheses hold.
pub mod Readers
pub mod Files
pub mod Images
pub mod Tiles
pub mod Grids
pub mod Prefetching
pub mod Lzw
pub mod Opening
pub mod Mosaics
pub mod Remotes
pub mod Startup
pub mod Composed
