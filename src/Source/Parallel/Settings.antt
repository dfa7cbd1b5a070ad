-- ===== src/Source/Parallel/Settings.antt =====
-- The settings stay such that `parallelReadAt` ends.
use gedtm30api.Base.{◌≤◌, arith}
use gedtm30api.Base.Int.{ℤ, pos, negsuc}
use gedtm30api.Source.Parallel.{
  FetchSettings, to_positive, set_tile_fetch_concurrency, set_tile_fetch_chunk_size,
}

pub record IsUsable (c : FetchSettings) : Type 0 where
  pub concurrency : 1 ≤ c.concurrency
  pub chunk_size : 1 ≤ c.chunk_size

-- SetTileFetchConcurrency keeps settings with at least one request at a time and at least one byte per
-- chunk so, whatever number it is given, also zero or a negative one.
pub set_tile_fetch_concurrency-IsUsable :
    (n : ℤ) (c : FetchSettings) → IsUsable c → IsUsable (set_tile_fetch_concurrency n c)
unfolding set_tile_fetch_concurrency to_positive
set_tile_fetch_concurrency-IsUsable (pos n) c h = ground arith
set_tile_fetch_concurrency-IsUsable (negsuc n) c h = ground arith

-- SetTileFetchChunkSize keeps settings with at least one request at a time and at least one byte per
-- chunk so, whatever number it is given: the loop over the chunks always moves on.
pub set_tile_fetch_chunk_size-IsUsable :
    (n : ℤ) (c : FetchSettings) → IsUsable c → IsUsable (set_tile_fetch_chunk_size n c)
unfolding set_tile_fetch_chunk_size
set_tile_fetch_chunk_size-IsUsable (pos n) c h = ground arith
set_tile_fetch_chunk_size-IsUsable (negsuc n) c h = ground arith
