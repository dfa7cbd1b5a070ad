-- ===== src/Cog.antt =====
-- A Cloud Optimized GeoTIFF (geotiff/geotiff.go): the struct `GeoTIFF` and what its operations need
-- from outside.
pub mod Open
pub mod Key
pub mod Tiles
pub mod Lzw
pub mod Loc
pub mod Image
use gedtm30api.Base.{ℕ, Bool, Option, List}
use gedtm30api.Base.Int.{ℤ}
use gedtm30api.Base.Run.{Run}
use gedtm30api.Base.Io.{Io}
use gedtm30api.Bytes.{ByteOrder}
use gedtm30api.Source.Reader.{Reader}
use gedtm30api.Source.Parallel.{FetchSettings, Chunk}
use gedtm30api.Tiff.Value.{Tags}

-- The fields of `GeoTIFF` that stay as `OpenWithCache` set them. The reader and the cache are in
-- `World`.
pub record GeoTiff (F : Type 0) : Type 0 where
  pub byte_order : ByteOrder
  pub tags : Tags
  pub is_big_tiff : Bool
  pub image_width : ℕ
  pub image_length : ℕ
  pub tile_width : ℕ
  pub tile_length : ℕ
  pub tile_offsets : List ℕ
  pub tile_byte_counts : List ℕ
  pub bits_per_sample : ℕ
  pub sample_format : ℕ
  pub compression : ℕ
  pub predictor : ℕ
  pub pixel_scale_x : F
  pub pixel_scale_y : F
  pub cache_key_prefix : List ℕ
  pub prefetch_enabled : Bool
  pub tiles_across : ℕ

-- `tileFloats` and `tileInts`, both as 32-bit words.
pub data Tile : Type 0 where
  floats ints : List ℕ → Tile

-- The tile cache, a ccache.Cache: `get` finds a value that has not expired. What it evicts is its
-- own affair.
pub record TileCache (C : Type 0) : Type 0 where
  pub get : List ℕ → C → Option Tile × C
  pub set : List ℕ → Tile → C → C

-- What the operations change: the reader (its position, or what it has learnt) and the cache.
pub record World (R C : Type 0) : Type 0 where
  pub reader : R
  pub cache : C

-- `inflate` is zlib's. `decode_lzw` is what Lzw's `get_lzw_tile_data` does.
pub record Env (R C : Type 0) : Type 0 where
  pub reader : Reader R
  pub cache : TileCache C
  pub settings : FetchSettings
  pub order : List Chunk → List Chunk
  pub inflate : List ℕ → Run (List ℕ)
  pub decode_lzw : ℤ → Io R (List ℕ)
