-- ===== src/Vrt.antt =====
-- A VRT mosaic (geotiff/vrt.go): the sources that it names and what it keeps of the opened ones.
pub mod Text
pub mod Filename
pub mod Handles
pub mod Parse
pub mod Mosaic
use gedtm30api.Base.{ℕ, Bool, List}
use gedtm30api.Base.Int.{ℤ}

-- File names, and other text, as bytes.
abbrev pub Text : Type 0
Text = List ℕ

-- `SrcXOff`, `SrcXSize` and their like, in one axis: where the source starts and how long it is, in its
-- own pixels and in those of the mosaic.
pub record Axis : Type 0 where
  pub src_off : ℤ
  pub src_size : ℤ
  pub dst_off : ℤ
  pub dst_size : ℤ

-- `VRTSourceInfo`
pub record SourceInfo : Type 0 where
  pub filename : Text
  pub relative : Bool
  pub source_band : ℤ
  pub x : Axis
  pub y : Axis

-- The fields of `VRTGeo` that stay as they were set. The handles and the tile cache are in
-- `Mosaic.World`.
pub record Vrt (F : Type 0) : Type 0 where
  pub image_width : ℤ
  pub image_length : ℤ
  pub pixel_scale_x : F
  pub pixel_scale_y : F
  pub origin_x : F
  pub origin_y : F
  pub sources : List SourceInfo
  pub base_url : Text
  pub prefetch_enabled : Bool
