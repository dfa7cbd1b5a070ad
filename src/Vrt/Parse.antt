-- ===== src/Vrt/Parse.antt =====
-- `OpenVRT` (geotiff/vrt.go), from the decoded XML on. Decoding XML and reading a decimal float are
-- the standard library's.
use gedtm30api.Base.{
  ℕ, zero, suc, Bool, Option, List, [], ◌∷◌, ◌++◌, map, length, ◌==◌, if◌then◌else◌,
}
use gedtm30api.Base.Int.{ℤ, pos, negsuc, eqb_ℤ}
use gedtm30api.Base.Run.{text, Run, ok, err, ◌>>=◌, or_error}
use gedtm30api.Geo.Floats.{Floats}
use gedtm30api.Vrt.{Text, Axis, SourceInfo, Vrt}
use gedtm30api.Vrt.Text.{replace_commas, fields, trim_space}

-- `vrtRectXML`
pub record RectXml (F : Type 0) : Type 0 where
  pub x_off : F
  pub y_off : F
  pub x_size : F
  pub y_size : F

-- `vrtSourceXML`, with `vrtFilenameXML` in it.
pub record SourceXml (F : Type 0) : Type 0 where
  pub filename : Text
  pub relative_to_vrt : ℤ
  pub source_band : ℤ
  pub src_rect : RectXml F
  pub dst_rect : RectXml F

-- `vrtBandXML`
pub record BandXml (F : Type 0) : Type 0 where
  pub simple_sources : List (SourceXml F)
  pub complex_sources : List (SourceXml F)

-- `vrtXML`
pub record VrtXml (F : Type 0) : Type 0 where
  pub raster_x_size : F
  pub raster_y_size : F
  pub geo_transform : Text
  pub bands : List (BandXml F)

-- `defaultMaxOpenSources`
abbrev pub default_max_open_sources : ℕ
default_max_open_sources = 256

pub max_sources_of : ℤ → ℕ
max_sources_of (pos zero) = default_max_open_sources
max_sources_of (pos (suc n)) = suc n
max_sources_of (negsuc n) = default_max_open_sources

module _ {F G : Type 0} (fl : Floats F G) where
  unfoldable pub rounded : F → ℤ
  rounded f = fl.to_int (fl.round f)

  unfoldable pub axis : F → F → F → F → Axis
  axis src_off src_size dst_off dst_size = record {
    src_off = rounded src_off;
    src_size = rounded src_size;
    dst_off = rounded dst_off;
    dst_size = rounded dst_size;
  }

  unfoldable pub source_info : SourceXml F → SourceInfo
  source_info s = record {
    filename = trim_space s.filename;
    relative = eqb_ℤ s.relative_to_vrt (pos 1);
    source_band = s.source_band;
    x = axis s.src_rect.x_off s.src_rect.x_size s.dst_rect.x_off s.dst_rect.x_size;
    y = axis s.src_rect.y_off s.src_rect.y_size s.dst_rect.y_off s.dst_rect.y_size;
  }

  unfoldable pub sources_of : List (BandXml F) → List SourceInfo
  sources_of [] = []
  sources_of (band ∷ bands) =
      map source_info band.simple_sources
      ++ (map source_info band.complex_sources ++ sources_of bands)

  unfoldable pub parse_floats : (Text → Option F) → List Text → Run (List F)
  parse_floats parse_float [] = ok []
  parse_floats parse_float (p ∷ parts) = do
    v ← or_error (parse_float (trim_space p)) (text "invalid GeoTransform value")
    vs ← parse_floats parse_float parts
    ok (v ∷ vs)

  unfoldable pub build : VrtXml F → List F → Run (Vrt F)
  build xml (origin_x ∷ scale_x ∷ _ ∷ origin_y ∷ _ ∷ scale_y ∷ []) = elim (sources_of xml.bands) [
    | [] ↦ err (text "VRT contains no source files")
    | s ∷ ss ↦ ok (record {
      image_width = rounded xml.raster_x_size;
      image_length = rounded xml.raster_y_size;
      pixel_scale_x = scale_x;
      pixel_scale_y = if fl.lt (fl.of_int (pos 0)) scale_y then fl.neg scale_y else scale_y;
      origin_x = origin_x;
      origin_y = origin_y;
      sources = s ∷ ss;
      base_url = [];
      prefetch_enabled = Bool.false;
    })
  ]
  build xml _ = err (text "invalid GeoTransform: expected 6 values")

  unfoldable pub six_values : (Text → Option F) → List Text → Run (List F)
  six_values parse_float parts =
      if length parts == 6
      then parse_floats parse_float parts
      else err (text "invalid GeoTransform: expected 6 values")

  -- `OpenVRT`, less the handles that it makes, `new_handles (max_sources_of n)`.
  unfoldable pub open_vrt : (Text → Option F) → VrtXml F → Run (Vrt F)
  open_vrt parse_float xml = do
    transform ← six_values parse_float (fields (replace_commas xml.geo_transform))
    build xml transform

-- `SetBaseURL` and `SetPrefetchEnabled`
unfoldable pub set_base_url : {F : Type 0} → Text → Vrt F → Vrt F
set_base_url base_url v = record v { base_url = base_url }

unfoldable pub set_prefetch_enabled : {F : Type 0} → Bool → Vrt F → Vrt F
set_prefetch_enabled enabled v = record v { prefetch_enabled = enabled }
