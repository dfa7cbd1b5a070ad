-- ===== src/Cog/Open.antt =====
-- `OpenWithCache` and `Bounds` (geotiff/geotiff.go).
pub mod Panics
pub mod Serving
use gedtm30api.Base.{
  ℕ, ◌+◌, ◌-◌, ◌/◌, ◌%◌, ◌^◌, false, Option, none, some, List, [], ◌∷◌, length, get_elem?, ltb,
  if◌then◌else◌,
}
use gedtm30api.Base.Int.{ℤ, pos}
use gedtm30api.Base.Run.{text, Run, ok, err, panic, hang, ◌>>=◌, or_error, or_panic}
use gedtm30api.Base.Io
use gedtm30api.Base.Io.{Io}
use gedtm30api.Source.Reader.{Read, Reader, Whence}
use gedtm30api.Source.Parallel.{FetchSettings, Chunk}
use gedtm30api.Source.Prefix.{PrefixReader, prefix_reader, new_prefix_reader, add_extent}
use gedtm30api.Tiff.Tag
use gedtm30api.Tiff.Header.{Head}
use gedtm30api.Tiff.Entry.{IfdEntry}
use gedtm30api.Tiff.Value.{Tags, lookup, get_uint, get_64bit_slice, double_data_value}
use gedtm30api.Tiff.Prefetch.{prefetch_missing_ranges}
use gedtm30api.Tiff.Directory.{Source, read_tags}
use gedtm30api.Geo.Floats.{Floats}
use gedtm30api.Geo.Corners.{Corners, corners_from}
use gedtm30api.Cog.{GeoTiff}

abbrev pub uncompressed : ℕ
uncompressed = 1

abbrev pub lzw : ℕ
lzw = 5

abbrev pub deflate : ℕ
deflate = 8

abbrev pub predictor_none : ℕ
predictor_none = 1

abbrev pub predictor_horizontal : ℕ
predictor_horizontal = 2

abbrev pub predictor_floating_point : ℕ
predictor_floating_point = 3

abbrev pub sample_format_int : ℕ
sample_format_int = 2

abbrev pub sample_format_float : ℕ
sample_format_float = 3

abbrev two32 : ℕ
two32 = 2 ^ 32

abbrev two16 : ℕ
two16 = 2 ^ 16

-- `int(a+b-1) / int(b)`, its sum one of uint32; callers exclude `b = 0`.
unfoldable pub tiles_to_cover : ℕ → ℕ → ℕ
tiles_to_cover a b = (a + b + two32 - 1) % two32 / b

abbrev or_default : Option ℕ → ℕ → ℕ
or_default none d = d
or_default (some v) d = v

abbrev values_or_nil : Option (List ℕ) → List ℕ
values_or_nil none = []
values_or_nil (some vs) = vs

module _ {F G : Type 0} (fl : Floats F G) where
  zero_float : F
  zero_float = fl.of_int (pos 0)

  -- The first two values of ModelPixelScale; an index that is not there panics.
  pixel_scale : Tags → Run (F × F)
  pixel_scale tags = do
    tag ← or_error (lookup Tag.model_pixel_scale tags) (text "missing tag: ModelPixelScale")
    let values = values_or_nil (double_data_value tag)
    x ← or_panic (get_elem? values 0)
    y ← or_panic (get_elem? values 1)
    ok (fl.from_bits x, fl.from_bits y)

  negative_scale : F → F
  negative_scale y = if fl.lt zero_float y then fl.neg y else y

  -- From the tags to the struct.
  pub metadata : Tags → Head → List ℕ → Run (GeoTiff F)
  metadata tags h key_prefix = do
    width ← or_error (get_uint Tag.image_width tags) (text "missing or invalid tag: ImageWidth")
    length ← or_error (get_uint Tag.image_length tags) (text "missing or invalid tag: ImageLength")
    tile_width ← or_error (get_uint Tag.tile_width tags) (text "missing or invalid tag: TileWidth")
    tile_length ←
        or_error (get_uint Tag.tile_length tags) (text "missing or invalid tag: TileLength")
    let w = width % two32
    let tw = tile_width % two32
    offsets ←
        or_error (get_64bit_slice Tag.tile_offsets tags)
          (text "missing or invalid tag: TileOffsets")
    counts ←
        or_error (get_64bit_slice Tag.tile_byte_counts tags)
          (text "missing or invalid tag: TileByteCounts")
    (scale_x, scale_y) ← pixel_scale tags
    ok (record {
      byte_order = h.byte_order;
      tags = tags;
      is_big_tiff = h.is_big_tiff;
      image_width = w;
      image_length = length % two32;
      tile_width = tw;
      tile_length = tile_length % two32;
      tile_offsets = offsets;
      tile_byte_counts = counts;
      bits_per_sample = or_default (get_uint Tag.bits_per_sample tags) 32 % two16;
      sample_format = or_default (get_uint Tag.sample_format tags) sample_format_float % two16;
      compression = or_default (get_uint Tag.compression tags) uncompressed % two16;
      predictor = or_default (get_uint Tag.predictor tags) predictor_none % two16;
      pixel_scale_x = scale_x;
      pixel_scale_y = negative_scale scale_y;
      cache_key_prefix = key_prefix;
      prefetch_enabled = false;
      tiles_across = if ltb 0 tw then tiles_to_cover w tw else 0;
    })

  -- `Bounds`
  unfoldable pub corners_of_tiepoint : GeoTiff F → Option (List ℕ) → Run (Corners F)
  corners_of_tiepoint g (some (i ∷ j ∷ _ ∷ lon ∷ lat ∷ _ ∷ _)) =
      let ul_lon = fl.sub (fl.from_bits lon) (fl.mul (fl.from_bits i) g.pixel_scale_x) in
      let ul_lat = fl.sub (fl.from_bits lat) (fl.mul (fl.from_bits j) g.pixel_scale_y) in
      ok (
        corners_from fl ul_lon ul_lat (pos g.image_width) (pos g.image_length) g.pixel_scale_x
          g.pixel_scale_y)
  corners_of_tiepoint g _ = err (text "invalid ModelTiepoint tag")

  unfoldable pub bounds : GeoTiff F → Run (Corners F)
  bounds g = do
    tag ← or_error (lookup Tag.model_tiepoint g.tags) (text "missing ModelTiepoint tag")
    corners_of_tiepoint g (double_data_value tag)

-- The reader that a GeoTIFF reads with: the prefixReader, or the raw reader if that could not be
-- made.
pub data Opened (S : Type 0) : Type 0 where
  prefixed : PrefixReader S → Opened S
  raw : S → Opened S

abbrev in_prefixed {ℓ} : {S : Type 0} {A : Type ℓ} → A × PrefixReader S → A × Opened S
in_prefixed (a, p) = (a, prefixed p)

abbrev in_raw {ℓ} : {S : Type 0} {A : Type ℓ} → A × S → A × Opened S
in_raw (a, s) = (a, raw s)

module _ {S : Type 0} (r : Reader S) where
  opened_read : ℕ → Io (Opened S) Read
  opened_read n (prefixed p) = in_prefixed ((prefix_reader r).read n p)
  opened_read n (raw s) = in_raw (r.read n s)

  opened_seek : ℤ → Whence → Io (Opened S) ℤ
  opened_seek off whence (prefixed p) = in_prefixed ((prefix_reader r).seek off whence p)
  opened_seek off whence (raw s) = in_raw (r.seek off whence s)

  opened_read_at : ℤ → ℕ → Io (Opened S) Read
  opened_read_at off n (prefixed p) = in_prefixed ((prefix_reader r).read_at off n p)
  opened_read_at off n (raw s) = in_raw (r.read_at off n s)

  pub opened_reader : Reader (Opened S)
  opened_reader = record { read = opened_read; seek = opened_seek; read_at = opened_read_at }

abbrev add_extent_opened : {S : Type 0} → ℤ → List ℕ → Opened S → Opened S
add_extent_opened off bytes (prefixed p) = prefixed (add_extent off bytes p)
add_extent_opened off bytes (raw s) = raw s

module _ {S : Type 0} (c : FetchSettings) (order : List Chunk → List Chunk) (r : Reader S) where
  prefetch_opened : List IfdEntry → Io (Opened S) (Unit {0})
  prefetch_opened es (prefixed p) = in_prefixed (prefetch_missing_ranges c order r es p)
  prefetch_opened es (raw s) = (ok tt, raw s)

  opened_source : Source (Opened S)
  opened_source = record {
    reader = opened_reader r;
    add_extent = add_extent_opened;
    prefetch = prefetch_opened;
  }

  -- Without a prefixReader the raw reader serves.
  wrapped : Run (PrefixReader S) × S → Io.Io (Opened S) (Unit {0})
  wrapped (ok p, s) o = (ok tt, prefixed p)
  wrapped (err e, s) o = (ok tt, raw s)
  wrapped (panic, s) o = (panic, raw s)
  wrapped (hang, s) o = (hang, raw s)

  -- `OpenWithCache`; the cache is handed on and not touched.
  pub open_with_cache : {F G : Type 0} → Floats F G → ℤ → List ℕ → S → Run (GeoTiff F) × Opened S
  open_with_cache {F} fl prefetch_size key_prefix s =
      Io.◌>>=◌ (wrapped (new_prefix_reader c order r prefetch_size s))
        (λ _.
          Io.◌>>=◌ (Io.wrap_error "failed to read tiff tags: " (read_tags opened_source))
            (λ (tags, h). Io.lift (metadata fl tags h key_prefix)))
        (raw s)
