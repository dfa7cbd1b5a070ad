-- ===== src/Tests/Opening.antt =====
-- The tags of an image whose pixel scale is not of type DOUBLE.
use gedtm30api.Base.{ℕ, ◌≡◌, ◌↔◌, refl, false, List, [], ◌∷◌}
use gedtm30api.Base.Run.{panic}
use gedtm30api.Bytes.{little_endian}
use gedtm30api.Tiff.FieldType
use gedtm30api.Tiff.Tag
use gedtm30api.Tiff.Header.{Head}
use gedtm30api.Tiff.Value.{TagData, Tags, empty_tag_data, lookup, get_uint, get_64bit_slice}
use gedtm30api.Geo.Floats.{whole_numbers}
use gedtm30api.Cog.Open.{metadata}
use gedtm30api.Cog.Open.Panics.{HasTags, HasShortScale, metadata-panic_iff}

abbrev longs : List ℕ → TagData
longs vs = record (empty_tag_data FieldType.long 1) { long_data = vs }

abbrev float_scale : Tags
float_scale =
    (Tag.image_width, longs (100 ∷ []))
    ∷ (Tag.image_length, longs (70 ∷ []))
    ∷ (Tag.tile_width, longs (32 ∷ []))
    ∷ (Tag.tile_length, longs (16 ∷ []))
    ∷ (Tag.tile_offsets, longs (400 ∷ 500 ∷ []))
    ∷ (Tag.tile_byte_counts, longs (100 ∷ 100 ∷ []))
    ∷ (Tag.model_pixel_scale, record (empty_tag_data FieldType.float 2) { float_data = 1 ∷ 1 ∷ [] })
    ∷ []

float_scale-HasTags : HasTags float_scale
unfolding get_uint get_64bit_slice lookup mathlib.Core.Option.bind
float_scale-HasTags = record {
  image_width = (100, refl);
  image_length = (70, refl);
  tile_width = (32, refl);
  tile_length = (16, refl);
  tile_offsets = (400 ∷ 500 ∷ [], refl);
  tile_byte_counts = (100 ∷ 100 ∷ [], refl);
}

abbrev some_head : Head
some_head = record { byte_order = little_endian; is_big_tiff = false; ifd_offset = 8 }

metadata-panic_iff_example :
    (metadata whole_numbers float_scale some_head [] ≡ panic) ↔ HasShortScale float_scale
metadata-panic_iff_example =
    metadata-panic_iff whole_numbers float_scale some_head [] float_scale-HasTags
