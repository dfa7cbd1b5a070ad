-- ===== src/Tests/Images.antt =====
-- Images of a few tiles.
use gedtm30api.Base.{ℕ, ◌+◌, ◌*◌, ◌/◌, ◌%◌, ◌<◌, ◌≡◌, refl, true, false, List, [], ◌∷◌, arith}
use gedtm30api.Base.Int.{ℤ, pos, negsuc}
use gedtm30api.Bytes.{little_endian}
use gedtm30api.Pixels.{undo_horizontal_int32}
use gedtm30api.Pixels.Rows.{undo_rows, undo_horizontal_int32-undo_rows}
use gedtm30api.Pixels.Horizontal.{difference_rows, undo_horizontal_int32-difference_rows}
use gedtm30api.Cog.{GeoTiff}
use gedtm30api.Cog.Open.{tiles_to_cover}
use gedtm30api.Cog.Loc.{tile_number, pixel_index_in_tile}
use gedtm30api.Cog.Loc.Index.{tile_rows, IsGridded, loc_address}

abbrev six_words : List ℕ
six_words = 5 ∷ 4294967295 ∷ 7 ∷ 1 ∷ 2 ∷ 4294967290 ∷ []

undo_horizontal_int32-undo_rows_example :
    undo_horizontal_int32 six_words 3 2 ≡ undo_rows 2 3 six_words
undo_horizontal_int32-undo_rows_example =
    undo_horizontal_int32-undo_rows six_words 3 2 (omega arith) (omega arith)

undo_horizontal_int32-difference_rows_example :
    undo_horizontal_int32 (difference_rows 2 3 six_words) 3 2 ≡ six_words
undo_horizontal_int32-difference_rows_example =
    undo_horizontal_int32-difference_rows six_words 3 2 (omega arith) (omega arith)
      (omega arith, (omega arith, (omega arith, (omega arith, (omega arith, (omega arith, tt))))))

-- 100 by 70 pixels in tiles of 32 by 16.
abbrev pub four_by_five : GeoTiff ℤ
four_by_five = record {
  byte_order = little_endian;
  tags = [];
  is_big_tiff = false;
  image_width = 100;
  image_length = 70;
  tile_width = 32;
  tile_length = 16;
  tile_offsets = [];
  tile_byte_counts = [];
  bits_per_sample = 32;
  sample_format = 3;
  compression = 1;
  predictor = 1;
  pixel_scale_x = pos 1;
  pixel_scale_y = negsuc 0;
  cache_key_prefix = [];
  prefetch_enabled = true;
  tiles_across = 4;
}

four_by_five-IsGridded : IsGridded four_by_five
unfolding tiles_to_cover
four_by_five-IsGridded = record {
  tile_width = omega arith;
  tile_length = omega arith;
  width_fits = omega arith;
  length_fits = omega arith;
  across = refl;
  numbered = omega arith;
}

loc_address_example :
    (n : ℕ) × (tile_number four_by_five 99 33 ≡ pos n)
    × (n < 4 * tile_rows four_by_five)
    × (pixel_index_in_tile four_by_five 99 33 < 32 * 16)
    × (n % 4 * 32 + pixel_index_in_tile four_by_five 99 33 % 32 ≡ 99)
    × (n / 4 * 16 + pixel_index_in_tile four_by_five 99 33 / 32 ≡ 33)
loc_address_example =
    loc_address four_by_five four_by_five-IsGridded 99 33 (omega arith) (omega arith)
