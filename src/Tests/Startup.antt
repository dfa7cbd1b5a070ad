-- ===== src/Tests/Startup.antt =====
-- A program that is started on a mosaic of one file.
use gedtm30api.Base.{ℕ, suc, ◌≡◌, refl, true, Option, some, none, [], ◌∷◌, ◌-◌}
use gedtm30api.Base.Int.{ℤ, pos, negsuc, ◌-ℤ◌, leb_ℤ}
use gedtm30api.Base.Run.{ok}
use gedtm30api.Source.Parallel.Settings.{IsUsable}
use gedtm30api.Source.Memory.{Memory, memory}
use gedtm30api.Geo.Floats.{whole_numbers}
use gedtm30api.Vrt.{Text, Axis, Vrt}
use gedtm30api.Vrt.Handles.{new_handles}
use gedtm30api.Vrt.Parse.{
  RectXml, VrtXml, open_vrt, six_values, parse_floats, build, sources_of, source_info, axis,
  rounded, max_sources_of, set_base_url, set_prefetch_enabled,
}
use gedtm30api.Server.Choice.{Config, choose, has_suffix, reverse_onto, is_http}
use gedtm30api.Server.Startup.{
  initial_settings, configure, Outside, Raster, mosaic, setup_vrt, setup_local_vrt_reader, set_up,
  setup_tiff_reader,
}
use gedtm30api.Server.Startup.Source.{IsRaster, configure-IsUsable, setup_tiff_reader-IsRaster}

abbrev dem_vrt : Text
dem_vrt = b'd' ∷ b'/' ∷ b'a' ∷ b'.' ∷ b'v' ∷ b'r' ∷ b't' ∷ []

abbrev odd_config : Config
odd_config = record {
  log_level = [];
  cog_source = dem_vrt;
  bucket_uri = [];
  object_key = [];
  cache_max_size = pos 4096;
  cache_prune_percent = 10;
  cache_max_open_sources = pos 3;
  prefetch_neighbors = true;
  tile_fetch_concurrency = negsuc 4;
  tile_fetch_chunk_size = pos 0;
  header_prefetch_size = negsuc 0;
}

abbrev eight : RectXml ℤ
eight = record { x_off = pos 0; y_off = pos 0; x_size = pos 8; y_size = pos 8 }

abbrev one_file : VrtXml ℤ
one_file = record {
  raster_x_size = pos 8;
  raster_y_size = pos 8;
  geo_transform = b'1' ∷ b',' ∷ b'2' ∷ b',' ∷ b'0' ∷ b',' ∷ b'9' ∷ b',' ∷ b'0' ∷ b',' ∷ b'3' ∷ [];
  bands =
      record {
        simple_sources =
            record {
              filename = b'a' ∷ [];
              relative_to_vrt = pos 1;
              source_band = pos 1;
              src_rect = eight;
              dst_rect = eight;
            }
            ∷ [];
        complex_sources = [];
      }
      ∷ [];
}

abbrev digit : Text → Option ℤ
digit (d ∷ []) = some (pos (d - 48))
digit [] = none
digit (d ∷ e ∷ ds) = none

abbrev no_file : Memory
no_file = record { contents = []; offset = 0 }

-- The state counts the files that were opened.
abbrev disk : Outside ℤ Memory ℕ (Unit {0}) ℤ
disk = record {
  open_bucket = λ uri s. (ok tt, s);
  blob_reader = λ bucket key s. (ok no_file, s);
  http_reader = λ url s. (ok no_file, s);
  open_file = λ path s. (ok no_file, suc s);
  decode_xml = λ raw s. (ok one_file, s);
  parse_float = digit;
  new_cache = λ size percent. size;
}

abbrev all_eight : Axis
all_eight = record { src_off = pos 0; src_size = pos 8; dst_off = pos 0; dst_size = pos 8 }

abbrev one_file_vrt : Vrt ℤ
one_file_vrt = record {
  image_width = pos 8;
  image_length = pos 8;
  pixel_scale_x = pos 2;
  pixel_scale_y = negsuc 2;
  origin_x = pos 1;
  origin_y = pos 9;
  sources =
      record {
        filename = b'a' ∷ [];
        relative = true;
        source_band = pos 1;
        x = all_eight;
        y = all_eight;
      }
      ∷ [];
  base_url = dem_vrt;
  prefetch_enabled = true;
}

abbrev opened_mosaic : Raster ℤ Memory ℕ ℤ
opened_mosaic = mosaic one_file_vrt (new_handles (max_sources_of (pos 3))) disk.open_file (pos 4096)

opens_mosaic :
    setup_tiff_reader whole_numbers disk memory (λ cs. cs) odd_config 0 ≡ (ok opened_mosaic, 1)
unfolding setup_tiff_reader set_up choose has_suffix reverse_onto is_http setup_local_vrt_reader
    setup_vrt open_vrt six_values parse_floats build sources_of source_info axis rounded
    set_base_url set_prefetch_enabled ◌-ℤ◌
opens_mosaic = refl

setup_tiff_reader-IsRaster_example :
    IsRaster whole_numbers disk memory (λ cs. cs) odd_config true dem_vrt opened_mosaic
unfolding has_suffix reverse_onto
setup_tiff_reader-IsRaster_example =
    setup_tiff_reader-IsRaster whole_numbers disk memory (λ cs. cs) odd_config 0 1 opened_mosaic
      opens_mosaic

configure-IsUsable_example :
    IsUsable (configure odd_config initial_settings).fetch
    × (leb_ℤ (pos 1) (configure odd_config initial_settings).header_prefetch_size ≡ true)
configure-IsUsable_example = configure-IsUsable odd_config
