-- ===== src/Tests/Mosaics.antt =====
-- Mosaics of two sources, and profiles.
use gedtm30api.Base.{
  ℕ, suc, ◌-◌, ◌≤◌, ◌<◌, ◌≡◌, ◌≢◌, refl, ap, true, false, Option, none, some, List, [], ◌∷◌, ◌++◌,
  get_or, arith,
}
use gedtm30api.Base.Int.{ℤ, pos, negsuc, add64, ◌+ℤ◌, ◌*ℤ◌}
use gedtm30api.Base.Run.{text, wrap, ok, err}
use gedtm30api.Base.Io.{Io}
use gedtm30api.Source.Memory.{Memory, memory}
use gedtm30api.Geo.Floats.{whole_numbers}
use gedtm30api.Geo.Corners.{Corners, contains, corners_from}
use gedtm30api.Vrt.{Text, SourceInfo, Vrt}
use gedtm30api.Vrt.Handles.{SourceEntry, Handles, update, update_name, lru_get, lru_put}
use gedtm30api.Vrt.Handles.Spec.{Holds, named}
use gedtm30api.Vrt.Handles.Refinement.{lru_get-touch, lru_put-store}
use gedtm30api.Vrt.Mosaic.{World, Env, bounds, source_pixel, in_axis, get_source_geo}
use gedtm30api.Vrt.Mosaic.Sources.{axis_of, source_pixel-inside}
use gedtm30api.Vrt.Mosaic.Opens.{get_source_geo-outcome}
use gedtm30api.Vrt.Mosaic.Outside.{outside_error}
use gedtm30api.Server.{GeoRaster, not_found, get_elevation, get_elevation_prefix}
use gedtm30api.Server.Status.{mosaic, get_elevation-outside}

abbrev name_a : Text
name_a = b'a' ∷ []

abbrev name_b : Text
name_b = b'b' ∷ []

abbrev name_c : Text
name_c = b'c' ∷ []

name_a≢name_b : name_a ≢ name_b
name_a≢name_b e = omega (arith, ap (λ s. get_or s 0 0) e)

-- The source `b` was used last, the source `a` before it.
abbrev two_open : Handles ℕ
two_open = record {
  entries = update (update (λ i. none) 0 (some (named name_a 7))) 1 (some (named name_b 8));
  next = 2;
  source_readers = update_name (update_name (λ s. none) name_a (some 0)) name_b (some 1);
  source_lru = 1 ∷ 0 ∷ [];
  max_sources = 2;
}

abbrev b_then_a : List (SourceEntry ℕ)
b_then_a = named name_b 8 ∷ named name_a 7 ∷ []

two_open-Holds : Holds two_open b_then_a
two_open-Holds = record {
  elements = (1, named name_b 8) ∷ (0, named name_a 7) ∷ [];
  links = record {
    order = refl;
    stored = ((refl, omega arith), ((refl, omega arith), tt));
    names = λ s. refl;
    distinct = (((λ e. omega arith, λ e. name_a≢name_b e), tt), (tt, tt));
  };
  shown = refl;
  bounded = omega arith;
}

lru_get-touch_example :
    (h' : Handles ℕ) × (lru_get name_a two_open ≡ (ok (some 7), h'))
    × Holds h' (named name_a 7 ∷ named name_b 8 ∷ [])
    × (h'.max_sources ≡ 2)
lru_get-touch_example = lru_get-touch two_open b_then_a name_a two_open-Holds

lru_put-store_example :
    (h' : Handles ℕ) × (lru_put name_c 9 two_open ≡ (ok tt, h'))
    × Holds h' (named name_c 9 ∷ named name_b 8 ∷ [])
    × (h'.max_sources ≡ 2)
lru_put-store_example = lru_put-store two_open b_then_a name_c 9 two_open-Holds

-- 10 by 10 pixels, and right of them 10 by 10 that a source of 20 by 20 pixels fills.
abbrev left : SourceInfo
left = record {
  filename = name_a;
  relative = true;
  source_band = pos 1;
  x = axis_of 0 10 0 10;
  y = axis_of 0 10 0 10;
}

abbrev right : SourceInfo
right = record {
  filename = name_b;
  relative = true;
  source_band = pos 1;
  x = axis_of 0 20 10 10;
  y = axis_of 0 20 0 10;
}

right-in_axis : in_axis (axis_of 0 20 10 10) (pos 12) ≡ true
unfolding in_axis add64
right-in_axis = refl

source_pixel-inside_example :
    (p : ℕ) × (source_pixel (axis_of 0 20 10 10) (pos 12) ≡ ok (pos p)) × (0 ≤ p) × (p < 20)
source_pixel-inside_example =
    source_pixel-inside 0 20 10 10 12 (omega arith) (omega arith) (omega arith) (omega arith)
      right-in_axis

abbrev two_sources : Vrt ℤ
two_sources = record {
  image_width = pos 20;
  image_length = pos 10;
  pixel_scale_x = pos 1;
  pixel_scale_y = negsuc 0;
  origin_x = pos 0;
  origin_y = pos 10;
  sources = left ∷ right ∷ [];
  base_url = [];
  prefetch_enabled = false;
}

-- Each file is empty, and nothing is cached.
abbrev empty_files : Env Memory (Unit {0}) (Unit {0})
empty_files = record {
  reader_factory = λ s u. (ok (record { contents = []; offset = 0 }), u);
  reader = memory;
  cache = record { get = λ k c. (none, c); set = λ k t c. c };
  settings = record { concurrency = 1; chunk_size = 1 };
  order = λ cs. cs;
  inflate = λ bs. ok bs;
  decode_lzw = λ n s. (ok [], s);
  prefetch_size = pos 16;
}

abbrev two_open_world : World ℤ Memory (Unit {0}) (Unit {0})
two_open_world = record { handles = two_open; openings = []; cache = tt; factory = tt }

abbrev no_files : Env Memory (Unit {0}) (Unit {0})
no_files = record empty_files { reader_factory = λ s u. (err (text "gone"), u) }

-- The source `c` is not open, and its reader is not to be had.
get_source_geo-outcome_example :
    (h' : Handles ℕ) × (get_source_geo whole_numbers two_sources no_files name_c two_open_world ≡ (
      err (wrap "failed to create reader for source: " (text "gone")),
      record two_open_world { handles = h' },
    ))
    × Holds h' b_then_a
get_source_geo-outcome_example =
    get_source_geo-outcome whole_numbers two_sources no_files name_c two_open_world b_then_a
      two_open-Holds

-- Pixels whose value is their column; the state counts the reads.
abbrev column : ℤ → ℤ → Io ℕ ℤ
column x y w = (ok x, suc w)

abbrev twenty_by_ten : Corners ℤ
twenty_by_ten = corners_from whole_numbers (pos 0) (pos 10) (pos 20) (pos 10) (pos 1) (negsuc 0)

abbrev there_and_back : List (ℤ × ℤ)
there_and_back = (pos 5, pos 2) ∷ (pos 5, pos 8) ∷ (pos 5, pos 2) ∷ []

outside-twenty_by_ten :
    contains whole_numbers (bounds whole_numbers two_sources) (record { lon = pos 21; lat = pos 5 })
    ≡ false
unfolding contains bounds corners_from ◌+ℤ◌ ◌*ℤ◌
outside-twenty_by_ten = refl

get_elevation-outside_example :
    get_elevation whole_numbers
      (mosaic whole_numbers two_sources empty_files)
      (pos 5)
      (pos 21)
      two_open_world
    ≡ (ok (not_found outside_error), two_open_world)
get_elevation-outside_example =
    get_elevation-outside whole_numbers two_sources empty_files (pos 5) (pos 21) two_open_world
      outside-twenty_by_ten

-- A raster of columns.
abbrev columns : GeoRaster ℤ ℤ ℕ
columns = record { at_coord = λ lon lat. column lon lat; profile = λ cs w. (ok [], w) }

-- Reads one digit.
abbrev digit : Text → Option ℤ
digit [] = none
digit (b ∷ s) = some (pos (b - b'0'))

abbrev url : Text
url = get_elevation_prefix ++ (b'4' ∷ b'/' ∷ b'7' ∷ [])
