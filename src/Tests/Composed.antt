-- ===== src/Tests/Composed.antt =====
-- A mosaic over an image of two tiles, read by coordinate.
use mathlib.Core.List.Permᴰ
use gedtm30api.Base.{
  ℕ, zero, suc, ◌<◌, ◌≡◌, refl, sym, ap, ◌++◌, ◌∙◌, subst, inl, inr, Bool-cases, get_elem?, false,
  true, none, some, List, [], ◌∷◌, arith,
}
use gedtm30api.Base.Int.{ℤ, pos, negsuc, quot_ℤ, ◌+ℤ◌, ◌-ℤ◌, ◌*ℤ◌, add64}
use gedtm30api.Base.Run.{ok}
use gedtm30api.Source.Memory.{Memory, memory}
use gedtm30api.Source.Serves.{Serves, memory-Serves, AnyRange-Serves, IsInside}
use gedtm30api.Geo.Floats.{whole_numbers}
use gedtm30api.Geo.Corners.{Corners, contains, pixel_of, pixel_index, pixel_to_coord, corners_from}
use gedtm30api.Tiff.Value.{lookup, double_data_value}
use gedtm30api.Cog.{GeoTiff}
use gedtm30api.Cog as Cog
use gedtm30api.Cog.Open.{Opened, opened_reader, raw, corners_of_tiepoint}
use gedtm30api.Cog.Open as Open
use gedtm30api.Cog.Open.Serving.{IsOpened, opened_reader-Serves}
use gedtm30api.Cog.Loc.Coord.{IsOnPixel, IsExact, at_coord-image}
use gedtm30api.Cog.Tiles.Holding.{IsTile, IsTile-Tells}
use gedtm30api.Cog.Loc.Pixel.{elevation_of_word}
use gedtm30api.Cog.Loc as Loc
use gedtm30api.Vrt.{Text, SourceInfo, Vrt}
use gedtm30api.Vrt.Handles.{SourceEntry, Handles, update, update_name}
use gedtm30api.Vrt.Handles.Spec as Spec
use gedtm30api.Vrt.Handles.Spec.{Holds, named}
use gedtm30api.Vrt.Text.{same, same→eq}
use gedtm30api.Vrt.Mosaic.{World, Env, bounds, source_env, in_axis, find_source, outside, at_coord}
use gedtm30api.Vrt.Mosaic.Sources.{axis_of}
use gedtm30api.Vrt.Mosaic.Ready.{IsPlaced, IsOpenAt, IsReady}
use gedtm30api.Vrt.Mosaic.Shared.{IsNaming, IsAnyTile, IsStoredIn, at_coord-elevation}
use gedtm30api.Cog.Key.Distinct.{hash}
use gedtm30api.Vrt.Mosaic.Outside.{pixel_outside_error}
use gedtm30api.Server.{get_elevation, internal}
use gedtm30api.Server.Status.{mosaic, get_elevation-rounded}
use gedtm30api.Tests.Tiles.{Entries, list_cache}
use gedtm30api.Tests.Grids.{
  numbered, three_by_two, three_by_two_of, HoldsOnly, tile_bytes, three_by_two-IsGridded,
  three_by_two-IsDecodable, IsStored-tile, HoldsTiles, list_cache-Remembers,
}

abbrev rect : Corners ℤ
rect = record {
  upper_left = record { lon = pos 0; lat = pos 2 };
  lower_left = record { lon = pos 0; lat = pos 0 };
  upper_right = record { lon = pos 3; lat = pos 2 };
  lower_right = record { lon = pos 3; lat = pos 0 };
}

rect-bounds : (prefix : List ℕ) → Open.bounds whole_numbers (three_by_two_of prefix) ≡ ok rect
unfolding Open.bounds corners_of_tiepoint lookup double_data_value corners_from ◌+ℤ◌ ◌-ℤ◌ ◌*ℤ◌
rect-bounds prefix = refl

abbrev OnPixel : List ℕ → ℕ → ℕ → Type 0
OnPixel prefix x y =
    IsOnPixel whole_numbers (three_by_two_of prefix) rect
      (pixel_to_coord whole_numbers rect (pos 1) (negsuc 0) (pos x) (pos y)) x y

pixels-OnPixel : (prefix : List ℕ) (x y : ℕ) → x < 3 → y < 2 → OnPixel prefix x y
unfolding contains pixel_of pixel_index pixel_to_coord quot_ℤ ◌+ℤ◌ ◌-ℤ◌ ◌*ℤ◌
pixels-OnPixel prefix zero zero h k = record { inside = refl; pixel = refl }
pixels-OnPixel prefix zero (suc zero) h k = record { inside = refl; pixel = refl }
pixels-OnPixel prefix (suc zero) zero h k = record { inside = refl; pixel = refl }
pixels-OnPixel prefix (suc zero) (suc zero) h k = record { inside = refl; pixel = refl }
pixels-OnPixel prefix (suc (suc zero)) zero h k = record { inside = refl; pixel = refl }
pixels-OnPixel prefix (suc (suc zero)) (suc zero) h k = record { inside = refl; pixel = refl }
pixels-OnPixel prefix (suc (suc (suc x))) y h k = absurd (omega arith)
pixels-OnPixel prefix x (suc (suc y)) h k = absurd (omega arith)

rect-IsExact : (prefix : List ℕ) → IsExact whole_numbers (three_by_two_of prefix) rect
rect-IsExact prefix = record { bounds_are = rect-bounds prefix; exact = pixels-OnPixel prefix }

abbrev one_file_env : Env Memory Entries (Unit {0})
one_file_env = record {
  reader_factory = λ s u. (ok (record { contents = tile_bytes; offset = 0 }), u);
  reader = memory;
  cache = list_cache;
  settings = record { concurrency = 1; chunk_size = 1 };
  order = λ cs. cs;
  inflate = λ bs. ok bs;
  decode_lzw = λ n s. (ok [], s);
  prefetch_size = pos 16;
}

abbrev IsTileFile : Opened Memory → Type 0
IsTileFile = IsOpened (λ m. m.contents ≡ tile_bytes) tile_bytes

IsTileFile-Serves : Serves (opened_reader memory) IsTileFile tile_bytes (IsInside tile_bytes)
IsTileFile-Serves =
    opened_reader-Serves memory tile_bytes (omega arith) (IsInside tile_bytes) (
      AnyRange-Serves memory (λ m. m.contents ≡ tile_bytes) tile_bytes _ (memory-Serves tile_bytes))

abbrev tile_memory : Opened Memory
tile_memory = raw (record { contents = tile_bytes; offset = 0 })

abbrev pixel_value : ℕ → ℕ → ℤ
pixel_value x y = elevation_of_word whole_numbers three_by_two (numbered x y)

at_coord-image_example :
    (w' : Cog.World (Opened Memory) Entries) × (Loc.at_coord whole_numbers three_by_two
        (source_env one_file_env)
        (pos 2)
        (pos 1)
        (record { reader = tile_memory; cache = [] })
      ≡ (ok (pixel_value 2 1), w'))
    × IsTileFile w'.reader
    × HoldsTiles w'.cache
unfolding source_env contains pixel_of pixel_index quot_ℤ ◌+ℤ◌ ◌-ℤ◌ ◌*ℤ◌
at_coord-image_example =
    at_coord-image whole_numbers three_by_two (source_env one_file_env) tile_bytes (omega arith)
      IsTileFile-Serves (record { concurrency = omega arith; chunk_size = omega arith })
      (λ cs. Permᴰ.refl cs) numbered (λ x y. omega arith) (three_by_two-IsDecodable [])
      (three_by_two-IsGridded []) (IsStored-tile []) (IsTile-Tells three_by_two numbered)
      (list_cache-Remembers (IsTile three_by_two numbered)) rect (rect-bounds [])
      (record { lon = pos 2; lat = pos 1 }) 2 1 (record { reader = tile_memory; cache = [] })
      (omega arith) (omega arith) (record { inside = refl; pixel = refl }) refl (λ key t found. cc)

abbrev image_of : Text → GeoTiff ℤ
image_of name = three_by_two_of (name ++ (hash ∷ []))

-- The tiles of every file.
abbrev HoldsAny : Entries → Type 0
HoldsAny = HoldsOnly (IsAnyTile image_of (λ s. numbered))

image_of-IsNaming : IsNaming image_of (λ s. numbered) (λ s. s)
image_of-IsNaming = record {
  prefix = λ s. refl;
  one_file = λ s t same_path. (ap image_of same_path, refl);
}

image_of-IsStoredIn :
    (s : Text)
    → IsStoredIn whole_numbers (image_of s) (source_env one_file_env) IsTileFile tile_bytes numbered
unfolding source_env
image_of-IsStoredIn s = record {
  small = omega arith;
  serves = IsTileFile-Serves;
  words = λ x y. omega arith;
  decodable = three_by_two-IsDecodable (s ++ (hash ∷ []));
  gridded = three_by_two-IsGridded (s ++ (hash ∷ []));
  stored = IsStored-tile (s ++ (hash ∷ []));
  rect = rect;
  exact = rect-IsExact (s ++ (hash ∷ []));
}

abbrev name_a : Text
name_a = b'a' ∷ []

-- The columns 1 and 2 of the image, right of ten columns that no source fills.
abbrev cropped : SourceInfo
cropped = record {
  filename = name_a;
  relative = true;
  source_band = pos 1;
  x = axis_of 1 2 10 2;
  y = axis_of 0 2 0 2;
}

abbrev twelve_by_two : Vrt ℤ
twelve_by_two = record {
  image_width = pos 12;
  image_length = pos 2;
  pixel_scale_x = pos 1;
  pixel_scale_y = negsuc 0;
  origin_x = pos 0;
  origin_y = pos 2;
  sources = cropped ∷ [];
  base_url = [];
  prefetch_enabled = false;
}

abbrev one_open : Handles ℕ
one_open = record {
  entries = update (λ i. none) 0 (some (named name_a 0));
  next = 1;
  source_readers = update_name (λ s. none) name_a (some 0);
  source_lru = 0 ∷ [];
  max_sources = 2;
}

abbrev one_open_world : World ℤ Memory Entries (Unit {0})
one_open_world = record {
  handles = one_open;
  openings = record { geo = image_of name_a; reader = tile_memory } ∷ [];
  cache = [];
  factory = tt;
}

abbrev a_open : List (SourceEntry ℕ)
a_open = named name_a 0 ∷ []

one_open-Holds : Holds one_open a_open
one_open-Holds = record {
  elements = (0, named name_a 0) ∷ [];
  links = record {
    order = refl;
    stored = ((refl, omega arith), tt);
    names = λ s. refl;
    distinct = (tt, tt);
  };
  shown = refl;
  bounded = omega arith;
}

abbrev IsOneFile : World ℤ Memory Entries (Unit {0}) → Type 0
IsOneFile =
    IsReady whole_numbers twelve_by_two one_file_env image_of (λ s. IsTileFile) HoldsAny
      (λ s. pixel_value)

abbrev cropped_x : IsPlaced cropped.x 3
cropped_x = record {
  src_off = 1;
  src_size = 2;
  dst_off = 10;
  dst_size = 2;
  is = refl;
  some_pixels = omega arith;
  inside = omega arith;
  dst_fits = omega arith;
  src_fits = omega arith;
  product_fits = omega arith;
}

abbrev cropped_y : IsPlaced cropped.y 2
cropped_y = record {
  src_off = 0;
  src_size = 2;
  dst_off = 0;
  dst_size = 2;
  is = refl;
  some_pixels = omega arith;
  inside = omega arith;
  dst_fits = omega arith;
  src_fits = omega arith;
  product_fits = omega arith;
}

only_name : (s : Text) (i : ℕ) → Spec.lookup s a_open ≡ some i → s ≡ name_a
only_name s i found = elim (Bool-cases (same s name_a)) [
  | inl eq ↦ same→eq s name_a eq
  | inr ne ↦ let none_found : Spec.lookup s a_open ≡ none = rw ne in cc
]

abbrev HasOpened : SourceInfo → Type 0
HasOpened s =
    (i : ℕ) × (Spec.lookup s.filename a_open ≡ some i)
    × IsOpenAt whole_numbers twelve_by_two one_file_env image_of (λ t. IsTileFile) HoldsAny
        (λ t. pixel_value) one_open_world.openings s.filename i

name_a-opened : (k : ℕ) (s : SourceInfo) → get_elem? twelve_by_two.sources k ≡ some s → HasOpened s
name_a-opened zero s at =
    let first : cropped ≡ s = cc in
    subst HasOpened first (0, refl, record { reader = tile_memory; opening = refl; stands = refl })
name_a-opened (suc k) s at = cc

one_open_world-IsReady : IsOneFile one_open_world
one_open_world-IsReady = record {
  entries = a_open;
  holds = one_open-Holds;
  opened = name_a-opened;
  apart = λ s t i a b. only_name s i a ∙ sym (only_name t i b);
  cached = λ key t found. cc;
}

at_coord-elevation_example :
    (w' : World ℤ Memory Entries (Unit {0})) × (at_coord whole_numbers twelve_by_two one_file_env
        (pos 11)
        (pos 1)
        one_open_world
      ≡ (ok (pixel_value 2 1), w'))
    × IsOneFile w'
unfolding contains bounds pixel_of pixel_index corners_from outside find_source in_axis add64 quot_ℤ
    ◌+ℤ◌ ◌-ℤ◌ ◌*ℤ◌
at_coord-elevation_example =
    at_coord-elevation whole_numbers twelve_by_two one_file_env
      (record { concurrency = omega arith; chunk_size = omega arith }) (λ cs. Permᴰ.refl cs)
      image_of (λ s. IsTileFile) HoldsAny (λ s. tile_bytes) (λ s. numbered) (λ s. s)
      image_of-IsNaming image_of-IsStoredIn
      (list_cache-Remembers (IsAnyTile image_of (λ s. numbered))) cropped cropped_x cropped_y
      (pos 11) (pos 1) 11 1 one_open_world one_open_world-IsReady refl refl refl refl

-- (12, 1) lies on the right edge.
get_elevation-rounded_example :
    get_elevation whole_numbers
      (mosaic whole_numbers twelve_by_two one_file_env)
      (pos 1)
      (pos 12)
      one_open_world
    ≡ (ok (internal pixel_outside_error), one_open_world)
unfolding contains bounds pixel_of pixel_index corners_from outside quot_ℤ ◌+ℤ◌ ◌-ℤ◌ ◌*ℤ◌
get_elevation-rounded_example =
    get_elevation-rounded whole_numbers twelve_by_two one_file_env (pos 1) (pos 12) (pos 12) (pos 1)
      one_open_world refl refl refl
