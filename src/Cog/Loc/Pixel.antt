-- ===== src/Cog/Loc/Pixel.antt =====
-- `loc` reads the image that the file stores.
use gedtm30api.Base.{
  ℕ, ◌*◌, ◌<◌, ◌≡◌, ap₂, ◌∙◌, inl, inr, some, List, length, get_elem?, ◌==◌, if◌then◌else◌, arith,
  lt→ltb, ne→==, Bool-cases,
}
use gedtm30api.Base.Int.{pos, two63}
use gedtm30api.Base.Run.{ok}
use gedtm30api.Source.Parallel.Agreement.{IsSchedule}
use gedtm30api.Source.Parallel.Settings.{IsUsable}
use gedtm30api.Source.Serves.{Serves, IsInside}
use gedtm30api.Pixels.{signed32}
use gedtm30api.Geo.Floats.{Floats}
use gedtm30api.Cog.{GeoTiff, Tile, World, Env}
use gedtm30api.Cog.Open.{sample_format_float}
use gedtm30api.Cog.Image.{Image, IsImage, tile_words, get_elem?-tile_words}
use gedtm30api.Cog.Tiles.Stored.{samples, IsDecodable, IsStored}
use gedtm30api.Cog.Tiles.Holding.{Remembers, IsTile, Tells, IsTile-Tells, get_tile_data-tile_words}
use gedtm30api.Cog.Loc.{pixel_index_in_tile, inside, sample, loc_inside, loc}
use gedtm30api.Cog.Loc.Index.{IsGridded, tile_rows, loc_address}

module _ {F G : Type 0} (fl : Floats F G) (g : GeoTiff F) where
  -- The elevation that a word of the image stands for: a float, or tenths as an integer.
  abbrev pub elevation_of_word : ℕ → G
  elevation_of_word w =
      if g.sample_format == sample_format_float
      then fl.float32_from_bits w
      else fl.tenth_of_int32 (signed32 w)

  sample-samples :
      (ws : List ℕ) (i w : ℕ)
      → get_elem? ws i ≡ some w
      → sample fl g i (samples g ws) ≡ ok (elevation_of_word w)
  unfolding sample samples
  sample-samples ws i w at = elim (Bool-cases (g.sample_format == sample_format_float)) [
    | inl float ↦ rw (float, sample, at)
    | inr int ↦ rw (int, sample, at)
  ]

  module _ {R C : Type 0} (env : Env R C) {P : R → Type 0} {Q : C → Type 0} (file : List ℕ)
      (small : length file < two63) (serves : Serves env.reader P file (IsInside file))
      (usable : IsUsable env.settings) (sched : IsSchedule env.order) (image : Image)
      (words : IsImage image) (h : IsDecodable g) (grid : IsGridded g)
      (stored : (n : ℕ) → n < g.tiles_across * tile_rows g → IsStored g env.inflate file image n)
      {V : List ℕ → Tile → Type 0} (tells : Tells g image V) (holds : Remembers env.cache V Q) where
    -- The cache may hold tiles of other files too.
    pub loc-shared_image :
        (x y : ℕ) (w : World R C)
        → x < g.image_width
        → y < g.image_length
        → P w.reader
        → Q w.cache
        → (w' : World R C) × (loc fl g env (pos x) (pos y) w
            ≡ (ok (elevation_of_word (image x y)), w'))
          × P w'.reader
          × Q w'.cache
    unfolding loc inside loc_inside
    loc-shared_image x y w in_width in_length p q =
        let (n, number, below, index, x_back, y_back) = loc_address g grid x y in_width in_length in
        let (w', run, p', q') =
          get_tile_data-tile_words g env file small serves usable sched image words h tells holds n
            w p q (stored n below) in
        let i = pixel_index_in_tile g x y in
        let at : get_elem? (tile_words g image n) i ≡ some (image x y) =
          get_elem?-tile_words g image n i index ∙ ap₂ (λ a b. some (image a b)) x_back y_back in
        (
          w',
          rw (
            loc,
            inside,
            lt→ltb x g.image_width in_width,
            lt→ltb y g.image_length in_length,
            ne→== g.tile_width 0 (omega (arith, grid.tile_width)),
            ne→== g.tile_length 0 (omega (arith, grid.tile_length)),
            number,
            run,
            sample-samples (tile_words g image n) i (image x y) at,
          ),
          p',
          q',
        )

  module _ {R C : Type 0} (env : Env R C) {P : R → Type 0} {Q : C → Type 0} (file : List ℕ)
      (small : length file < two63) (serves : Serves env.reader P file (IsInside file))
      (usable : IsUsable env.settings) (sched : IsSchedule env.order) (image : Image)
      (words : IsImage image) (h : IsDecodable g) (grid : IsGridded g)
      (stored : (n : ℕ) → n < g.tiles_across * tile_rows g → IsStored g env.inflate file image n)
      (holds : Remembers env.cache (IsTile g image) Q) where
    -- Over a reader that serves a file in which every tile of an image is stored, with or without
    -- the horizontal predictor, uncompressed or in a form that the decompressor undoes, and a cache
    -- that returns only what was put into it: loc of a pixel of the image returns the elevation of
    -- exactly that pixel, whether the tile was in the cache or is read, and the cache still holds
    -- only tiles of the image.
    pub loc-image :
        (x y : ℕ) (w : World R C)
        → x < g.image_width
        → y < g.image_length
        → P w.reader
        → Q w.cache
        → (w' : World R C) × (loc fl g env (pos x) (pos y) w
            ≡ (ok (elevation_of_word (image x y)), w'))
          × P w'.reader
          × Q w'.cache
    loc-image =
        loc-shared_image env file small serves usable sched image words h grid stored
          (IsTile-Tells g image) holds
