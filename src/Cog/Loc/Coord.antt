-- ===== src/Cog/Loc/Coord.antt =====
-- `AtCoord` reads the image that the file stores.
use gedtm30api.Base.{ℕ, ◌*◌, ◌<◌, ◌≡◌, true, List, length}
use gedtm30api.Base.Int.{pos, two63}
use gedtm30api.Base.Run.{ok}
use gedtm30api.Source.Parallel.Agreement.{IsSchedule}
use gedtm30api.Source.Parallel.Settings.{IsUsable}
use gedtm30api.Source.Serves.{Serves, IsInside}
use gedtm30api.Geo.Floats.{Floats}
use gedtm30api.Geo.Corners.{Point, Corners, contains, pixel_of, pixel_to_coord}
use gedtm30api.Cog.{GeoTiff, Tile, World, Env}
use gedtm30api.Cog.Open.{bounds}
use gedtm30api.Cog.Image.{Image, IsImage}
use gedtm30api.Cog.Tiles.Stored.{IsDecodable, IsStored}
use gedtm30api.Cog.Tiles.Holding.{Remembers, Tells}
use gedtm30api.Cog.Loc.{at_coord}
use gedtm30api.Cog.Loc.Index.{IsGridded, tile_rows}
use gedtm30api.Cog.Loc.Pixel.{elevation_of_word, loc-shared_image}

module _ {F G : Type 0} (fl : Floats F G) (g : GeoTiff F) where
  -- The point lies inside the bounds, and rounds to the pixel.
  pub record IsOnPixel (rect : Corners F) (p : Point F) (x y : ℕ) : Type 0 where
    pub inside : contains fl rect p ≡ true
    pub pixel : pixel_of fl rect g.pixel_scale_x g.pixel_scale_y p ≡ (pos x, pos y)

  -- The coordinate of every pixel of the image leads back to the pixel.
  pub record IsExact (rect : Corners F) : Type 0 where
    pub bounds_are : bounds fl g ≡ ok rect
    pub exact :
        (x y : ℕ)
        → x < g.image_width
        → y < g.image_length
        → IsOnPixel rect
            (pixel_to_coord fl rect g.pixel_scale_x g.pixel_scale_y (pos x) (pos y))
            x
            y

  -- What a client of AtCoord relies on: at the coordinate of each pixel it returns the value of the
  -- pixel, and what holds of the reader and of the cache goes on holding.
  pub record Reads {R C : Type 0} (env : Env R C) (P : R → Type 0) (Q : C → Type 0)
      (value : ℕ → ℕ → G) : Type 0 where
    pub rect : Corners F
    pub exact : IsExact rect
    pub reads :
        (p : Point F) (x y : ℕ) (w : World R C)
        → x < g.image_width
        → y < g.image_length
        → IsOnPixel rect p x y
        → P w.reader
        → Q w.cache
        → (w' : World R C) × (at_coord fl g env p.lon p.lat w ≡ (ok (value x y), w'))
          × P w'.reader
          × Q w'.cache

  module _ {R C : Type 0} (env : Env R C) {P : R → Type 0} {Q : C → Type 0} (file : List ℕ)
      (small : length file < two63) (serves : Serves env.reader P file (IsInside file))
      (usable : IsUsable env.settings) (sched : IsSchedule env.order) (image : Image)
      (words : IsImage image) (h : IsDecodable g) (grid : IsGridded g)
      (stored : (n : ℕ) → n < g.tiles_across * tile_rows g → IsStored g env.inflate file image n)
      {V : List ℕ → Tile → Type 0} (tells : Tells g image V) (holds : Remembers env.cache V Q)
      (rect : Corners F) (bounds_are : bounds fl g ≡ ok rect) where
    -- Over a reader that serves a file in which every tile of an image is stored, and a cache that
    -- returns only what was put into it: AtCoord of a point that lies inside the bounds and rounds to
    -- a pixel of the image returns the elevation of that pixel. The cache may hold the tiles of other
    -- files too, and still holds only such tiles.
    pub at_coord-image :
        (p : Point F) (x y : ℕ) (w : World R C)
        → x < g.image_width
        → y < g.image_length
        → IsOnPixel rect p x y
        → P w.reader
        → Q w.cache
        → (w' : World R C) × (at_coord fl g env p.lon p.lat w
            ≡ (ok (elevation_of_word fl g (image x y)), w'))
          × P w'.reader
          × Q w'.cache
    unfolding at_coord
    at_coord-image p x y w in_width in_length on r q =
        let (w', run, r', q') =
          loc-shared_image fl g env file small serves usable sched image words h grid stored tells
            holds x y w in_width in_length r q in
        (w', rw (bounds_are, on.inside, on.pixel, run), r', q')

    pub at_coord-Reads : IsExact rect → Reads env P Q (λ x y. elevation_of_word fl g (image x y))
    at_coord-Reads exact = record { rect = rect; exact = exact; reads = at_coord-image }
