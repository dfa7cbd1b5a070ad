-- ===== src/Cog/Loc.antt =====
-- `loc`, `AtCoord` and `prefetchNeighbors` (geotiff/geotiff.go).
pub mod Index
pub mod Neighbors
pub mod Around
pub mod Pixel
pub mod Coord
use gedtm30api.Base.{
  ℕ, zero, suc, ◌+◌, ◌-◌, ◌*◌, ◌/◌, ◌%◌, Bool, true, false, ◌||◌, ◌&&◌, Option, none, some, List,
  [], ◌∷◌, ◌++◌, length, get_elem?, leb, ltb, ◌==◌, not, if◌then◌else◌,
}
use gedtm30api.Base.Int.{ℤ, pos, negsuc, ◌+ℤ◌, add64, mul64, ltb_ℤ, leb_ℤ}
use gedtm30api.Base.Run.{text, wrap, Run, ok, err, panic, hang, or_error}
use gedtm30api.Base.Io.{Io, ◌>>=◌, ◌>>◌, pure, lift, throw, fail_if, wrap_error}
use gedtm30api.Pixels.{signed32}
use gedtm30api.Geo.Floats.{Floats}
use gedtm30api.Geo.Corners.{Point, Corners, contains, pixel_of}
use gedtm30api.Cog.{GeoTiff, Tile, floats, ints, World, Env}
use gedtm30api.Cog.Open.{bounds, tiles_to_cover}
use gedtm30api.Cog.Tiles.{get_tile_data}

-- `tilesAcross*tileY + tileX`, in int.
pub tile_number : {F : Type 0} → GeoTiff F → ℕ → ℕ → ℤ
tile_number g x y =
    add64 (mul64 (pos g.tiles_across) (pos (y / g.tile_length))) (pos (x / g.tile_width))

pub pixel_index_in_tile : {F : Type 0} → GeoTiff F → ℕ → ℕ → ℕ
pixel_index_in_tile g x y = y % g.tile_length * g.tile_width + x % g.tile_width

-- The range test, on an int.
inside : ℤ → ℕ → Option ℕ
inside (negsuc n) size = none
inside (pos n) size = if ltb n size then some n else none

module _ {F G : Type 0} (fl : Floats F G) (g : GeoTiff F) where
  sample : ℕ → Tile → Run G
  sample index (floats ws) = elim (get_elem? ws index) [
    | some w ↦ ok (fl.float32_from_bits w)
    | none ↦ err (text "pixel index out of tile bounds")
  ]
  sample index (ints ws) = elim (get_elem? ws index) [
    | some w ↦ ok (fl.tenth_of_int32 (signed32 w))
    | none ↦ err (text "pixel index out of tile bounds")
  ]

  module _ {R C : Type 0} (env : Env R C) where
    -- A pixel of the image. Division by a tile size of zero panics.
    loc_inside : ℕ → ℕ → Io (World R C) G
    loc_inside x y w =
        if g.tile_width == 0 || g.tile_length == 0
        then (panic, w)
        else (do
          tile ←
              wrap_error "failed to get data for tile: " (get_tile_data g env (tile_number g x y))
          lift (sample (pixel_index_in_tile g x y) tile))
            w

    -- `loc`; the neighbor prefetch that it may start runs on its own, `prefetch_neighbors`.
    pub loc : ℤ → ℤ → Io (World R C) G
    loc x y w = elim (inside x g.image_width) [
      | none ↦ (err (text "point lies outside image"), w)
      | some i ↦ (elim (inside y g.image_length) [
        | none ↦ (err (text "point lies outside image"), w)
        | some j ↦ loc_inside i j w
      ])
    ]

    -- `AtCoord`
    pub at_coord : F → F → Io (World R C) G
    at_coord lon lat = do
      rect ← lift (bounds fl g)
      let p : Point F = record { lon = lon; lat = lat }
      fail_if (not (contains fl rect p))
          (text "requested point does not fall inside the image bounds ")
      let (x, y) = pixel_of fl rect g.pixel_scale_x g.pixel_scale_y p
      loc x y

-- The steps to the eight neighbors, in the order of the loops.
abbrev neighbor_steps : List (ℤ × ℤ)
neighbor_steps =
    (negsuc 0, negsuc 0)
    ∷ (pos 0, negsuc 0)
    ∷ (pos 1, negsuc 0)
    ∷ (negsuc 0, pos 0)
    ∷ (pos 1, pos 0)
    ∷ (negsuc 0, pos 1)
    ∷ (pos 0, pos 1)
    ∷ (pos 1, pos 1)
    ∷ []

neighbor_at : ℕ → ℕ → ℤ → ℤ → List ℕ
neighbor_at across rows (pos x) (pos y) =
    if ltb x across && ltb y rows then (y * across + x) ∷ [] else []
neighbor_at across rows _ _ = []

-- The neighbor that a step leads to, if it is a tile of a grid of `across` by `rows`.
neighbor : ℕ → ℕ → ℕ → ℕ → ℤ × ℤ → List ℕ
neighbor across rows tile_x tile_y (i, j) =
    neighbor_at across rows (pos tile_x +ℤ i) (pos tile_y +ℤ j)

neighbors_of : ℕ → ℕ → ℕ → ℕ → List (ℤ × ℤ) → List ℕ
neighbors_of across rows tile_x tile_y [] = []
neighbors_of across rows tile_x tile_y (s ∷ steps) =
    neighbor across rows tile_x tile_y s ++ neighbors_of across rows tile_x tile_y steps

-- The numbers of the tiles that `prefetchNeighbors` asks for.
pub neighbors : {F : Type 0} → GeoTiff F → ℕ → List ℕ
neighbors g tile_num =
    if g.tiles_across == 0
    then []
    else neighbors_of g.tiles_across (tiles_to_cover g.image_length g.tile_length)
        (tile_num % g.tiles_across) (tile_num / g.tiles_across) neighbor_steps

module _ {F : Type 0} (g : GeoTiff F) {R C : Type 0} (env : Env R C) where
  -- A call whose result and error are dropped; a panic is not.
  attempt : Run Tile → Run (Unit {0})
  attempt (ok t) = ok tt
  attempt (err e) = ok tt
  attempt panic = panic
  attempt hang = hang

  get_and_drop : ℕ → Io (World R C) (Unit {0})
  get_and_drop n w = let (tile, w') = get_tile_data g env (pos n) w in (attempt tile, w')

  get_all : List ℕ → Io (World R C) (Unit {0})
  get_all [] = pure tt
  get_all (n ∷ ns) = get_and_drop n >>= λ _. get_all ns

  -- `prefetchNeighbors`, one neighbor after the other. The number of rows divides by the tile's
  -- length.
  pub prefetch_neighbors : ℕ → Io (World R C) (Unit {0})
  prefetch_neighbors tile_num w =
      if g.tiles_across == 0
      then (ok tt, w)
      else if g.tile_length == 0
      then (panic, w)
      else get_all (neighbors g tile_num) w
