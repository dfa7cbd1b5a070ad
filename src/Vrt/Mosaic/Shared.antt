-- ===== src/Vrt/Mosaic/Shared.antt =====
-- A mosaic whose sources put their tiles into one cache.
use gedtm30api.Base.{ℕ, ◌*◌, ◌<◌, ◌≡◌, sym, ap, ◌∙◌, true, false, some, List, [], ◌∷◌, ◌++◌, length}
use gedtm30api.Base.Int.{pos, two63}
use gedtm30api.Base.Run.{ok}
use gedtm30api.Source.Parallel.Agreement.{IsSchedule}
use gedtm30api.Source.Parallel.Settings.{IsUsable}
use gedtm30api.Source.Serves.{Serves, IsInside}
use gedtm30api.Geo.Floats.{Floats}
use gedtm30api.Geo.Corners.{Corners, contains, pixel_of}
use gedtm30api.Cog.{GeoTiff, Tile}
use gedtm30api.Cog
use gedtm30api.Cog.Open.{Opened}
use gedtm30api.Cog.Key.{cache_key}
use gedtm30api.Cog.Key.Distinct.{hash, cache_key_inj}
use gedtm30api.Cog.Image.{Image, IsImage}
use gedtm30api.Cog.Tiles.Stored.{IsDecodable, IsStored}
use gedtm30api.Cog.Tiles.Holding.{Remembers, IsTile, Tells}
use gedtm30api.Cog.Loc.Index.{IsGridded, tile_rows}
use gedtm30api.Cog.Loc.Pixel.{elevation_of_word}
use gedtm30api.Cog.Loc.Coord.{IsExact, Reads, at_coord-Reads}
use gedtm30api.Vrt.{Text, SourceInfo, Vrt}
use gedtm30api.Vrt.Mosaic.{World, Env, source_env, bounds, find_source, outside, at_coord}
use gedtm30api.Vrt.Mosaic.Ready.{IsPlaced, pixel_at, IsReady}
use gedtm30api.Vrt.Mosaic.Pixel.{at_coord-value}

-- The name that the files of a mosaic are known by in the cache: names with one path are one file.
pub record IsNaming {F : Type 0} (geo : Text → GeoTiff F) (image : Text → Image)
    (path : Text → Text) : Type 0 where
  pub prefix : (s : Text) → (geo s).cache_key_prefix ≡ path s ++ (hash ∷ [])
  pub one_file : (s t : Text) → path s ≡ path t → (geo s ≡ geo t) × (image s ≡ image t)

-- The value under a key is a tile of each file that has the key.
abbrev pub IsAnyTile : {F : Type 0} → (Text → GeoTiff F) → (Text → Image) → List ℕ → Tile → Type 0
IsAnyTile geo image key t = (s : Text) → IsTile (geo s) (image s) key t

IsAnyTile-Tells :
    {F : Type 0} (geo : Text → GeoTiff F) (image : Text → Image) (path : Text → Text)
    → IsNaming geo image path
    → (s : Text) → Tells (geo s) (image s) (IsAnyTile geo image)
IsAnyTile-Tells geo image path naming s = record {
  sound = λ key t v. v s;
  own = λ n u m same.
      let keys : cache_key (path s ++ (hash ∷ [])) (pos n)
          ≡ cache_key (path u ++ (hash ∷ [])) (pos m) =
        ap (λ p. cache_key p (pos n)) (sym (naming.prefix s))
        ∙ same
        ∙ ap (λ p. cache_key p (pos m)) (naming.prefix u) in
      let (paths, numbers) = cache_key_inj (path s) (path u) n m keys in
      let (geos, images) = naming.one_file s u paths in cc;
}

-- A GeoTIFF whose reader serves a file in which every tile of an image is stored, and whose
-- coordinates lead back to the pixels.
pub record IsStoredIn {F G : Type 0} (fl : Floats F G) (g : GeoTiff F) {R C : Type 0}
    (env : Cog.Env R C) (P : R → Type 0) (file : List ℕ) (image : Image) : Type 0 where
  pub small : length file < two63
  pub serves : Serves env.reader P file (IsInside file)
  pub words : IsImage image
  pub decodable : IsDecodable g
  pub gridded : IsGridded g
  pub stored : (n : ℕ) → n < g.tiles_across * tile_rows g → IsStored g env.inflate file image n
  pub rect : Corners F
  pub exact : IsExact fl g rect

module _ {F G : Type 0} (fl : Floats F G) (v : Vrt F) {R C S : Type 0} (env : Env R C S)
    (usable : IsUsable env.settings) (sched : IsSchedule env.order) (geo : Text → GeoTiff F)
    (P : Text → Opened R → Type 0) (Q : C → Type 0) (file : Text → List ℕ) (image : Text → Image)
    (path : Text → Text) (naming : IsNaming geo image path)
    (files : (s : Text) → IsStoredIn fl (geo s) (source_env env) (P s) (file s) (image s))
    (holds : Remembers env.cache (IsAnyTile geo image) Q) where
  abbrev elevation : Text → ℕ → ℕ → G
  elevation s x y = elevation_of_word fl (geo s) (image s x y)

  files-Reads : (s : Text) → Reads fl (geo s) (source_env env) (P s) Q (elevation s)
  unfolding source_env
  files-Reads s =
      let f = files s in
      at_coord-Reads fl (geo s) (source_env env) (file s) f.small f.serves usable sched (image s)
        f.words f.decodable f.gridded f.stored (IsAnyTile-Tells geo image path naming s) holds
        f.rect f.exact.bounds_are f.exact

  -- A mosaic whose sources are open, each over a reader that serves a file in which every tile of an
  -- image is stored, with one cache for the tiles of all files, and a point inside the bounds that
  -- rounds to a pixel of the mosaic: AtCoord returns the elevation that the image of the first source
  -- over that pixel has at the place where the rectangles of that source put it; the sources stay
  -- open, and the cache holds only tiles under the keys of their files. Coordinates of pixels of a
  -- source are exact.
  pub at_coord-elevation :
      (s : SourceInfo) (placed_x : IsPlaced s.x (geo s.filename).image_width)
      (placed_y : IsPlaced s.y (geo s.filename).image_length) (lon lat : F) (x y : ℕ)
      (w : World F R C S)
      → IsReady fl v env geo P Q elevation w
      → contains fl (bounds fl v) (record { lon = lon; lat = lat }) ≡ true
      → pixel_of fl (bounds fl v) v.pixel_scale_x v.pixel_scale_y (record { lon = lon; lat = lat })
        ≡ (pos x, pos y)
      → outside fl v env (pos x) (pos y) ≡ false
      → find_source v.sources (pos x) (pos y) ≡ some s
      → (w' : World F R C S) × (at_coord fl v env lon lat w
          ≡ (ok (elevation s.filename (pixel_at placed_x x) (pixel_at placed_y y)), w'))
        × IsReady fl v env geo P Q elevation w'
  at_coord-elevation s placed_x placed_y =
      at_coord-value fl v env geo P Q elevation s
        (record { x = placed_x; y = placed_y; reads = files-Reads s.filename })
