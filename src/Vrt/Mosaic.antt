-- ===== src/Vrt/Mosaic.antt =====
-- Reading a pixel of a mosaic through its sources: `Bounds`, `AtCoord`, `loc`, `findSource` and
-- `getSourceGeo` (geotiff/vrt.go).
pub mod Sources
pub mod Outside
pub mod Reuse
pub mod Opens
pub mod Ready
pub mod Pixel
pub mod Shared
use gedtm30api.Base.{
  ℕ, zero, suc, ◌+◌, Bool, true, false, ◌||◌, ◌&&◌, not, Option, none, some, List, [], ◌∷◌, ◌++◌,
  length, get_elem?, set, if◌then◌else◌,
}
use gedtm30api.Base.Int.{ℤ, pos, add64, sub64, mul64, quot_ℤ, wrap64, ltb_ℤ, leb_ℤ, eqb_ℤ}
use gedtm30api.Base.Run.{text, wrap, Run, ok, err, panic, hang, or_error, or_panic, panic_if}
use gedtm30api.Base.Io.{Io, ◌>>=◌, ◌>>◌, pure, lift, throw, fail_if, wrap_error}
use gedtm30api.Source.Reader.{Reader}
use gedtm30api.Source.Parallel.{FetchSettings, Chunk}
use gedtm30api.Geo.Floats.{Floats}
use gedtm30api.Geo.Corners.{Point, Corners, contains, corners_from, pixel_of, pixel_to_coord}
use gedtm30api.Cog.{GeoTiff, TileCache}
use gedtm30api.Cog
use gedtm30api.Cog.Open.{Opened, opened_reader, open_with_cache}
use gedtm30api.Cog.Open
use gedtm30api.Cog.Loc
use gedtm30api.Vrt.{Text, Axis, SourceInfo, Vrt}
use gedtm30api.Vrt.Text.{same}
use gedtm30api.Vrt.Filename.{resolve_vrt_filename}
use gedtm30api.Vrt.Handles.{Handles, lru_get, lru_put}

-- Whether a pixel of the mosaic lies in the part that a source fills, in one axis.
unfoldable pub in_axis : Axis → ℤ → Bool
in_axis a v = leb_ℤ a.dst_off v && ltb_ℤ v (add64 a.dst_off a.dst_size)

-- `findSource`
unfoldable pub find_source : List SourceInfo → ℤ → ℤ → Option SourceInfo
find_source [] x y = none
find_source (s ∷ sources) x y =
    if in_axis s.x x && in_axis s.y y then some s else find_source sources x y

-- `findSourceByFilename`
pub find_source_by_filename : List SourceInfo → Text → Option SourceInfo
find_source_by_filename [] filename = none
find_source_by_filename (s ∷ sources) filename =
    if same s.filename filename then some s else find_source_by_filename sources filename

-- `/` on ints.
div64 : ℤ → ℤ → Run ℤ
div64 a b = if eqb_ℤ b (pos 0) then panic else ok (wrap64 (quot_ℤ a b))

offset_by : ℤ → Run ℤ → Run ℤ
offset_by off (ok q) = ok (add64 off q)
offset_by off r = r

-- The pixel of the source: `SrcXOff + (x-DstXOff)*SrcXSize/DstXSize`.
pub source_pixel : Axis → ℤ → Run ℤ
source_pixel a v = offset_by a.src_off (div64 (mul64 (sub64 v a.dst_off) a.src_size) a.dst_size)

-- A GeoTIFF that was opened, with the state of its reader.
pub record Opening (F R : Type 0) : Type 0 where
  pub geo : GeoTiff F
  pub reader : Opened R

-- The handles (which hold addresses in `openings`), all GeoTIFFs that were opened, the tile cache that they
-- share, and the state behind the reader factory.
pub record World (F R C S : Type 0) : Type 0 where
  pub handles : Handles ℕ
  pub openings : List (Opening F R)
  pub cache : C
  pub factory : S

-- `decode_lzw` is libtiff's reading of one tile.
pub record Env (R C S : Type 0) : Type 0 where
  pub reader_factory : Text → Io S R
  pub reader : Reader R
  pub cache : TileCache C
  pub settings : FetchSettings
  pub order : List Chunk → List Chunk
  pub inflate : List ℕ → Run (List ℕ)
  pub decode_lzw : ℤ → Io (Opened R) (List ℕ)
  pub prefetch_size : ℤ

-- What a source's GeoTIFF reads with.
unfoldable pub source_env : {R C S : Type 0} → Env R C S → Cog.Env (Opened R) C
source_env env = record {
  reader = opened_reader env.reader;
  cache = env.cache;
  settings = env.settings;
  order = env.order;
  inflate = env.inflate;
  decode_lzw = env.decode_lzw;
}

module _ {F G : Type 0} (fl : Floats F G) (v : Vrt F) where
  unfoldable pub bounds : Corners F
  bounds =
      corners_from fl v.origin_x v.origin_y v.image_width v.image_length v.pixel_scale_x
        v.pixel_scale_y

  module _ {R C S : Type 0} (env : Env R C S) where
    abbrev W : Type 0
    W = World F R C S

    on_handles : {A : Type 0} → Io (Handles ℕ) A → Io W A
    on_handles m w = let (r, h) = m w.handles in (r, record w { handles = h })

    on_factory : {A : Type 0} → Io S A → Io W A
    on_factory m w = let (r, s) = m w.factory in (r, record w { factory = s })

    resolved_by : Text → Option SourceInfo → Text
    resolved_by filename none = filename
    resolved_by filename (some s) = elim v.base_url [
      | [] ↦ filename
      | b ∷ url ↦ resolve_vrt_filename (b ∷ url) filename s.relative
    ]

    pub resolved : Text → Text
    resolved filename = resolved_by filename (find_source_by_filename v.sources filename)

    -- The GeoTIFF gets the next address.
    allocate : Run (GeoTiff F) × Opened R → Io W ℕ
    allocate (ok geo, reader) w = (
      ok (length w.openings),
      record w {
        openings =
            w.openings
            ++ (record {
              geo = record geo { prefetch_enabled = v.prefetch_enabled };
              reader = reader;
            }
                ∷ []);
      },
    )
    allocate (err e, reader) w = (err e, w)
    allocate (panic, reader) w = (panic, w)
    allocate (hang, reader) w = (hang, w)

    open_source : Text → Io W ℕ
    open_source filename = do
      raw ←
          wrap_error "failed to create reader for source: "
            (on_factory (env.reader_factory (resolved filename)))
      geo ← wrap_error "failed to open source GeoTIFF: " (
          allocate (
            open_with_cache env.settings env.order env.reader fl env.prefetch_size
              (resolved filename ++ (b'#' ∷ [])) raw))
      on_handles (lru_put filename geo)
      pure geo

    found_or_open : Text → Option ℕ → Io W ℕ
    found_or_open filename (some geo) = pure geo
    found_or_open filename none = open_source filename

    -- `getSourceGeo`, called by one goroutine: the second lookup, in the flight, finds what the first
    -- one did.
    pub get_source_geo : Text → Io W ℕ
    get_source_geo filename = do
      first ← on_handles (lru_get filename)
      elim first [
        | some geo ↦ pure geo
        | none ↦ (do second ← on_handles (lru_get filename); found_or_open filename second)
      ]

    -- A call on an opened GeoTIFF, which may change its reader and the tile cache.
    put_back : {A : Type 0} → ℕ → GeoTiff F → Run A × Cog.World (Opened R) C → Io W A
    put_back i geo (r, cw) w = (
      r,
      record w {
        openings = set w.openings i (record { geo = geo; reader = cw.reader });
        cache = cw.cache;
      },
    )

    opening : ℕ → Io W (Opening F R)
    opening i w = (or_panic (get_elem? w.openings i), w)

    source_at_coord : ℕ → Opening F R → F → F → Io W G
    source_at_coord i o lon lat w =
        put_back i o.geo
          (Cog.Loc.at_coord fl o.geo (source_env env) lon lat
            (record { reader = o.reader; cache = w.cache }))
          w

    -- `loc`
    read_source : SourceInfo → ℤ → ℤ → Io W G
    read_source s x y = do
      sx ← lift (source_pixel s.x x)
      sy ← lift (source_pixel s.y y)
      i ← get_source_geo s.filename
      o ← opening i
      rect ← lift (Cog.Open.bounds fl o.geo)
      let p = pixel_to_coord fl rect o.geo.pixel_scale_x o.geo.pixel_scale_y sx sy
      source_at_coord i o p.lon p.lat

    unfoldable pub outside : ℤ → ℤ → Bool
    outside x y =
        ltb_ℤ x (pos 0) || leb_ℤ v.image_width x || ltb_ℤ y (pos 0) || leb_ℤ v.image_length y

    pub loc : ℤ → ℤ → Io W G
    loc x y = do
      fail_if (outside x y) (text "point lies outside image")
      s ← lift (or_error (find_source v.sources x y) (text "no source covers pixel"))
      read_source s x y

    -- `AtCoord`
    pub at_coord : F → F → Io W G
    at_coord lon lat = do
      let p : Point F = record { lon = lon; lat = lat }
      fail_if (not (contains fl bounds p))
          (text "requested point does not fall inside the image bounds ")
      let (x, y) = pixel_of fl bounds v.pixel_scale_x v.pixel_scale_y p
      loc x y
