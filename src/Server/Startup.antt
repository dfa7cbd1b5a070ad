-- ===== src/Server/Startup.antt =====
-- The start of the program (main.go): the settings that `main` makes, and what `setupTIFFReader` opens.
pub mod Source
use gedtm30api.Base.{ℕ, ◌*◌, Bool, Option, List, [], String}
use gedtm30api.Base.Int.{ℤ, pos}
use gedtm30api.Base.Run.{Run, ok, err, panic, hang}
use gedtm30api.Base.Io.{Io, ◌>>=◌, pure, lift, wrap_error}
use gedtm30api.Source.Reader.{Reader}
use gedtm30api.Source.Parallel.{
  FetchSettings, Chunk, default_settings, set_tile_fetch_concurrency, set_tile_fetch_chunk_size,
}
use gedtm30api.Source.Prefix.{set_header_prefetch_size}
use gedtm30api.Geo.Floats.{Floats}
use gedtm30api.Cog.{GeoTiff}
use gedtm30api.Cog.Open.{Opened, open_with_cache}
use gedtm30api.Vrt.{Text, Vrt}
use gedtm30api.Vrt.Handles.{Handles, new_handles}
use gedtm30api.Vrt.Parse.{VrtXml, open_vrt, max_sources_of, set_base_url, set_prefetch_enabled}
use gedtm30api.Server.Choice.{
  Config, Setup, blob_cog, blob_vrt, http_cog, http_vrt, local_cog, local_vrt, choose,
}

-- The settings of package geotiff.
pub record Settings : Type 0 where
  pub fetch : FetchSettings
  pub header_prefetch_size : ℤ

abbrev pub initial_settings : Settings
initial_settings = record { fetch = default_settings; header_prefetch_size = pos (64 * 1024) }

-- The three setters that `main` calls.
pub configure : Config → Settings → Settings
configure cfg s = record {
  fetch =
      set_tile_fetch_chunk_size cfg.tile_fetch_chunk_size
        (set_tile_fetch_concurrency cfg.tile_fetch_concurrency s.fetch);
  header_prefetch_size = set_header_prefetch_size cfg.header_prefetch_size s.header_prefetch_size;
}

-- The buckets, servers and files, the XML decoder, ParseFloat, and the cache.
pub record Outside (F R S B C : Type 0) : Type 0 where
  pub open_bucket : Text → Io S B
  pub blob_reader : B → Text → Io S R
  pub http_reader : Text → Io S R
  pub open_file : Text → Io S R
  pub decode_xml : R → Io S (VrtXml F)
  pub parse_float : Text → Option F
  pub new_cache : ℤ → ℕ → C

-- The raster that the handlers are given.
pub data Raster (F R S C : Type 0) : Type 0 where
  cog : GeoTiff F → Opened R → C → Raster F R S C
  mosaic : Vrt F → Handles ℕ → (Text → Io S R) → C → Raster F R S C

module _ {F G R S B C : Type 0} (fl : Floats F G) (out : Outside F R S B C) (r : Reader R)
    (order : List Chunk → List Chunk) (cfg : Config) where
  abbrev cache : C
  cache = out.new_cache cfg.cache_max_size cfg.cache_prune_percent

  abbrev settings : Settings
  settings = configure cfg initial_settings

  unfoldable pub opened_cog : Run (GeoTiff F) × Opened R → Io S (Raster F R S C)
  opened_cog (ok g, o) s =
      (ok (cog (record g { prefetch_enabled = cfg.prefetch_neighbors }) o cache), s)
  opened_cog (err e, o) s = (err e, s)
  opened_cog (panic, o) s = (panic, s)
  opened_cog (hang, o) s = (hang, s)

  -- `geotiff.Open` and SetPrefetchEnabled, the end of setupTIFFReader.
  unfoldable pub open_cog : R → Io S (Raster F R S C)
  open_cog raw =
      opened_cog (open_with_cache settings.fetch order r fl settings.header_prefetch_size [] raw)

  -- What the three functions for a mosaic share: OpenVRT, SetBaseURL and SetPrefetchEnabled.
  unfoldable pub setup_vrt : String → Io S R → (Text → Io S R) → Text → Io S (Raster F R S C)
  setup_vrt message make factory base_url = do
    raw ← wrap_error message make
    xml ← wrap_error "failed to parse VRT XML: " (out.decode_xml raw)
    v ← lift (open_vrt fl out.parse_float xml)
    pure (
        mosaic (set_prefetch_enabled cfg.prefetch_neighbors (set_base_url base_url v))
          (new_handles (max_sources_of cfg.cache_max_open_sources)) factory cache)

  -- `setupBlobVRTReader`
  unfoldable pub setup_blob_vrt_reader : B → Text → Io S (Raster F R S C)
  setup_blob_vrt_reader bucket key =
      setup_vrt "failed to create blob reader for VRT: " (out.blob_reader bucket key)
        (out.blob_reader bucket) key

  -- `setupHTTPVRTReader`
  unfoldable pub setup_http_vrt_reader : Text → Io S (Raster F R S C)
  setup_http_vrt_reader url =
      setup_vrt "failed to create HTTP reader for VRT: " (out.http_reader url) out.http_reader url

  -- `setupLocalVRTReader`
  unfoldable pub setup_local_vrt_reader : Text → Io S (Raster F R S C)
  setup_local_vrt_reader path =
      setup_vrt "failed to open local VRT file: " (out.open_file path) out.open_file path

  unfoldable pub set_up : Setup → Io S (Raster F R S C)
  set_up (blob_cog uri key) = do
    bucket ← wrap_error "failed to open bucket: " (out.open_bucket uri)
    raw ← wrap_error "failed to create blob reader for key: " (out.blob_reader bucket key)
    open_cog raw
  set_up (blob_vrt uri key) = do
    bucket ← wrap_error "failed to open bucket: " (out.open_bucket uri)
    setup_blob_vrt_reader bucket key
  set_up (http_cog url) = do
    raw ← wrap_error "failed to create HTTP reader for COG: " (out.http_reader url)
    open_cog raw
  set_up (http_vrt url) = setup_http_vrt_reader url
  set_up (local_cog path) = do
    raw ← wrap_error "failed to open local COG file: " (out.open_file path)
    open_cog raw
  set_up (local_vrt path) = setup_local_vrt_reader path

  -- `setupTIFFReader`
  unfoldable pub setup_tiff_reader : Io S (Raster F R S C)
  setup_tiff_reader = set_up (choose cfg)
