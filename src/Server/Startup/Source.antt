-- ===== src/Server/Startup/Source.antt =====
-- What the configuration makes of the settings and of the source.
use gedtm30api.Base.{subst, String, ◌≡◌, refl, Bool, true, false, ◌&&◌, List, if◌then◌else◌, arith}
use gedtm30api.Base.Int.{ℤ, pos, leb_ℤ}
use gedtm30api.Base.Run.{Run, ok, err, panic, hang}
use gedtm30api.Base.Io
use gedtm30api.Base.Io.{Io, ◌>>=◌}
use gedtm30api.Source.Reader.{Reader}
use gedtm30api.Source.Parallel.{Chunk}
use gedtm30api.Source.Parallel.Settings.{
  IsUsable, set_tile_fetch_concurrency-IsUsable, set_tile_fetch_chunk_size-IsUsable,
}
use gedtm30api.Source.Prefix.{set_header_prefetch_size}
use gedtm30api.Geo.Floats.{Floats}
use gedtm30api.Cog.{GeoTiff}
use gedtm30api.Cog.Open.{Opened}
use gedtm30api.Vrt.{Text}
use gedtm30api.Vrt.Parse.{max_sources_of, set_base_url, set_prefetch_enabled, open_vrt}
use gedtm30api.Vrt.Handles.{new_handles}
use gedtm30api.Server.Choice.{
  Config, Setup, blob_cog, blob_vrt, http_cog, http_vrt, local_cog, local_vrt, choose, has_suffix,
  is_set, vrt_suffix,
}
use gedtm30api.Server.Startup.{
  initial_settings, configure, Outside, Raster, cog, mosaic, opened_cog, open_cog, setup_vrt,
  setup_blob_vrt_reader, setup_http_vrt_reader, setup_local_vrt_reader, set_up, setup_tiff_reader,
}

set_header_prefetch_size-leb :
    (n setting : ℤ)
    → leb_ℤ (pos 1) setting ≡ true
    → leb_ℤ (pos 1) (set_header_prefetch_size n setting) ≡ true
unfolding set_header_prefetch_size
set_header_prefetch_size-leb n setting h = ground arith

-- Whatever the environment says, also zero and negative numbers: after the setters that main calls,
-- package geotiff has at least one request at a time, at least one byte per chunk and at least one
-- byte of header prefetch.
pub configure-IsUsable :
    (cfg : Config)
    → IsUsable (configure cfg initial_settings).fetch
      × (leb_ℤ (pos 1) (configure cfg initial_settings).header_prefetch_size ≡ true)
unfolding configure
configure-IsUsable cfg = (
  set_tile_fetch_chunk_size-IsUsable cfg.tile_fetch_chunk_size _ (
      set_tile_fetch_concurrency-IsUsable cfg.tile_fetch_concurrency initial_settings.fetch
        (record { concurrency = omega arith; chunk_size = omega arith })),
  set_header_prefetch_size-leb cfg.header_prefetch_size initial_settings.header_prefetch_size refl,
)

-- The name of the source: the key in a bucket, where both are set, else the URL or the path.
abbrev pub source_name : Config → Text
source_name cfg =
    if is_set cfg.bucket_uri && is_set cfg.object_key then cfg.object_key else cfg.cog_source

abbrev name_of : Setup → Text
name_of (blob_cog uri key) = key
name_of (blob_vrt uri key) = key
name_of (http_cog url) = url
name_of (http_vrt url) = url
name_of (local_cog path) = path
name_of (local_vrt path) = path

abbrev is_vrt : Setup → Bool
is_vrt (blob_cog uri key) = false
is_vrt (blob_vrt uri key) = true
is_vrt (http_cog url) = false
is_vrt (http_vrt url) = true
is_vrt (local_cog path) = false
is_vrt (local_vrt path) = true

choose-source_name : (cfg : Config) → name_of (choose cfg) ≡ source_name cfg
unfolding choose
choose-source_name cfg = ground arith

choose-is_vrt : (cfg : Config) → is_vrt (choose cfg) ≡ has_suffix (source_name cfg) vrt_suffix
unfolding choose
choose-is_vrt cfg = ground arith

-- What holds of every value that a call returns.
abbrev Ensures : {S A : Type 0} → (A → Type 0) → Io S A → Type 0
Ensures {S} {A} Q m = (s s' : S) (a : A) → m s ≡ (ok a, s') → Q a

pure-value : {S A : Type 0} → {a b : A} → {s s' : S} → Io.pure a s ≡ (ok b, s') → a ≡ b
pure-value e = cc

continue-Ensures :
    {S A B : Type 0} (Q : B → Type 0) (r : Run A) (k : A → Io S B) (s s' : S) (b : B)
    → ((a : A) → Ensures Q (k a))
    → Io.continue r k s ≡ (ok b, s')
    → Q b
continue-Ensures Q (ok a) k s s' b h e = h a s s' b e
continue-Ensures Q (err x) k s s' b h e = cc
continue-Ensures Q panic k s s' b h e = cc
continue-Ensures Q hang k s s' b h e = cc

>>=-Ensures :
    {S A B : Type 0} (Q : B → Type 0) (m : Io S A) (k : A → Io S B)
    → ((a : A) → Ensures Q (k a))
    → Ensures Q (m >>= k)
>>=-Ensures Q m k h s s' b e = continue-Ensures Q (m s).0 k (m s).1 s' b h e

module _ {F G R S B C : Type 0} (fl : Floats F G) (out : Outside F R S B C) (r : Reader R)
    (order : List Chunk → List Chunk) (cfg : Config) where
  -- The raster is a mosaic or a GeoTIFF, by the name of the source; it prefetches neighbors as
  -- configured; a mosaic resolves its sources against the name, and keeps the configured number of
  -- them open.
  abbrev pub IsRaster : Bool → Text → Raster F R S C → Type 0
  IsRaster is_mosaic name (cog g o c) =
      (is_mosaic ≡ false)
      × (g.prefetch_enabled ≡ cfg.prefetch_neighbors)
      × (c ≡ out.new_cache cfg.cache_max_size cfg.cache_prune_percent)
  IsRaster is_mosaic name (mosaic v h factory c) =
      (is_mosaic ≡ true)
      × (v.prefetch_enabled ≡ cfg.prefetch_neighbors)
      × (v.base_url ≡ name)
      × (h ≡ new_handles (max_sources_of cfg.cache_max_open_sources))
      × (c ≡ out.new_cache cfg.cache_max_size cfg.cache_prune_percent)

  opened_cog-Ensures :
      (name : Text) (o : Run (GeoTiff F) × Opened R)
      → Ensures (IsRaster false name) (opened_cog fl out r order cfg o)
  unfolding opened_cog
  opened_cog-Ensures name (ok g, o) s s' raster e =
      subst (IsRaster false name) (pure-value e) (refl, refl, refl)
  opened_cog-Ensures name (err x, o) s s' raster e = cc
  opened_cog-Ensures name (panic, o) s s' raster e = cc
  opened_cog-Ensures name (hang, o) s s' raster e = cc

  open_cog-Ensures :
      (name : Text) (raw : R) → Ensures (IsRaster false name) (open_cog fl out r order cfg raw)
  unfolding open_cog
  open_cog-Ensures name raw = opened_cog-Ensures name _

  setup_vrt-Ensures :
      (message : String) (make : Io S R) (factory : Text → Io S R) (name : Text)
      → Ensures (IsRaster true name) (setup_vrt fl out r order cfg message make factory name)
  unfolding setup_vrt set_base_url set_prefetch_enabled
  setup_vrt-Ensures message make factory name = >>=-Ensures _ (Io.wrap_error message make) _ (λ raw.
      >>=-Ensures _ (Io.wrap_error "failed to parse VRT XML: " (out.decode_xml raw)) _ (λ xml.
        >>=-Ensures _ (Io.lift (open_vrt fl out.parse_float xml)) _ (λ v s s' raster e.
          subst (IsRaster true name) (pure-value e) (refl, refl, refl, refl, refl))))

  set_up-Ensures :
      (u : Setup) → Ensures (IsRaster (is_vrt u) (name_of u)) (set_up fl out r order cfg u)
  unfolding set_up setup_blob_vrt_reader setup_http_vrt_reader setup_local_vrt_reader
  set_up-Ensures (blob_cog uri key) =
      >>=-Ensures _ (Io.wrap_error "failed to open bucket: " (out.open_bucket uri)) _ (λ bucket.
        >>=-Ensures _
          (Io.wrap_error "failed to create blob reader for key: " (out.blob_reader bucket key)) _
          (λ raw. open_cog-Ensures key raw))
  set_up-Ensures (blob_vrt uri key) =
      >>=-Ensures _ (Io.wrap_error "failed to open bucket: " (out.open_bucket uri)) _
        (λ bucket. setup_vrt-Ensures _ _ _ key)
  set_up-Ensures (http_cog url) =
      >>=-Ensures _ (Io.wrap_error "failed to create HTTP reader for COG: " (out.http_reader url)) _
        (λ raw. open_cog-Ensures url raw)
  set_up-Ensures (http_vrt url) = setup_vrt-Ensures _ _ _ url
  set_up-Ensures (local_cog path) =
      >>=-Ensures _ (Io.wrap_error "failed to open local COG file: " (out.open_file path)) _
        (λ raw. open_cog-Ensures path raw)
  set_up-Ensures (local_vrt path) = setup_vrt-Ensures _ _ _ path

  -- Every raster that setupTIFFReader returns: it is a mosaic exactly where the name of the source
  -- (the key in the bucket where both are configured, else COG_SOURCE) ends in ".vrt"; it prefetches
  -- neighbors as configured and has the cache of the configured size; and a mosaic resolves its
  -- sources against that name and may keep the configured number of them open.
  pub setup_tiff_reader-IsRaster :
      (s s' : S) (raster : Raster F R S C)
      → setup_tiff_reader fl out r order cfg s ≡ (ok raster, s')
      → IsRaster (has_suffix (source_name cfg) vrt_suffix) (source_name cfg) raster
  unfolding setup_tiff_reader
  setup_tiff_reader-IsRaster s s' raster e =
      subst (λ b. IsRaster b (source_name cfg) raster) (choose-is_vrt cfg)
        (subst (λ name. IsRaster (is_vrt (choose cfg)) name raster) (choose-source_name cfg)
          (set_up-Ensures (choose cfg) s s' raster e))
