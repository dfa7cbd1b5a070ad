-- ===== src/Server/Choice.antt =====
-- `setupTIFFReader` (main.go): what is opened for a configuration.
use gedtm30api.Base.{ℕ, Bool, true, false, ◌||◌, ◌&&◌, [], ◌∷◌, if◌then◌else◌}
use gedtm30api.Base.Int.{ℤ}
use gedtm30api.Vrt.{Text}
use gedtm30api.Vrt.Text.{has_prefix}

-- `Config`, less the ports.
pub record Config : Type 0 where
  pub log_level : Text
  pub cog_source : Text
  pub bucket_uri : Text
  pub object_key : Text
  pub cache_max_size : ℤ
  pub cache_prune_percent : ℕ
  pub cache_max_open_sources : ℤ
  pub prefetch_neighbors : Bool
  pub tile_fetch_concurrency : ℤ
  pub tile_fetch_chunk_size : ℤ
  pub header_prefetch_size : ℤ

-- The readers, each with its name, of a GeoTIFF and of a mosaic.
pub data Setup : Type 0 where
  blob_cog blob_vrt : Text → Text → Setup
  http_cog http_vrt local_cog local_vrt : Text → Setup

unfoldable pub reverse_onto : Text → Text → Text
reverse_onto [] acc = acc
reverse_onto (b ∷ s) acc = reverse_onto s (b ∷ acc)

unfoldable pub has_suffix : Text → Text → Bool
has_suffix s suffix = has_prefix (reverse_onto s []) (reverse_onto suffix [])

abbrev pub vrt_suffix : Text
vrt_suffix = b'.' ∷ b'v' ∷ b'r' ∷ b't' ∷ []

abbrev http_prefix : Text
http_prefix = b'h' ∷ b't' ∷ b't' ∷ b'p' ∷ b':' ∷ b'/' ∷ b'/' ∷ []

abbrev https_prefix : Text
https_prefix = b'h' ∷ b't' ∷ b't' ∷ b'p' ∷ b's' ∷ b':' ∷ b'/' ∷ b'/' ∷ []

unfoldable pub is_http : Text → Bool
is_http s = has_prefix s http_prefix || has_prefix s https_prefix

abbrev pub is_set : Text → Bool
is_set [] = false
is_set (b ∷ s) = true

unfoldable pub choose : Config → Setup
choose cfg =
    if is_set cfg.bucket_uri && is_set cfg.object_key
    then (if has_suffix cfg.object_key vrt_suffix
        then blob_vrt cfg.bucket_uri cfg.object_key
        else blob_cog cfg.bucket_uri cfg.object_key)
    else if has_suffix cfg.cog_source vrt_suffix
    then (if is_http cfg.cog_source then http_vrt cfg.cog_source else local_vrt cfg.cog_source)
    else if is_http cfg.cog_source
    then http_cog cfg.cog_source
    else local_cog cfg.cog_source
