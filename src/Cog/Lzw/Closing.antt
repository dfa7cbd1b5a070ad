-- ===== src/Cog/Lzw/Closing.antt =====
-- `finalizeRemote`, which runs when a GeoTIFF is no longer in use.
use gedtm30api.Base.Io.{Io}
