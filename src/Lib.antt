-- ===== src/Lib.antt =====
-- A model of the elevation service: a Go program that answers the elevation of a coordinate, or the
-- elevations along a path, from a Cloud Optimized GeoTIFF or from a GDAL VRT mosaic of them.
--
-- How the parts interact. main.go chooses a reader (a local file, HTTP or a bucket), opens a raster
-- over it and hands the raster to the gRPC and the REST handlers. A GeoTIFF wraps its reader in a
-- prefix reader, parses the header and the directory, fetches in a few reads the tag values that are
-- not in memory, and keeps what it needs to find a tile. A pixel is looked up in its tile, which
-- comes from the cache or is read, decompressed and decoded. A mosaic finds the source of a pixel,
-- opens it once, keeps a bounded number of open sources and asks the source for the coordinate.
--
-- Files and code:
--   Base, Bytes            helpers: lists and tests over the native numbers, Go's 64-bit integers with
--                          their wrap-around, the outcomes of a call (value, error, panic, endless
--                          loop), calls that change a state, bytes in either order.
--   Source                 the readers. Reader: io.Reader, io.Seeker, io.ReaderAt. Memory: bytes.Reader.
--                          Serves: the promise of a reader of a file. Parallel: geotiff/parallel_read.go.
--                          Prefix: geotiff/prefix_reader.go. Http: geotiff/http_reader.go. Blob:
--                          geotiff/blob_reader.go.
--   Tiff                   the parser in geotiff/geotiff.go and geotiff/const.go: FieldType, Tag, Header
--                          (readHeader), Entry (the first pass of readTags), Value (value, getUint and
--                          their like), Prefetch (prefetchMissingRanges), Directory (readTags).
--   Pixels                 decodeFloat32, decodeInt32 and the predictors (geotiff/geotiff.go).
--   Geo                    floating point as a record of operations, and the corners of a raster.
--   Cog                    GeoTIFF: Open (OpenWithCache, Bounds), Key and Tiles (getTileData), Image
--                          (what a writer stores), Loc (loc, AtCoord, prefetchNeighbors), Lzw
--                          (getLZWTileData and finalizeRemote).
--   Vrt                    geotiff/vrt.go: Text (package strings on bytes), Filename, Handles (the open
--                          sources), Parse (OpenVRT), Mosaic (AtCoord, loc, getSourceGeo).
--   Profile                Profile of geotiff/profile.go and of geotiff/vrt.go.
--   Registry               geotiff/libtiff_export.go.
--   Libtiff                geotiff/libtiff.go: the C callbacks and the calls of libtiff.
--   Server                 main.go and geotiff/geo.go: the handlers, Choice (which source is opened),
--                          Startup (the settings that main makes, setupTIFFReader).
--   Tests                  the theorems at concrete inputs.
--
-- State. A call that changes a state is a function from the state to an outcome and a new state
-- (Base.Io). The reader's state is a parameter, so that a prefix reader over any reader is a reader.
-- A mosaic holds its opened GeoTIFFs in a list and refers to them by their place in it.
--
-- Concurrency. The chunks of a split read are done in an order that is any permutation. The fetches
-- of the groups of tag values, and of the neighbouring tiles, are done one after the other: ReadAt
-- does not depend on what was read before. Calls that singleflight joins are one call. Locks are
-- left out.
--
-- Fuel. io.ReadFull runs on as many rounds as bytes are wanted: a round without a byte and without
-- an error is one that the Go loop repeats, and the outcome is then an endless loop. The chunks of a
-- read, the digits of a number and the eviction of sources run on a measure that each round lowers.
--
-- Parameters, since their code is not here: the HTTP client and its server, the bucket, zlib, the
-- tile cache, libtiff with malloc (any program that reads and seeks through its callbacks), the
-- reader factory, floating point with the reading of a decimal number. XML and JSON come decoded.
-- File names and URLs are bytes; the text of an error leaves out the numbers and names that are
-- formatted into it.
--
-- Not modelled: the start and the shutdown of the servers, logging, the generated gRPC code, the
-- web page.
mod Base
pub mod Bytes
pub mod Source
pub mod Tiff
pub mod Pixels
pub mod Geo
pub mod Cog
pub mod Vrt
pub mod Profile
pub mod Registry
pub mod Libtiff
pub mod Server
pub mod Tests
