-- ===== src/Geo.antt =====
-- Points, bounds and the conversion between coordinates and pixels, that a GeoTIFF and a VRT share
-- (geotiff/geotiff.go, geotiff/vrt.go, geotiff/profile.go).
pub mod Floats
pub mod Corners
