-- ===== src/Server/Status.antt =====
-- What the handlers answer to a point outside the raster, and how the two APIs agree.
use gedtm30api.Base.{◌≡◌, true, false}
use gedtm30api.Base.Int.{ℤ}
use gedtm30api.Base.Run.{Run, ok, err, panic, hang}
use gedtm30api.Geo.Floats.{Floats}
use gedtm30api.Geo.Corners.{contains, pixel_of}
use gedtm30api.Vrt.{Vrt}
use gedtm30api.Vrt.Mosaic
use gedtm30api.Vrt.Mosaic.Outside.{
  outside_error, pixel_outside_error, at_coord-outside, at_coord-rounded,
}
use gedtm30api.Profile.{vrt_profile}
use gedtm30api.Server.{
  GeoRaster, Reply, response, not_found, internal, invalid_argument, HttpReply, json, bad_request,
  http_not_found, http_error, get_elevation, elevation_reply,
}
use gedtm30api.Server.Message.{mentions_outside}

-- The answer of the REST API that corresponds to one of the gRPC API.
abbrev pub http_of : {F G : Type 0} → F → F → Run (Reply G) → Run (HttpReply (F × (F × G)))
http_of lat lng (ok (response value)) = ok (json (lat, (lng, value)))
http_of lat lng (ok (not_found e)) = ok http_not_found
http_of lat lng (ok (internal e)) = ok http_error
http_of lat lng (ok (invalid_argument m)) = ok (bad_request m)
http_of lat lng (err e) = err e
http_of lat lng panic = panic
http_of lat lng hang = hang

module _ {F G : Type 0} (fl : Floats F G) (v : Vrt F) {R C S : Type 0}
    (env : Mosaic.Env R C S) where
  -- The mosaic as a GeoRaster.
  abbrev pub mosaic : GeoRaster F G (Mosaic.World F R C S)
  mosaic = record { at_coord = Mosaic.at_coord fl v env; profile = vrt_profile fl v env }

  -- GetElevation of a point outside the bounds of a mosaic answers NotFound, opens no source
  -- and reads nothing.
  pub get_elevation-outside :
      (lat lon : F) (w : Mosaic.World F R C S)
      → contains fl (Mosaic.bounds fl v) (record { lon = lon; lat = lat }) ≡ false
      → get_elevation fl mosaic lat lon w ≡ (ok (not_found outside_error), w)
  unfolding get_elevation elevation_reply mentions_outside
  get_elevation-outside lat lon w outside = rw (at_coord-outside fl v env lat lon w outside)

  -- GetElevation of a point inside the bounds of a mosaic, whose nearest pixel by rounding lies
  -- outside the image (as for a point on the right edge), answers Internal, not NotFound and not an
  -- elevation; it opens no source and reads nothing.
  pub get_elevation-rounded :
      (lat lon : F) (x y : ℤ) (w : Mosaic.World F R C S)
      → contains fl (Mosaic.bounds fl v) (record { lon = lon; lat = lat }) ≡ true
      → pixel_of fl
          (Mosaic.bounds fl v)
          v.pixel_scale_x
          v.pixel_scale_y
          (record { lon = lon; lat = lat })
        ≡ (x, y)
      → Mosaic.outside fl v env x y ≡ true
      → get_elevation fl mosaic lat lon w ≡ (ok (internal pixel_outside_error), w)
  unfolding get_elevation elevation_reply mentions_outside
  get_elevation-rounded lat lon x y w within pixel beyond =
      rw (at_coord-rounded fl v env lat lon x y w within pixel beyond)
