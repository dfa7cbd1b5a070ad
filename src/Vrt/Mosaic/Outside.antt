-- ===== src/Vrt/Mosaic/Outside.antt =====
-- `AtCoord` of a mosaic outside its bounds.
use gedtm30api.Base.{◌≡◌, true, false}
use gedtm30api.Base.Int.{ℤ}
use gedtm30api.Base.Run.{Error, text, err}
use gedtm30api.Geo.Floats.{Floats}
use gedtm30api.Geo.Corners.{contains, pixel_of}
use gedtm30api.Vrt.{Vrt}
use gedtm30api.Vrt.Mosaic.{World, Env, bounds, outside, loc, at_coord}

abbrev pub outside_error : Error
outside_error = text "requested point does not fall inside the image bounds "

-- AtCoord of a point outside the bounds changes nothing.
pub at_coord-outside :
    {F G : Type 0} (fl : Floats F G) (v : Vrt F) {R C S : Type 0} (env : Env R C S) (lat lon : F)
    (w : World F R C S)
    → contains fl (bounds fl v) (record { lon = lon; lat = lat }) ≡ false
    → at_coord fl v env lon lat w ≡ (err outside_error, w)
unfolding at_coord
at_coord-outside fl v env lat lon w outside = rw outside

abbrev pub pixel_outside_error : Error
pixel_outside_error = text "point lies outside image"

-- AtCoord of a point inside the bounds that rounds to no pixel changes nothing.
pub at_coord-rounded :
    {F G : Type 0} (fl : Floats F G) (v : Vrt F) {R C S : Type 0} (env : Env R C S) (lat lon : F)
    (x y : ℤ) (w : World F R C S)
    → contains fl (bounds fl v) (record { lon = lon; lat = lat }) ≡ true
    → pixel_of fl (bounds fl v) v.pixel_scale_x v.pixel_scale_y (record { lon = lon; lat = lat })
      ≡ (x, y)
    → outside fl v env x y ≡ true
    → at_coord fl v env lon lat w ≡ (err pixel_outside_error, w)
unfolding at_coord loc
at_coord-rounded fl v env lat lon x y w within pixel beyond = rw (within, pixel, beyond)
