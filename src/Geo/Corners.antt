-- ===== src/Geo/Corners.antt =====
-- `Point`, `CornerCoordinates`, and the conversions of a coordinate to a pixel and back.
use gedtm30api.Base.{Bool, ◌&&◌}
use gedtm30api.Base.Int.{ℤ}
use gedtm30api.Geo.Floats.{Floats}

pub record Point (F : Type 0) : Type 0 where
  pub lon : F
  pub lat : F

pub record Corners (F : Type 0) : Type 0 where
  pub upper_left : Point F
  pub lower_left : Point F
  pub upper_right : Point F
  pub lower_right : Point F

module _ {F G : Type 0} (fl : Floats F G) where
  -- `Contains`
  unfoldable pub contains : Corners F → Point F → Bool
  contains cc p =
      let min_lon = fl.min cc.upper_left.lon cc.lower_right.lon in
      let max_lon = fl.max cc.upper_left.lon cc.lower_right.lon in
      let min_lat = fl.min cc.upper_left.lat cc.lower_right.lat in
      let max_lat = fl.max cc.upper_left.lat cc.lower_right.lat in
      fl.le min_lon p.lon && fl.le p.lon max_lon && fl.le min_lat p.lat && fl.le p.lat max_lat

  -- The corners of an image of `width` and `length` pixels whose upper left corner is at
  -- (`lon`, `lat`).
  unfoldable pub corners_from : F → F → ℤ → ℤ → F → F → Corners F
  corners_from lon lat width length scale_x scale_y =
      let total_width = fl.mul (fl.of_int width) scale_x in
      let total_height = fl.mul (fl.of_int length) scale_y in
      record {
        upper_left = record { lon = lon; lat = lat };
        lower_left = record { lon = lon; lat = fl.add lat total_height };
        upper_right = record { lon = fl.add lon total_width; lat = lat };
        lower_right = record { lon = fl.add lon total_width; lat = fl.add lat total_height };
      }

  -- `int(math.Round(math.Abs(c-origin) / scale))`
  unfoldable pub pixel_index : F → F → F → ℤ
  pixel_index c origin scale = fl.to_int (fl.round (fl.div (fl.abs (fl.sub c origin)) scale))

  -- The pixel of a point, by the scales of the raster; the scale in y is taken without its sign.
  unfoldable pub pixel_of : Corners F → F → F → Point F → ℤ × ℤ
  unfolding pixel_index
  pixel_of bounds scale_x scale_y p = (
    pixel_index p.lon bounds.upper_left.lon scale_x,
    pixel_index p.lat bounds.upper_left.lat (fl.abs scale_y),
  )

  -- `pixelToCoord`
  unfoldable pub pixel_to_coord : Corners F → F → F → ℤ → ℤ → Point F
  pixel_to_coord bounds scale_x scale_y x y = record {
    lon = fl.add bounds.upper_left.lon (fl.mul (fl.of_int x) scale_x);
    lat = fl.add bounds.upper_left.lat (fl.mul (fl.of_int y) scale_y);
  }
