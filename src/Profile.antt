-- ===== src/Profile.antt =====
-- Elevation profiles along a path: `Profile` of a GeoTIFF (geotiff/profile.go) and of a mosaic
-- (geotiff/vrt.go). Both walk a segment in the same way.
pub mod Visited
pub mod Pixels
use gedtm30api.Base.{
  ℕ, zero, suc, ◌+◌, Bool, true, false, ◌&&◌, not, List, [], ◌∷◌, ◌++◌, length, ltb, ◌==◌,
  if◌then◌else◌,
}
use gedtm30api.Base.Int.{ℤ, pos, negsuc, add64, sub64, eqb_ℤ}
use gedtm30api.Base.Run.{text, wrap, Run, ok, err, panic, hang}
use gedtm30api.Base.Io.{Io, ◌>>=◌, ◌>>◌, pure, lift, throw, fail_if, wrap_error}
use gedtm30api.Geo.Floats.{Floats}
use gedtm30api.Geo.Corners.{Point, Corners, contains, pixel_of, pixel_to_coord}
use gedtm30api.Cog.{GeoTiff}
use gedtm30api.Cog
use gedtm30api.Cog.Open
use gedtm30api.Cog.Loc
use gedtm30api.Vrt.{Vrt}
use gedtm30api.Vrt.Mosaic

-- One element of a profile: latitude, longitude, elevation.
pub record Elevation (F : Type 0) : Type 0 where
  pub lat : F
  pub lon : F
  pub elevation : F

-- `visitedPixels`, with the pixel for its key, and `profile`.
pub record Walk (F : Type 0) : Type 0 where
  pub visited : List (ℤ × ℤ)
  pub profile : List (Elevation F)

abbrev same_pixel : ℤ × ℤ → ℤ × ℤ → Bool
same_pixel (a, b) (c, d) = eqb_ℤ a c && eqb_ℤ b d

pub is_visited : ℤ × ℤ → List (ℤ × ℤ) → Bool
is_visited p [] = false
is_visited p (q ∷ qs) = if same_pixel p q then true else is_visited p qs

-- The rounds of `for j := 0; j <= numSteps; j++`.
rounds : ℤ → ℕ
rounds (pos n) = suc n
rounds (negsuc n) = 0

module _ {F G : Type 0} (fl : Floats F G) {W : Type 0} (loc : ℤ → ℤ → Io W G) (rect : Corners F)
    (scale_x scale_y : F) where
  -- A pixel without an elevation is left out of the profile; a panic is not caught.
  record_pixel : ℤ × ℤ → Walk F → Run G → Run (Walk F)
  record_pixel (x, y) walk (ok e) =
      let p = pixel_to_coord fl rect scale_x scale_y x y in
      ok (record walk {
        profile =
            walk.profile ++ (record { lat = p.lat; lon = p.lon; elevation = fl.float64_of e } ∷ []);
      })
  record_pixel q walk (err e) = ok walk
  record_pixel q walk panic = panic
  record_pixel q walk hang = hang

  visit : ℤ × ℤ → Walk F → Io W (Walk F)
  visit p walk w =
      let (r, w') = loc p.0 p.1 w in
      (record_pixel p (record walk { visited = p ∷ walk.visited }) r, w')

  sample : ℤ × ℤ → Walk F → Io W (Walk F)
  sample p walk w = if is_visited p walk.visited then (ok walk, w) else visit p walk w

  samples : (ℕ → ℤ × ℤ) → ℕ → ℕ → Walk F → Io W (Walk F)
  samples pixel_at zero j walk = pure walk
  samples pixel_at (suc left) j walk =
      sample (pixel_at j) walk >>= λ walk'. samples pixel_at left (suc j) walk'

  -- `numSteps`
  num_steps : ℤ → ℤ → ℤ
  num_steps dx dy =
      let n = fl.to_int (fl.ceil (fl.max (fl.abs (fl.of_int dx)) (fl.abs (fl.of_int dy)))) in
      if eqb_ℤ n (pos 0) then pos 1 else n

  -- `x1 + int(float64(j)*xInc)`
  coordinate : ℤ → ℤ → ℤ → ℕ → ℤ
  coordinate start delta n j =
      add64 start (fl.to_int (fl.mul (fl.of_int (pos j)) (fl.div (fl.of_int delta) (fl.of_int n))))

  pub segment : ℤ × ℤ → ℤ × ℤ → Walk F → Io W (Walk F)
  segment (x1, y1) (x2, y2) =
      let dx = sub64 x2 x1 in
      let dy = sub64 y2 y1 in
      let n = num_steps dx dy in
      samples (λ j. (coordinate x1 dx n j, coordinate y1 dy n j)) (rounds n) 0

  -- `coordToPixel` and `coordToPixelChecked`
  pub coord_to_pixel : F → F → Run (ℤ × ℤ)
  coord_to_pixel lon lat =
      let p : Point F = record { lon = lon; lat = lat } in
      if contains fl rect p
      then ok (pixel_of fl rect scale_x scale_y p)
      else err (text "point is outside the image bounds")

  -- A segment of the path, between the points of two coordinate pairs [lat, lng].
  abbrev on_pair : {A : Type 0} → List F → List F → (F → F → F → F → A) → A → A
  on_pair (lat1 ∷ lon1 ∷ []) (lat2 ∷ lon2 ∷ []) f other = f lat1 lon1 lat2 lon2
  on_pair _ _ f other = other

  -- A point outside ends the profile of a GeoTIFF with an error.
  strict_segment : F → F → F → F → Walk F → Io W (Walk F)
  strict_segment lat1 lon1 lat2 lon2 walk = do
    p ← lift (coord_to_pixel lon1 lat1)
    q ← lift (coord_to_pixel lon2 lat2)
    segment p q walk

  -- The profile of a mosaic skips the segment of such a point.
  between : Run (ℤ × ℤ) → Run (ℤ × ℤ) → Walk F → Io W (Walk F)
  between (ok p) (ok q) walk = segment p q walk
  between (err e) _ walk = pure walk
  between (ok p) (err e) walk = pure walk
  between panic _ walk = lift panic
  between hang _ walk = lift hang
  between (ok p) panic walk = lift panic
  between (ok p) hang walk = lift hang

  pub lenient_segment : F → F → F → F → Walk F → Io W (Walk F)
  lenient_segment lat1 lon1 lat2 lon2 =
      between (coord_to_pixel lon1 lat1) (coord_to_pixel lon2 lat2)

  pub path : (F → F → F → F → Walk F → Io W (Walk F)) → List (List F) → Walk F → Io W (Walk F)
  path seg [] walk = pure walk
  path seg (c ∷ []) walk = pure walk
  path seg (c ∷ d ∷ cs) walk =
      on_pair c d (λ lat1 lon1 lat2 lon2. seg lat1 lon1 lat2 lon2 walk)
        (throw (text "invalid coordinate pair; expected [lat, lng]"))
      >>= λ walk'. path seg (d ∷ cs) walk'

abbrev pub start_walk : {F : Type 0} → Walk F
start_walk = record { visited = []; profile = [] }

abbrev too_few : {F : Type 0} → List (List F) → Bool
too_few coordinates = ltb (length coordinates) 2

module _ {F G : Type 0} (fl : Floats F G) where
  -- `Profile` of profile.go
  pub geotiff_profile :
      (g : GeoTiff F) {R C : Type 0} (env : Cog.Env R C)
      → List (List F)
      → Io (Cog.World R C) (List (Elevation F))
  geotiff_profile g env coordinates = do
    fail_if (too_few coordinates)
        (text "at least two coordinate pairs are required to create a profile")
    rect ← wrap_error "failed to get image bounds: " (lift (Cog.Open.bounds fl g))
    let loc = Cog.Loc.loc fl g env
    walk ←
        path fl loc rect g.pixel_scale_x g.pixel_scale_y
          (strict_segment fl loc rect g.pixel_scale_x g.pixel_scale_y) coordinates start_walk
    pure walk.profile

  -- `Profile` of vrt.go
  pub vrt_profile :
      (v : Vrt F) {R C S : Type 0} (env : Mosaic.Env R C S)
      → List (List F)
      → Io (Mosaic.World F R C S) (List (Elevation F))
  vrt_profile v env coordinates = do
    fail_if (too_few coordinates)
        (text "at least two coordinate pairs are required to create a profile")
    let rect = Mosaic.bounds fl v
    let loc = Mosaic.loc fl v env
    walk ←
        path fl loc rect v.pixel_scale_x v.pixel_scale_y
          (lenient_segment fl loc rect v.pixel_scale_x v.pixel_scale_y) coordinates start_walk
    pure walk.profile
