-- ===== src/Server.antt =====
-- The gRPC and the REST handlers over a raster, and the choice of what to open (main.go).
pub mod Message
pub mod Choice
pub mod Status
pub mod Startup
use Prim.Native.String.{String}
use gedtm30api.Base.{
  ℕ, zero, suc, Bool, true, false, Option, none, some, List, [], ◌∷◌, ◌++◌, map, length, ltb, ◌==◌,
  if◌then◌else◌,
}
use gedtm30api.Base.Run.{Error, Run, ok, err, panic, hang}
use gedtm30api.Base.Io.{Io}
use gedtm30api.Geo.Floats.{Floats}
use gedtm30api.Geo.Corners.{Point}
use gedtm30api.Profile.{Elevation}
use gedtm30api.Vrt.{Text}
use gedtm30api.Vrt.Text.{cut_prefix}
use gedtm30api.Server.Message.{mentions_outside}

-- `GeoRaster` (geotiff/geo.go)
pub record GeoRaster (F G W : Type 0) : Type 0 where
  pub at_coord : F → F → Io W G
  pub profile : List (List F) → Io W (List (Elevation F))

-- What a gRPC method returns: a response or a status.
pub data Reply (A : Type 0) : Type 0 where
  response : A → Reply A
  not_found internal : Error → Reply A
  invalid_argument : String → Reply A

-- `ElevationPoint`; its elevation is a float32.
pub record ElevationPoint (F G : Type 0) : Type 0 where
  pub latitude : F
  pub longitude : F
  pub elevation : G

-- What an HTTP handler writes: 200 with a value as JSON, or an error.
pub data HttpReply (A : Type 0) : Type 0 where
  json : A → HttpReply A
  bad_request : String → HttpReply A
  http_not_found http_error : HttpReply A

-- `strings.TrimPrefix` and `strings.Split` by one byte.
abbrev or_whole : Text → Option Text → Text
or_whole s none = s
or_whole s (some rest) = rest

unfoldable pub trim_prefix : Text → Text → Text
trim_prefix s p = or_whole s (cut_prefix s p)

abbrev onto_first : ℕ → List Text → List Text
onto_first b [] = (b ∷ []) ∷ []
onto_first b (w ∷ ws) = (b ∷ w) ∷ ws

unfoldable pub split : Text → ℕ → List Text
split [] sep = [] ∷ []
split (b ∷ s) sep = let rest = split s sep in if b == sep then [] ∷ rest else onto_first b rest

abbrev pub get_elevation_prefix : Text
get_elevation_prefix =
    b'/' ∷ b'g' ∷ b'e' ∷ b't' ∷ b'E' ∷ b'l' ∷ b'e' ∷ b'v' ∷ b'a' ∷ b't' ∷ b'i' ∷ b'o' ∷ b'n' ∷ b'/'
    ∷ []

module _ {F G W : Type 0} (fl : Floats F G) (geo : GeoRaster F G W) where
  elevation_reply : Run G → Run (Reply G)
  elevation_reply (ok value) = ok (response value)
  elevation_reply (err e) = ok (if mentions_outside e then not_found e else internal e)
  elevation_reply panic = panic
  elevation_reply hang = hang

  -- `GetElevation`
  pub get_elevation : F → F → Io W (Reply G)
  get_elevation latitude longitude w =
      let (r, w') = geo.at_coord longitude latitude w in (elevation_reply r, w')

  abbrev pair : Point F → List F
  pair p = p.lat ∷ p.lon ∷ []

  abbrev elevation_point : Elevation F → ElevationPoint F G
  elevation_point e = record {
    latitude = e.lat;
    longitude = e.lon;
    elevation = fl.float32_of e.elevation;
  }

  profile_reply : Run (List (Elevation F)) → Run (Reply (List (ElevationPoint F G)))
  profile_reply (ok es) = ok (response (map elevation_point es))
  profile_reply (err e) = ok (internal e)
  profile_reply panic = panic
  profile_reply hang = hang

  -- `GetProfile`
  pub get_profile : List (Point F) → Io W (Reply (List (ElevationPoint F G)))
  get_profile points w =
      let (r, w') = geo.profile (map pair points) w in
      if ltb (length points) 2
      then (ok (invalid_argument "at least two points are required for a profile"), w)
      else (profile_reply r, w')

  http_elevation : F → F → Run G → Run (HttpReply (F × (F × G)))
  http_elevation lat lng (ok value) = ok (json (lat, (lng, value)))
  http_elevation lat lng (err e) = ok (if mentions_outside e then http_not_found else http_error)
  http_elevation lat lng panic = panic
  http_elevation lat lng hang = hang

  elevation_at : Option F → Option F → Io W (HttpReply (F × (F × G)))
  elevation_at none lng w = (ok (bad_request "Invalid latitude"), w)
  elevation_at (some lat) none w = (ok (bad_request "Invalid longitude"), w)
  elevation_at (some lat) (some lng) w =
      let (r, w') = geo.at_coord lng lat w in (http_elevation lat lng r, w')

  elevation_of_parts : (Text → Option F) → List Text → Io W (HttpReply (F × (F × G)))
  elevation_of_parts parse_float (lat ∷ lng ∷ []) w =
      elevation_at (parse_float lat) (parse_float lng) w
  elevation_of_parts parse_float _ w = (ok (bad_request "Invalid URL format"), w)

  -- `getElevationHandler`; `parse_float` is strconv.ParseFloat.
  pub get_elevation_handler : (Text → Option F) → Text → Io W (HttpReply (F × (F × G)))
  get_elevation_handler parse_float url_path =
      elevation_of_parts parse_float (split (trim_prefix url_path get_elevation_prefix) b'/')

  http_profile : Run (List (Elevation F)) → Run (HttpReply (List (Elevation F)))
  http_profile (ok []) = ok http_not_found
  http_profile (ok (e ∷ es)) = ok (json (e ∷ es))
  http_profile (err e) = ok http_error
  http_profile panic = panic
  http_profile hang = hang

  -- `getProfileHandler`, from the decoded body on.
  pub get_profile_handler : Option (List (List F)) → Io W (HttpReply (List (Elevation F)))
  get_profile_handler none w = (ok (bad_request "Invalid JSON body"), w)
  get_profile_handler (some req) w = let (r, w') = geo.profile req w in (http_profile r, w')
