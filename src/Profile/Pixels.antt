-- ===== src/Profile/Pixels.antt =====
-- The pixels that a profile is taken at.
use gedtm30api.Base.{◌≡◌, ◌⊎◌, true, List, [], ◌∷◌, map, All}
use gedtm30api.Base.Int.{ℤ}
use gedtm30api.Base.Run.{Run, Error, ok, err}
use gedtm30api.Base.Io.{Io}
use gedtm30api.Geo.Floats.{Floats}
use gedtm30api.Geo.Corners.{Point, Corners, pixel_to_coord}
use gedtm30api.Profile.{Elevation, Walk, is_visited}
use gedtm30api.Profile.Visited.{NoRepeat}

-- A call that returns a value or an error, in every state.
abbrev pub Answers : {W G : Type 0} → (ℤ → ℤ → Io W G) → Type 0
Answers {W} {G} loc =
    (x y : ℤ) (w : W)
    → ((e : G) × (w' : W) × (loc x y w ≡ (ok e, w')))
      ⊎ ((e : Error) × (w' : W) × (loc x y w ≡ (err e, w')))

abbrev pub place : {F : Type 0} → Elevation F → Point F
place e = record { lat = e.lat; lon = e.lon }

module _ {F G : Type 0} (fl : Floats F G) {W : Type 0} (loc : ℤ → ℤ → Io W G) (rect : Corners F)
    (scale_x scale_y : F) where
  abbrev pub coord_of : ℤ × ℤ → Point F
  coord_of p = pixel_to_coord fl rect scale_x scale_y p.0 p.1

  -- The profile stands at pairwise different pixels, all of them visited.
  pub record IsOnPixels (walk : Walk F) : Type 0 where
    pub pixels : List (ℤ × ℤ)
    pub places : map place walk.profile ≡ map coord_of pixels
    pub no_repeat : NoRepeat pixels
    pub visited : All (λ p. is_visited p walk.visited ≡ true) pixels

  abbrev IsFound : Run (ℤ × ℤ) → Type 0
  IsFound r = ((p : ℤ × ℤ) × (r ≡ ok p)) ⊎ ((e : Error) × (r ≡ err e))

  -- Coordinate pairs [lat, lng].
  abbrev pub pairs : List (F × F) → List (List F)
  pairs ps = map (λ p. p.0 ∷ p.1 ∷ []) ps

  -- A walk that was continued to its end.
  abbrev Continues : (W → Run (Walk F) × W) → W → Type 0
  Continues m w = (walk' : Walk F) × (w' : W) × (m w ≡ (ok walk', w')) × IsOnPixels walk'
