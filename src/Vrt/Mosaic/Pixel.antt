-- ===== src/Vrt/Mosaic/Pixel.antt =====
-- `loc` of a mosaic whose sources are open.
use gedtm30api.Base.{ℕ, ◌<◌, ◌≡◌, subst, ap, ◌∙◌, ◌&&◌, true, false, some, get_elem?, set, arith}
use gedtm30api.Base.Int.{pos}
use gedtm30api.Base.Run.{ok}
use gedtm30api.Geo.Floats.{Floats}
use gedtm30api.Geo.Corners.{contains, pixel_of, pixel_to_coord}
use gedtm30api.Cog.{GeoTiff}
use gedtm30api.Cog.Open.{Opened}
use gedtm30api.Vrt.{Text, Axis, SourceInfo, Vrt}
use gedtm30api.Vrt.Mosaic.{
  World, Env, in_axis, find_source, source_pixel, loc, read_source, opening, source_at_coord,
  put_back, outside, bounds, at_coord,
}
use gedtm30api.Vrt.Mosaic.Sources.{find_source-IsFirst, source_pixel-pixel_in_source}
use gedtm30api.Vrt.Mosaic.Reuse.{get_source_geo-open}
use gedtm30api.Vrt.Mosaic.Ready.{IsPlaced, pixel_at, IsSource, IsReady, IsReady-read}

source_pixel-pixel_at :
    (a : Axis) (size : ℕ) (p : IsPlaced a size) (x : ℕ)
    → in_axis a (pos x) ≡ true
    → (source_pixel a (pos x) ≡ ok (pos (pixel_at p x))) × (pixel_at p x < size)
source_pixel-pixel_at a size p x covered =
    let (is, from, below) =
      source_pixel-pixel_in_source p.src_off p.src_size p.dst_off p.dst_size x p.some_pixels
        p.dst_fits p.src_fits p.product_fits (subst (λ b. in_axis b (pos x) ≡ true) p.is covered) in
    (ap (λ b. source_pixel b (pos x)) p.is ∙ is, omega (arith, below, p.inside))

module _ {F G : Type 0} (fl : Floats F G) (v : Vrt F) {R C S : Type 0} (env : Env R C S)
    (geo : Text → GeoTiff F) (P : Text → Opened R → Type 0) (Q : C → Type 0)
    (value : Text → ℕ → ℕ → G) where
  read_source-value :
      (s : SourceInfo) (src : IsSource fl v env geo P Q value s) (x y k : ℕ) (w : World F R C S)
      → IsReady fl v env geo P Q value w
      → get_elem? v.sources k ≡ some s
      → in_axis s.x (pos x) ≡ true
      → in_axis s.y (pos y) ≡ true
      → (w' : World F R C S) × (read_source fl v env s (pos x) (pos y) w
          ≡ (ok (value s.filename (pixel_at src.x x) (pixel_at src.y y)), w'))
        × IsReady fl v env geo P Q value w'
  unfolding read_source opening source_at_coord put_back
  read_source-value s src x y k w ready at covered_x covered_y =
      let (sx, below_x) = source_pixel-pixel_at s.x _ src.x x covered_x in
      let (sy, below_y) = source_pixel-pixel_at s.y _ src.y y covered_y in
      let (i, found, is_open) = ready.opened k s at in
      let (h', got, holds) =
        get_source_geo-open fl v env s.filename w ready.entries i ready.holds found in
      let g = geo s.filename in
      let exact = src.reads.exact in
      let p =
        pixel_to_coord fl src.reads.rect g.pixel_scale_x g.pixel_scale_y (pos (pixel_at src.x x))
          (pos (pixel_at src.y y)) in
      let (cw, read, stands, cached) =
        src.reads.reads p (pixel_at src.x x) (pixel_at src.y y)
          (record { reader = is_open.reader; cache = w.cache }) below_x below_y
          (exact.exact (pixel_at src.x x) (pixel_at src.y y) below_x below_y) is_open.stands
          ready.cached in
      (
        record w {
          handles = h';
          openings = set w.openings i (record { geo = g; reader = cw.reader });
          cache = cw.cache;
        },
        rw (sx, sy, got, is_open.opening, exact.bounds_are, read),
        IsReady-read fl v env geo P Q value w s.filename i h' cw.reader cw.cache ready holds found
            is_open stands cached,
      )

  -- A pixel of a mosaic whose sources are open: loc returns the value of the pixel of the first
  -- source over it, at the place where the rectangles of that source put it, and the mosaic is
  -- ready for the next read.
  pub loc-value :
      (s : SourceInfo) (src : IsSource fl v env geo P Q value s) (x y : ℕ) (w : World F R C S)
      → IsReady fl v env geo P Q value w
      → outside fl v env (pos x) (pos y) ≡ false
      → find_source v.sources (pos x) (pos y) ≡ some s
      → (w' : World F R C S) × (loc fl v env (pos x) (pos y) w
          ≡ (ok (value s.filename (pixel_at src.x x) (pixel_at src.y y)), w'))
        × IsReady fl v env geo P Q value w'
  unfolding loc
  loc-value s src x y w ready inside found =
      let first = (find_source-IsFirst v.sources (pos x) (pos y)).0 s found in
      let covered : (in_axis s.x (pos x) && in_axis s.y (pos y)) ≡ true = first.covered in
      let (w', read, ready') =
        read_source-value s src x y first.at w ready first.is_at (ground (arith, covered))
          (ground (arith, covered)) in
      (w', rw (inside, found, read), ready')

  -- A mosaic whose sources are open, and a point inside its bounds that rounds to a pixel of it:
  -- AtCoord returns the value of the pixel of the first source over that pixel, at the place where
  -- the rectangles of that source put it. Each source may answer only at the coordinates of its own
  -- pixels. The mosaic is ready for the next call.
  pub at_coord-value :
      (s : SourceInfo) (src : IsSource fl v env geo P Q value s) (lon lat : F) (x y : ℕ)
      (w : World F R C S)
      → IsReady fl v env geo P Q value w
      → contains fl (bounds fl v) (record { lon = lon; lat = lat }) ≡ true
      → pixel_of fl (bounds fl v) v.pixel_scale_x v.pixel_scale_y (record { lon = lon; lat = lat })
        ≡ (pos x, pos y)
      → outside fl v env (pos x) (pos y) ≡ false
      → find_source v.sources (pos x) (pos y) ≡ some s
      → (w' : World F R C S) × (at_coord fl v env lon lat w
          ≡ (ok (value s.filename (pixel_at src.x x) (pixel_at src.y y)), w'))
        × IsReady fl v env geo P Q value w'
  unfolding at_coord
  at_coord-value s src lon lat x y w ready within pixel inside found =
      let (w', read, ready') = loc-value s src x y w ready inside found in
      (w', rw (within, pixel, read), ready')
