-- ===== src/Vrt/Mosaic/Ready.antt =====
-- A mosaic whose sources are open: what holds between two reads.
use gedtm30api.Base.{
  ℕ, ◌+◌, ◌*◌, ◌<◌, ◌≤◌, ◌≡◌, sym, subst, ◌∙◌, inl, inr, some, List, get_elem?, set, arith,
  get_elem?-set, get_elem?-set_other, Bool-cases, ◌==◌,
}
use gedtm30api.Base.Int.{two63}
use gedtm30api.Geo.Floats.{Floats}
use gedtm30api.Cog.{GeoTiff}
use gedtm30api.Cog.Open.{Opened}
use gedtm30api.Cog.Loc.Coord.{Reads}
use gedtm30api.Vrt.{Text, Axis, SourceInfo, Vrt}
use gedtm30api.Vrt.Handles.{Handles, SourceEntry}
use gedtm30api.Vrt.Handles.Spec.{Holds, lookup, touch}
use gedtm30api.Vrt.Handles.Lookup.{lookup-touch}
use gedtm30api.Vrt.Mosaic.{World, Env, Opening, source_env}
use gedtm30api.Vrt.Mosaic.Sources.{axis_of, pixel_in_source}

-- An axis of a source of `size` pixels: nothing is negative or empty, the part that is read lies
-- inside the source, and nothing overflows.
pub record IsPlaced (a : Axis) (size : ℕ) : Type 0 where
  pub src_off : ℕ
  pub src_size : ℕ
  pub dst_off : ℕ
  pub dst_size : ℕ
  pub is : a ≡ axis_of src_off src_size dst_off dst_size
  pub some_pixels : 0 < src_size
  pub inside : src_off + src_size ≤ size
  pub dst_fits : dst_off + dst_size < two63
  pub src_fits : src_off + src_size < two63
  pub product_fits : src_size * dst_size < two63

-- The pixel of the source that a pixel of the mosaic falls on.
abbrev pub pixel_at : {a : Axis} → {size : ℕ} → IsPlaced a size → ℕ → ℕ
pixel_at p x = pixel_in_source p.src_off p.src_size p.dst_off p.dst_size x

-- The GeoTIFF of each file, what holds of its reader, and its pixels; and what holds of the cache.
module _ {F G : Type 0} (fl : Floats F G) (v : Vrt F) {R C S : Type 0} (env : Env R C S)
    (geo : Text → GeoTiff F) (P : Text → Opened R → Type 0) (Q : C → Type 0)
    (value : Text → ℕ → ℕ → G) where
  pub record IsSource (s : SourceInfo) : Type 0 where
    pub x : IsPlaced s.x (geo s.filename).image_width
    pub y : IsPlaced s.y (geo s.filename).image_length
    pub reads : Reads fl (geo s.filename) (source_env env) (P s.filename) Q (value s.filename)

  -- The GeoTIFF of a file is at an address.
  pub record IsOpenAt (openings : List (Opening F R)) (s : Text) (i : ℕ) : Type 0 where
    pub reader : Opened R
    pub opening : get_elem? openings i ≡ some (record { geo = geo s; reader = reader })
    pub stands : P s reader

  -- Every source is open, at an address of its own, and the cache is sound.
  pub record IsReady (w : World F R C S) : Type 0 where
    pub entries : List (SourceEntry ℕ)
    pub holds : Holds w.handles entries
    pub opened :
        (k : ℕ) (s : SourceInfo)
        → get_elem? v.sources k ≡ some s
        → (i : ℕ) × (lookup s.filename entries ≡ some i) × IsOpenAt w.openings s.filename i
    pub apart : (s t : Text) (i : ℕ) → lookup s entries ≡ some i → lookup t entries ≡ some i → s ≡ t
    pub cached : Q w.cache

  -- A read of one source leaves the others as they are.
  IsOpenAt-set :
      (openings : List (Opening F R)) (s t : Text) (i j : ℕ) (reader : Opened R)
      → IsOpenAt openings s i
      → P s reader
      → (i ≡ j → s ≡ t)
      → IsOpenAt openings t j
      → IsOpenAt (set openings i (record { geo = geo s; reader = reader })) t j
  IsOpenAt-set openings s t i j reader open_s stands same open_t = elim (Bool-cases (j == i)) [
    | inl eq ↦
        let here : i ≡ j = ground (arith, eq) in
        subst (λ u. IsOpenAt (set openings i (record { geo = geo s; reader = reader })) u j)
          (same here)
          (subst (λ k. IsOpenAt (set openings i (record { geo = geo s; reader = reader })) s k) here
            (record {
              reader = reader;
              opening = get_elem?-set openings i _ _ open_s.opening;
              stands = stands;
            }))
    | inr ne ↦ record {
      reader = open_t.reader;
      opening = get_elem?-set_other openings i j _ (λ e. ground (arith, ne, e)) ∙ open_t.opening;
      stands = open_t.stands;
    }
  ]

  pub IsReady-read :
      (w : World F R C S) (s : Text) (i : ℕ) (h' : Handles ℕ) (reader : Opened R) (c : C)
      → (r : IsReady w) → Holds h' (touch s r.entries)
      → lookup s r.entries ≡ some i
      → IsOpenAt w.openings s i
      → P s reader
      → Q c
      → IsReady (record w {
        handles = h';
        openings = set w.openings i (record { geo = geo s; reader = reader });
        cache = c;
      })
  IsReady-read w s i h' reader c r holds found open_s stands cached = record {
    entries = touch s r.entries;
    holds = holds;
    opened = λ k t at.
        let (j, found_t, open_t) = r.opened k t at in
        (
          j,
          lookup-touch s t.filename r.entries ∙ found_t,
          IsOpenAt-set w.openings s t.filename i j reader open_s stands
              (λ e.
                r.apart s t.filename j (subst (λ a. lookup s r.entries ≡ some a) e found) found_t)
              open_t,
        );
    apart = λ a b j found_a found_b.
        r.apart a b j (sym (lookup-touch s a r.entries) ∙ found_a)
          (sym (lookup-touch s b r.entries) ∙ found_b);
    cached = cached;
  }
