-- ===== src/Vrt/Mosaic/Opens.antt =====
-- Sources are opened when they are asked for: `getSourceGeo` on every branch.
use gedtm30api.Base.{
  ℕ, ◌≡◌, refl, ap, sym, subst, ◌∙◌, inl, inr, Option, none, some, List, [], ◌∷◌, ◌++◌, length,
  Option-cases,
}
use gedtm30api.Base.Run.{Run, ok, err, panic, hang, wrap}
use gedtm30api.Geo.Floats.{Floats}
use gedtm30api.Cog.{GeoTiff}
use gedtm30api.Cog.Open.{Opened, open_with_cache}
use gedtm30api.Vrt.{Text, Vrt}
use gedtm30api.Vrt.Handles.{Handles, SourceEntry, lru_get}
use gedtm30api.Vrt.Handles.Spec.{Holds, lookup, touch, store}
use gedtm30api.Vrt.Handles.Refinement.{lru_get-touch, lru_put-store}
use gedtm30api.Vrt.Mosaic.{
  World, Env, Opening, get_source_geo, found_or_open, open_source, on_handles, on_factory, resolved,
  allocate,
}
use gedtm30api.Vrt.Mosaic.Reuse.{get_source_geo-open}

-- What a call leaves: its result, the open sources by name, all GeoTIFFs that were opened, and the
-- state behind the reader factory.
pub record Outcome (F R S : Type 0) : Type 0 where
  pub result : Run ℕ
  pub entries : List (SourceEntry ℕ)
  pub openings : List (Opening F R)
  pub factory : S

module _ {F G : Type 0} (fl : Floats F G) (v : Vrt F) {R C S : Type 0} (env : Env R C S) (s : Text)
    (w : World F R C S) (es : List (SourceEntry ℕ)) where
  abbrev failed : S → Run ℕ → Outcome F R S
  failed f r = record { result = r; entries = es; openings = w.openings; factory = f }

  -- A GeoTIFF that opens is the last of the openings, and the most recently used source.
  abbrev opened_as : S → Run (GeoTiff F) × Opened R → Outcome F R S
  opened_as f (ok g, o) = record {
    result = ok (length w.openings);
    entries = store w.handles.max_sources s (length w.openings) es;
    openings =
        w.openings
        ++ (record { geo = record g { prefetch_enabled = v.prefetch_enabled }; reader = o } ∷ []);
    factory = f;
  }
  opened_as f (err e, o) = failed f (err (wrap "failed to open source GeoTIFF: " e))
  opened_as f (panic, o) = failed f panic
  opened_as f (hang, o) = failed f hang

  abbrev made_as : Run R × S → Outcome F R S
  made_as (ok raw, f) = opened_as f (
      open_with_cache env.settings env.order env.reader fl env.prefetch_size
        (resolved fl v env s ++ (b'#' ∷ [])) raw)
  made_as (err e, f) = failed f (err (wrap "failed to create reader for source: " e))
  made_as (panic, f) = failed f panic
  made_as (hang, f) = failed f hang

  abbrev found_as : Option ℕ → Outcome F R S
  found_as (some i) = record {
    result = ok i;
    entries = touch s es;
    openings = w.openings;
    factory = w.factory;
  }
  found_as none = made_as (env.reader_factory (resolved fl v env s) w.factory)

  -- The promise of getSourceGeo.
  abbrev pub source_outcome : Outcome F R S
  source_outcome = found_as (lookup s es)

  -- The call leaves the outcome.
  abbrev pub Leaves : Outcome F R S → Type 0
  Leaves o =
      (h' : Handles ℕ) × (get_source_geo fl v env s w ≡ (
        o.result,
        record { handles = h'; openings = o.openings; cache = w.cache; factory = o.factory },
      ))
      × Holds h' o.entries

  -- Two lookups of a source that is not open.
  record Missed : Type 0 where
    h1 : Handles ℕ
    h2 : Handles ℕ
    first : lru_get s w.handles ≡ (ok none, h1)
    second : lru_get s h1 ≡ (ok none, h2)
    holds : Holds h2 es
    max : h2.max_sources ≡ w.handles.max_sources

  missed : Holds w.handles es → lookup s es ≡ none → Missed
  missed holds missing =
      let (h1, run1, holds1, max1) = lru_get-touch w.handles es s holds in
      let still : touch s es ≡ es = rw missing in
      let (h2, run2, holds2, max2) = lru_get-touch h1 es s (subst (Holds h1) still holds1) in
      record {
        h1 = h1;
        h2 = h2;
        first = run1 ∙ ap (λ o. (ok o, h1)) missing;
        second = run2 ∙ ap (λ o. (ok o, h2)) missing;
        holds = subst (Holds h2) still holds2;
        max = max2 ∙ max1;
      }

  opened-Leaves :
      (m : Missed) (raw : R) (f : S) (r : Run (GeoTiff F) × Opened R)
      → env.reader_factory (resolved fl v env s) w.factory ≡ (ok raw, f)
      → open_with_cache env.settings env.order env.reader fl env.prefetch_size
          (resolved fl v env s ++ (b'#' ∷ []))
          raw
        ≡ r
      → Leaves (opened_as f r)
  unfolding get_source_geo found_or_open open_source on_handles on_factory allocate
  opened-Leaves m raw f (ok g, o) made opened =
      let (h3, put, holds3, max3) = lru_put-store m.h2 es s (length w.openings) m.holds in
      (
        h3,
        rw (m.first, m.second, made, opened, put),
        subst (λ n. Holds h3 (store n s (length w.openings) es)) m.max holds3,
      )
  opened-Leaves m raw f (err e, o) made opened =
      (m.h2, rw (m.first, m.second, made, opened), m.holds)
  opened-Leaves m raw f (panic, o) made opened =
      (m.h2, rw (m.first, m.second, made, opened), m.holds)
  opened-Leaves m raw f (hang, o) made opened =
      (m.h2, rw (m.first, m.second, made, opened), m.holds)

  made-Leaves :
      (m : Missed) (r : Run R × S)
      → env.reader_factory (resolved fl v env s) w.factory ≡ r
      → Leaves (made_as r)
  unfolding get_source_geo found_or_open open_source on_handles on_factory allocate
  made-Leaves m (ok raw, f) made = opened-Leaves m raw f _ made refl
  made-Leaves m (err e, f) made = (m.h2, rw (m.first, m.second, made), m.holds)
  made-Leaves m (panic, f) made = (m.h2, rw (m.first, m.second, made), m.holds)
  made-Leaves m (hang, f) made = (m.h2, rw (m.first, m.second, made), m.holds)

  -- getSourceGeo on every branch. A source that is among the open ones is returned without a call of
  -- the reader factory, and becomes the most recently used. Else the factory is called once, with the
  -- name resolved against the mosaic's, and the GeoTIFF opened: it is returned with the prefetching of
  -- the mosaic and becomes the most recently used of at most the configured number. Where the factory
  -- or the opening fails, the error is wrapped and no source is added or lost, so the next call tries
  -- again. GeoTIFFs opened before and the tile cache stay as they are.
  pub get_source_geo-outcome : Holds w.handles es → Leaves source_outcome
  get_source_geo-outcome holds = elim (Option-cases (lookup s es)) [
    | inl missing ↦
        subst (λ o. Leaves (found_as o)) (sym missing) (made-Leaves (missed holds missing) _ refl)
    | inr (i, found) ↦
        let (h', run, holds') = get_source_geo-open fl v env s w es i holds found in
        subst (λ o. Leaves (found_as o)) (sym found) (h', run, holds')
  ]
