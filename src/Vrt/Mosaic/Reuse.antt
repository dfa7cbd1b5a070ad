-- ===== src/Vrt/Mosaic/Reuse.antt =====
-- Sources are opened once.
use gedtm30api.Base.{ℕ, ◌≡◌, ap, subst, ◌∙◌, none, some, List}
use gedtm30api.Base.Run.{ok}
use gedtm30api.Geo.Floats.{Floats}
use gedtm30api.Vrt.{Text, Vrt}
use gedtm30api.Vrt.Handles.{Handles, SourceEntry, lru_get}
use gedtm30api.Vrt.Handles.Spec.{Holds, lookup, touch}
use gedtm30api.Vrt.Handles.Refinement.{lru_get-touch}
use gedtm30api.Vrt.Mosaic.{World, Env, get_source_geo, on_handles}

module _ {F G : Type 0} (fl : Floats F G) (v : Vrt F) {R C S : Type 0} (env : Env R C S) where
  get_open :
      (s : Text) (w : World F R C S) (i : ℕ) (h' : Handles ℕ)
      → lru_get s w.handles ≡ (ok (some i), h')
      → get_source_geo fl v env s w ≡ (ok i, record w { handles = h' })
  unfolding get_source_geo on_handles
  get_open s w i h' run = rw run

  -- getSourceGeo of a source that is among the open ones returns the GeoTIFF that was opened, without a
  -- call of the reader factory: nothing changes but the order of use, in which the source comes first.
  pub get_source_geo-open :
      (s : Text) (w : World F R C S) (es : List (SourceEntry ℕ)) (i : ℕ)
      → Holds w.handles es
      → lookup s es ≡ some i
      → (h' : Handles ℕ) × (get_source_geo fl v env s w ≡ (ok i, record w { handles = h' }))
        × Holds h' (touch s es)
  get_source_geo-open s w es i holds found =
      let (h', run, holds', max) = lru_get-touch w.handles es s holds in
      (h', get_open s w i h' (run ∙ ap (λ o. (ok o, h')) found), holds')

  -- A lookup of a source that is not open changes nothing that is held.
  lru_get-none :
      (s : Text) (h : Handles ℕ) (es : List (SourceEntry ℕ))
      → Holds h es
      → lookup s es ≡ none
      → (h' : Handles ℕ) × (lru_get s h ≡ (ok none, h'))
        × Holds h' es
        × (h'.max_sources ≡ h.max_sources)
  lru_get-none s h es holds missing =
      let (h', run, holds', max) = lru_get-touch h es s holds in
      let still : touch s es ≡ es = rw missing in
      (h', run ∙ ap (λ o. (ok o, h')) missing, subst (Holds h') still holds', max)
