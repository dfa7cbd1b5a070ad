-- ===== src/Vrt/Handles/Refinement.antt =====
-- The map and the list of the opened sources implement the list of named values.
use gedtm30api.Base.{
  ℕ, ◌+◌, ◌≤◌, ◌≡◌, ◌≢◌, refl, ap, ap₂, sym, ◌∙◌, inl, inr, false, none, some, List, [], ◌∷◌,
  length, take, All, if◌then◌else◌, arith, ◌==◌, ne→==, Option-cases, length-map, length-take,
}
use gedtm30api.Base.Run.{ok}
use gedtm30api.Vrt.{Text}
use gedtm30api.Vrt.Text.{same}
use gedtm30api.Vrt.Handles.{
  SourceEntry, Handles, lru_get, lru_put, get_element, geo_of, put_element, replace, push_front,
  evict, move_to_front, update,
}
use gedtm30api.Vrt.Handles.Spec.{
  named, lookup, without, touch, store, Element, values, find, drop_name, Apart, IsStored, Links,
  Holds,
}
use gedtm30api.Vrt.Handles.Pull.{values-drop_name, Pulled, pull, find-none-lookup, find-none-names}
use gedtm30api.Vrt.Handles.Evict.{evict-Links}
use gedtm30api.Vrt.Handles.Front.{
  map-take, length-drop_name, el-IsStored, entry-named, front-Links, replaced-Links,
}

module _ {Q : Type 0} where
  module _ (h : Handles Q) (s : Text) where
    get-hit :
        (el : ℕ) (e : SourceEntry Q)
        → h.source_readers s ≡ some el
        → h.entries el ≡ some e
        → lru_get s h ≡ (ok (some e.geo), record h { source_lru = move_to_front el h.source_lru })
    unfolding lru_get get_element geo_of
    get-hit el e found stored = rw (found, stored)

    get-miss : h.source_readers s ≡ none → lru_get s h ≡ (ok none, h)
    unfolding lru_get get_element
    get-miss missing = rw missing

  get_found :
      (h : Handles Q) (es : List (SourceEntry Q)) (s : Text) (holds : Holds h es)
      → Pulled s holds.elements
      → (h' : Handles Q) × (lru_get s h ≡ (ok (lookup s es), h'))
        × Holds h' (touch s es)
        × (h'.max_sources ≡ h.max_sources)
  get_found h es s holds p =
      let xs = holds.elements in
      let known : lookup s es ≡ some p.entry.geo = ap (lookup s) (sym holds.shown) ∙ p.value in
      let size = length-drop_name s xs p.el p.found in
      let rest : values (drop_name s xs) ≡ without s es =
        values-drop_name s xs ∙ ap (without s) holds.shown in
      let fits : length (values (drop_name s xs)) + 1 ≤ h.max_sources = omega (
        arith,
        holds.bounded,
        ap length holds.shown,
        length-map xs (λ x. x.1),
        length-map (drop_name s xs) (λ x. x.1),
        size,
      ) in
      (
        record h { source_lru = move_to_front p.el h.source_lru },
        rw known (
            get-hit h s p.el p.entry (holds.links.names s ∙ p.found)
              (el-IsStored h xs holds.links s p).0),
        rw known (record {
          elements = (p.el, p.entry) ∷ drop_name s xs;
          links = front-Links h xs holds.links s p;
          shown = ap₂ ◌∷◌ (entry-named h xs holds.links s p) rest;
          bounded = omega (arith, fits, ap length rest);
        }),
        refl,
      )

  -- lruGet on handles that hold a list of named values returns the value of the name, if there is
  -- one, does not panic, and leaves the same values, the one that it found in front.
  pub lru_get-touch :
      (h : Handles Q) (es : List (SourceEntry Q)) (s : Text)
      → Holds h es
      → (h' : Handles Q) × (lru_get s h ≡ (ok (lookup s es), h'))
        × Holds h' (touch s es)
        × (h'.max_sources ≡ h.max_sources)
  lru_get-touch h es s holds =
      let xs = holds.elements in
      elim (Option-cases (find s xs)) [
        | inl missing ↦
            let unknown : lookup s es ≡ none =
              ap (lookup s) (sym holds.shown) ∙ find-none-lookup s xs missing in
            (h, rw unknown (get-miss h s (holds.links.names s ∙ missing)), rw unknown holds, refl)
        | inr (el, found) ↦ get_found h es s holds (pull s xs el holds.links.distinct found)
      ]

  module _ (h : Handles Q) (s : Text) (g : Q) where
    put-hit :
        (el : ℕ) (e : SourceEntry Q)
        → h.source_readers s ≡ some el
        → h.entries el ≡ some e
        → lru_put s g h ≡ (
          ok tt,
          record h {
            entries = update h.entries el (some (record e { geo = g }));
            source_lru = move_to_front el h.source_lru;
          },
        )
    unfolding lru_put put_element replace
    put-hit el e found stored = rw (found, stored)

    put-miss :
        h.source_readers s ≡ none
        → lru_put s g h ≡ evict (length (push_front s g h).source_lru) (push_front s g h)
    unfolding lru_put put_element
    put-miss missing = rw missing

    pushed-IsStored :
        (xs : List (Element Q)) → All (IsStored h) xs → All (IsStored (push_front s g h)) xs
    unfolding push_front
    pushed-IsStored [] stored = tt
    pushed-IsStored (x ∷ xs) stored =
        let old : (x.0 == h.next) ≡ false = ne→== x.0 h.next (λ e. omega (arith, stored.0.1)) in
        ((rw old stored.0.0, omega (arith, stored.0.1)), pushed-IsStored xs stored.1)

    pushed-Apart :
        (xs : List (Element Q))
        → All (IsStored h) xs
        → All (λ x. x.1.filename ≢ s) xs
        → All (Apart (h.next, named s g)) xs
    pushed-Apart [] stored others = tt
    pushed-Apart (x ∷ xs) stored others =
        ((λ e. omega (arith, stored.0.1), others.0), pushed-Apart xs stored.1 others.1)

    pushed-Links :
        (xs : List (Element Q))
        → Links h xs
        → find s xs ≡ none
        → Links (push_front s g h) ((h.next, named s g) ∷ xs)
    unfolding push_front
    pushed-Links xs links missing = record {
      order = ap (◌∷◌ h.next) links.order;
      stored = ((ground arith, omega arith), pushed-IsStored xs links.stored);
      names = λ t. ap (λ r. if same t s then some h.next else r) (links.names t);
      distinct = (pushed-Apart xs links.stored (find-none-names s xs missing), links.distinct);
    }

  put_found :
      (h : Handles Q) (es : List (SourceEntry Q)) (s : Text) (g : Q) (holds : Holds h es)
      → Pulled s holds.elements
      → (h' : Handles Q) × (lru_put s g h ≡ (ok tt, h'))
        × Holds h' (store h.max_sources s g es)
        × (h'.max_sources ≡ h.max_sources)
  put_found h es s g holds p =
      let xs = holds.elements in
      let known : lookup s es ≡ some p.entry.geo = ap (lookup s) (sym holds.shown) ∙ p.value in
      let size = length-drop_name s xs p.el p.found in
      let rest : values (drop_name s xs) ≡ without s es =
        values-drop_name s xs ∙ ap (without s) holds.shown in
      let fits : length (values (drop_name s xs)) + 1 ≤ h.max_sources = omega (
        arith,
        holds.bounded,
        ap length holds.shown,
        length-map xs (λ x. x.1),
        length-map (drop_name s xs) (λ x. x.1),
        size,
      ) in
      (
        record h {
          entries = update h.entries p.el (some (record p.entry { geo = g }));
          source_lru = move_to_front p.el h.source_lru;
        },
        put-hit h s g p.el p.entry (holds.links.names s ∙ p.found)
            (el-IsStored h xs holds.links s p).0,
        rw known (record {
          elements = (p.el, record p.entry { geo = g }) ∷ drop_name s xs;
          links = replaced-Links h xs holds.links s p g;
          shown = ap₂ ◌∷◌ (ap (λ f. named f g) p.name) rest;
          bounded = omega (arith, fits, ap length rest);
        }),
        refl,
      )

  put_new :
      (h : Handles Q) (es : List (SourceEntry Q)) (s : Text) (g : Q) (holds : Holds h es)
      → find s holds.elements ≡ none
      → (h' : Handles Q) × (lru_put s g h ≡ (ok tt, h'))
        × Holds h' (store h.max_sources s g es)
        × (h'.max_sources ≡ h.max_sources)
  unfolding push_front
  put_new h es s g holds missing =
      let xs = holds.elements in
      let unknown : lookup s es ≡ none =
        ap (lookup s) (sym holds.shown) ∙ find-none-lookup s xs missing in
      let size : length h.source_lru ≡ length xs =
        ap length holds.links.order ∙ length-map xs (λ x. x.0) in
      let (h', run, links, max) =
        evict-Links (length (push_front s g h).source_lru) (push_front s g h)
          ((h.next, named s g) ∷ xs) (pushed-Links h s g xs holds.links missing)
          (omega (arith, size)) in
      let shown : values (take h.max_sources ((h.next, named s g) ∷ xs))
          ≡ take h.max_sources (named s g ∷ es) =
        map-take h.max_sources ((h.next, named s g) ∷ xs)
        ∙ ap (λ ys. take h.max_sources (named s g ∷ ys)) holds.shown in
      (
        h',
        put-miss h s g (holds.links.names s ∙ missing) ∙ run,
        rw unknown (record {
          elements = take h.max_sources ((h.next, named s g) ∷ xs);
          links = links;
          shown = shown;
          bounded = omega (arith, length-take h.max_sources (named s g ∷ es), max);
        }),
        max,
      )

  -- lruPut on handles that hold a bounded list of named values does not panic and leaves the
  -- value in front under its name: a name that was there is replaced, and for a new name the
  -- least recently used values give way until the bound is met. The map and the list keep
  -- naming the same sources.
  pub lru_put-store :
      (h : Handles Q) (es : List (SourceEntry Q)) (s : Text) (g : Q)
      → Holds h es
      → (h' : Handles Q) × (lru_put s g h ≡ (ok tt, h'))
        × Holds h' (store h.max_sources s g es)
        × (h'.max_sources ≡ h.max_sources)
  lru_put-store h es s g holds = elim (Option-cases (find s holds.elements)) [
    | inl missing ↦ put_new h es s g holds missing
    | inr (el, found) ↦
        put_found h es s g holds (pull s holds.elements el holds.links.distinct found)
  ]
