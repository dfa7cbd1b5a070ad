-- ===== src/Vrt/Handles/Evict.antt =====
-- The loop that evicts the least recently used sources.
use gedtm30api.Base.{
  ℕ, zero, suc, ◌+◌, ◌≤◌, ◌<◌, ◌≡◌, refl, ap, sym, subst, ◌∙◌, inl, inr, false, none, some, List,
  [], ◌∷◌, ◌++◌, length, take, All, if◌then◌else◌, arith, leb, Bool-cases, leb→le, leb→gt,
  length-append, length-map, take_of_length-le, take-append_le,
}
use gedtm30api.Base.Run.{ok}
use gedtm30api.Vrt.{Text}
use gedtm30api.Vrt.Text.{same, same→eq, ne→same}
use gedtm30api.Vrt.Handles.{
  Handles, back, update_name, evict, evict_back, drop_entry, continue_eviction,
}
use gedtm30api.Vrt.Handles.Spec.{Element, addresses, find, Apart, Distinct, IsStored, Links}

module _ {A : Type 0} where
  -- A list with its last element apart.
  pub record Snoc (xs : List A) : Type 0 where
    pub init : List A
    pub last : A
    pub split : xs ≡ init ++ (last ∷ [])

  snoc : (x : A) (xs : List A) → Snoc (x ∷ xs)
  snoc x [] = record { init = []; last = x; split = refl }
  snoc x (y ∷ ys) =
      let rest = snoc y ys in
      record { init = x ∷ rest.init; last = rest.last; split = ap (◌∷◌ x) rest.split }

  pub Snoc-of_length : (xs : List A) → 0 < length xs → Snoc xs
  Snoc-of_length [] h = absurd (omega arith)
  Snoc-of_length (x ∷ xs) h = snoc x xs

  pub All-snoc {κ} :
      (P : A → Type κ) (ys : List A) (y : A) → All P (ys ++ (y ∷ [])) → All P ys × P y
  All-snoc P [] y all = (tt, all.0)
  All-snoc P (x ∷ ys) y all = let (rest, last) = All-snoc P ys y all.1 in ((all.0, rest), last)

module _ {Q : Type 0} where
  back-addresses :
      (ys : List (Element Q)) (y : Element Q)
      → back (addresses (ys ++ (y ∷ []))) ≡ some (y.0, addresses ys)
  back-addresses [] y = refl
  back-addresses (x ∷ ys) y = rw (back-addresses ys y)

  Distinct-snoc :
      (ys : List (Element Q)) (y : Element Q)
      → Distinct (ys ++ (y ∷ []))
      → Distinct ys × All (λ x. Apart x y) ys
  Distinct-snoc [] y d = (tt, tt)
  Distinct-snoc (x ∷ ys) y d =
      let (there, last) = All-snoc (Apart x) ys y d.0 in
      let (rest, aparts) = Distinct-snoc ys y d.1 in ((there, rest), (last, aparts))

  -- Without the last name, the map knows the elements in front.
  find-snoc :
      (t : Text) (ys : List (Element Q)) (y : Element Q)
      → All (λ x. Apart x y) ys
      → (if same t y.1.filename then none else find t (ys ++ (y ∷ []))) ≡ find t ys
  find-snoc t [] y all = elim (Bool-cases (same t y.1.filename)) [
    | inl here ↦ rw here
    | inr there ↦ rw there
  ]
  find-snoc t (x ∷ ys) y all = elim (Bool-cases (same t x.1.filename)) [
    | inl here ↦
        let other : same t y.1.filename ≡ false =
          ne→same t y.1.filename (λ e. all.0.1 (sym e ∙ same→eq t x.1.filename here)) in
        rw (here, other)
    | inr there ↦ rw there (find-snoc t ys y all.1)
  ]

  -- One round of the loop takes the last element out of the list and its name out of the map.
  evict_back-Links :
      (h : Handles Q) (ys : List (Element Q)) (y : Element Q)
      → Links h (ys ++ (y ∷ []))
      → (h' : Handles Q) × (evict_back (back h.source_lru) h ≡ (ok tt, h'))
        × Links h' ys
        × (h'.max_sources ≡ h.max_sources)
  unfolding evict_back drop_entry
  evict_back-Links h ys y links =
      let (stored, last) = All-snoc (IsStored h) ys y links.stored in
      let (distinct, aparts) = Distinct-snoc ys y links.distinct in
      (
        record h {
          source_lru = addresses ys;
          source_readers = update_name h.source_readers y.1.filename none;
        },
        rw (links.order, back-addresses ys y, last.0),
        record {
          order = refl;
          stored = stored;
          names = λ t.
              ap (λ r. if same t y.1.filename then none else r) (links.names t)
              ∙ find-snoc t ys y aparts;
          distinct = distinct;
        },
        refl,
      )

  evict_stop :
      (fuel : ℕ) (h : Handles Q) → length h.source_lru ≤ h.max_sources → evict fuel h ≡ (ok tt, h)
  unfolding evict
  evict_stop zero h small = refl
  evict_stop (suc fuel) h small = ground arith

  evict_round :
      (fuel : ℕ) (h h' : Handles Q)
      → h.max_sources < length h.source_lru
      → evict_back (back h.source_lru) h ≡ (ok tt, h')
      → evict (suc fuel) h ≡ evict fuel h'
  unfolding evict continue_eviction
  evict_round fuel h h' large round = ground (arith, round)

  -- What the loop leaves of `xs`.
  abbrev pub Evicted : ℕ → Handles Q → List (Element Q) → Type 0
  Evicted fuel h xs =
      (h' : Handles Q) × (evict fuel h ≡ (ok tt, h'))
      × Links h' (take h.max_sources xs)
      × (h'.max_sources ≡ h.max_sources)

  lru-size : (h : Handles Q) (xs : List (Element Q)) → Links h xs → length h.source_lru ≡ length xs
  lru-size h xs links = ap length links.order ∙ length-map xs (λ x. x.0)

  evict_small :
      (fuel : ℕ) (h : Handles Q) (xs : List (Element Q))
      → Links h xs
      → length xs ≤ h.max_sources
      → Evicted fuel h xs
  evict_small fuel h xs links small = (
    h,
    evict_stop fuel h (omega (arith, lru-size h xs links)),
    subst (Links h) (sym (take_of_length-le h.max_sources xs small)) links,
    refl,
  )

  evict_large :
      (fuel : ℕ) (h : Handles Q) (xs : List (Element Q))
      → Links h xs
      → length xs ≤ suc fuel + h.max_sources
      → h.max_sources < length xs
      → ((h1 : Handles Q) (ys : List (Element Q))
          → Links h1 ys
          → length ys ≤ fuel + h1.max_sources
          → Evicted fuel h1 ys)
      → Evicted (suc fuel) h xs
  evict_large fuel h xs links room large rest =
      let size = lru-size h xs links in
      let last = Snoc-of_length xs (omega arith) in
      let len : length xs ≡ length last.init + 1 =
        ap length last.split ∙ length-append last.init (last.last ∷ []) in
      let (h1, round, links1, max1) =
        evict_back-Links h last.init last.last (subst (Links h) last.split links) in
      let (h2, more, links2, max2) = rest h1 last.init links1 (omega (arith, len, max1)) in
      let same_front : take h1.max_sources last.init ≡ take h.max_sources xs =
        ap (λ n. take n last.init) max1
        ∙ sym (take-append_le h.max_sources last.init (last.last ∷ []) (omega (arith, len)))
        ∙ ap (take h.max_sources) (sym last.split) in
      (
        h2,
        evict_round fuel h h1 (omega (arith, size)) round ∙ more,
        subst (Links h2) same_front links2,
        max2 ∙ max1,
      )

  -- With a round for each element beyond the bound, the loop ends and leaves the first ones, up to
  -- the bound.
  pub evict-Links :
      (fuel : ℕ) (h : Handles Q) (xs : List (Element Q))
      → Links h xs
      → length xs ≤ fuel + h.max_sources
      → Evicted fuel h xs
  evict-Links zero h xs links room = evict_small 0 h xs links (omega arith)
  evict-Links (suc fuel) h xs links room = elim (Bool-cases (leb (length xs) h.max_sources)) [
    | inl small ↦ evict_small (suc fuel) h xs links (leb→le _ _ small)
    | inr large ↦ evict_large fuel h xs links room (leb→gt _ _ large) (evict-Links fuel)
  ]
