-- ===== src/Vrt/Handles/Front.antt =====
-- The element of a name, brought to the front of the list.
use gedtm30api.Base.{
  All-at, ℕ, zero, suc, ◌<◌, ◌≡◌, refl, ap, sym, ◌∙◌, inl, inr, some, List, [], ◌∷◌, length, take,
  All, arith, ne→==, Bool-cases,
}
use gedtm30api.Vrt.{Text}
use gedtm30api.Vrt.Text.{same}
use gedtm30api.Vrt.Handles.{Handles, new_handles, move_to_front, update}
use gedtm30api.Vrt.Handles.Spec.{
  named, Element, addresses, values, find, drop_name, Apart, IsStored, Links, Holds,
}
use gedtm30api.Vrt.Handles.Pull.{All-drop_name, Pulled}

module _ {Q : Type 0} where
  pub map-take : (n : ℕ) (xs : List (Element Q)) → values (take n xs) ≡ take n (values xs)
  map-take zero xs = refl
  map-take (suc n) [] = refl
  map-take (suc n) (x ∷ xs) = ap (◌∷◌ x.1) (map-take n xs)

  pub length-drop_name :
      (s : Text) (xs : List (Element Q)) (el : ℕ)
      → find s xs ≡ some el
      → suc (length (drop_name s xs)) ≡ length xs
  length-drop_name s [] el h = cc
  length-drop_name s (x ∷ xs) el h = elim (Bool-cases (same s x.1.filename)) [
    | inl here ↦ rw here
    | inr there ↦ rw there (ap suc (length-drop_name s xs el (sym (rw there) ∙ h)))
  ]

  -- No source is open at first.
  pub new_handles-Holds : (n : ℕ) → Holds (new_handles {Q = Q} n) []
  unfolding new_handles
  new_handles-Holds n = record {
    elements = [];
    links = record { order = refl; stored = tt; names = λ s. refl; distinct = tt };
    shown = refl;
    bounded = omega arith;
  }

  module _ (h : Handles Q) (xs : List (Element Q)) (links : Links h xs) (s : Text)
      (p : Pulled s xs) where
    pub el-IsStored : IsStored h (p.el, p.entry)
    el-IsStored = All-at (IsStored h) xs p.at (p.el, p.entry) links.stored p.is_at

    pub moved : List (Element Q)
    moved = (p.el, p.entry) ∷ drop_name s xs

    pub front-order : move_to_front p.el h.source_lru ≡ addresses ((p.el, p.entry) ∷ drop_name s xs)
    front-order = rw (links.order, p.member) (ap (◌∷◌ p.el) p.rest)

    pub entry-named : p.entry ≡ named s p.entry.geo
    entry-named = ap (λ f. named f p.entry.geo) p.name

    pub front-Links :
        Links
          (record h { source_lru = move_to_front p.el h.source_lru })
          ((p.el, p.entry) ∷ drop_name s xs)
    front-Links = record {
      order = front-order;
      stored = (el-IsStored, All-drop_name (IsStored h) s xs links.stored);
      names = λ t. links.names t ∙ sym (p.finds t);
      distinct = (p.apart, p.distinct);
    }

    -- The value of an element that is open is replaced.
    pub update-IsStored :
        (g : Q) (ys : List (Element Q))
        → All (Apart (p.el, p.entry)) ys
        → All (IsStored h) ys
        → All
            (λ y.
              (update h.entries p.el (some (record p.entry { geo = g })) y.0 ≡ some y.1)
              × (y.0 < h.next))
            ys
    update-IsStored g [] aparts stored = tt
    update-IsStored g (y ∷ ys) aparts stored = (
      (rw (ne→== y.0 p.el aparts.0.0) stored.0.0, stored.0.1),
      update-IsStored g ys aparts.1 stored.1,
    )

    pub replaced-Links :
        (g : Q)
        → Links
            (record h {
              entries = update h.entries p.el (some (record p.entry { geo = g }));
              source_lru = move_to_front p.el h.source_lru;
            })
            ((p.el, record p.entry { geo = g }) ∷ drop_name s xs)
    replaced-Links g = record {
      order = front-order;
      stored = (
        (ground arith, el-IsStored.1),
        update-IsStored g (drop_name s xs) p.apart (All-drop_name (IsStored h) s xs links.stored),
      );
      names = λ t. links.names t ∙ sym (p.finds t);
      distinct = (p.apart, p.distinct);
    }
