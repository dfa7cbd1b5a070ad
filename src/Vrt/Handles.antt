-- ===== src/Vrt/Handles.antt =====
-- The opened sources of a mosaic (`sourceReaders`, `sourceLRU`, `lruGet`, `lruPut`): a map to the
-- elements of a list, most recently used first, and a bound on the number of elements.
pub mod Front
pub mod Spec
pub mod Lookup
pub mod Pull
pub mod Evict
pub mod Refinement
use gedtm30api.Base.{
  ℕ, zero, suc, ◌+◌, ◌-◌, Bool, true, false, Option, none, some, List, [], ◌∷◌, ◌++◌, length, leb,
  ltb, ◌==◌, if◌then◌else◌,
}
use gedtm30api.Base.Run.{Run, ok, panic}
use gedtm30api.Base.Io.{Io, pure}
use gedtm30api.Vrt.{Text}
use gedtm30api.Vrt.Text.{same}

-- `sourceEntry`, the value of an element.
pub record SourceEntry (Q : Type 0) : Type 0 where
  pub filename : Text
  pub geo : Q

-- `entries` holds the value of each element that was made, `next` is the address of the next one;
-- `source_lru` holds the addresses of the elements of the list from front to back.
pub record Handles (Q : Type 0) : Type 0 where
  pub entries : ℕ → Option (SourceEntry Q)
  pub next : ℕ
  pub source_readers : Text → Option ℕ
  pub source_lru : List ℕ
  pub max_sources : ℕ

abbrev pub update : {V : Type 0} → (ℕ → V) → ℕ → V → ℕ → V
update f k v i = if i == k then v else f i

abbrev pub update_name : {V : Type 0} → (Text → V) → Text → V → Text → V
update_name f k v s = if same s k then v else f s

abbrev pub remove : ℕ → List ℕ → List ℕ
remove el [] = []
remove el (p ∷ ps) = if p == el then ps else p ∷ remove el ps

abbrev is_in : ℕ → List ℕ → Bool
is_in el [] = false
is_in el (p ∷ ps) = if p == el then true else is_in el ps

-- `List.MoveToFront`; an element that is not in the list stays out of it.
abbrev pub move_to_front : ℕ → List ℕ → List ℕ
move_to_front el ps = if is_in el ps then el ∷ remove el ps else ps

-- The last element, and the list without it.
abbrev pub back : List ℕ → Option (ℕ × List ℕ)
back [] = none
back (p ∷ ps) = elim (back ps) [ none ↦ some (p, []) | some (q, qs) ↦ some (q, p ∷ qs) ]

module _ {Q : Type 0} where
  pub new_handles : ℕ → Handles Q
  new_handles max_sources = record {
    entries = λ i. none;
    next = 0;
    source_readers = λ s. none;
    source_lru = [];
    max_sources = max_sources;
  }

  geo_of : Option (SourceEntry Q) → Run (Option Q)
  geo_of (some e) = ok (some e.geo)
  geo_of none = panic

  get_element : Option ℕ → Io (Handles Q) (Option Q)
  get_element none h = (ok none, h)
  get_element (some el) h =
      (geo_of (h.entries el), record h { source_lru = move_to_front el h.source_lru })

  -- `lruGet`
  pub lru_get : Text → Io (Handles Q) (Option Q)
  lru_get filename h = get_element (h.source_readers filename) h

  drop_entry : ℕ → List ℕ → Option (SourceEntry Q) → Io (Handles Q) (Unit {0})
  drop_entry el rest none h = (panic, h)
  drop_entry el rest (some e) h = (
    ok tt,
    record h { source_lru = rest; source_readers = update_name h.source_readers e.filename none },
  )

  evict_back : Option (ℕ × List ℕ) → Io (Handles Q) (Unit {0})
  evict_back none h = (ok tt, h)
  evict_back (some (el, rest)) h = drop_entry el rest (h.entries el) h

  continue_eviction :
      (Io (Handles Q) (Unit {0})) → Run (Unit {0}) × Handles Q → Run (Unit {0}) × Handles Q
  continue_eviction more (ok u, h) = more h
  continue_eviction more (r, h) = (r, h)

  -- The loop of `lruPut`: each round shortens the list, so its length is enough fuel.
  pub evict : ℕ → Io (Handles Q) (Unit {0})
  evict zero h = (ok tt, h)
  evict (suc fuel) h =
      let next = continue_eviction (evict fuel) (evict_back (back h.source_lru) h) in
      if leb (length h.source_lru) h.max_sources then (ok tt, h) else next

  replace : ℕ → Q → Option (SourceEntry Q) → Io (Handles Q) (Unit {0})
  replace el geo none h = (panic, h)
  replace el geo (some e) h = (
    ok tt,
    record h {
      entries = update h.entries el (some (record e { geo = geo }));
      source_lru = move_to_front el h.source_lru;
    },
  )

  push_front : Text → Q → Handles Q → Handles Q
  push_front filename geo h = record h {
    entries = update h.entries h.next (some (record { filename = filename; geo = geo }));
    next = suc h.next;
    source_readers = update_name h.source_readers filename (some h.next);
    source_lru = h.next ∷ h.source_lru;
  }

  put_element : Option ℕ → Text → Q → Io (Handles Q) (Unit {0})
  put_element (some el) filename geo h = replace el geo (h.entries el) h
  put_element none filename geo h =
      let pushed = push_front filename geo h in evict (length pushed.source_lru) pushed

  -- `lruPut`
  pub lru_put : Text → Q → Io (Handles Q) (Unit {0})
  lru_put filename geo h = put_element (h.source_readers filename) filename geo h
