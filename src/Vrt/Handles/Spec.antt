-- ===== src/Vrt/Handles/Spec.antt =====
-- The promise of the opened sources: a list of named values, most recently used first.
use gedtm30api.Base.{
  ℕ, ◌≤◌, ◌<◌, ◌≡◌, ◌≢◌, Option, none, some, List, [], ◌∷◌, map, length, take, All, if◌then◌else◌,
}
use gedtm30api.Vrt.{Text}
use gedtm30api.Vrt.Text.{same}
use gedtm30api.Vrt.Handles.{SourceEntry, Handles}

-- An element: its address and its value.
abbrev pub Element : Type 0 → Type 0
Element Q = ℕ × SourceEntry Q

module _ {Q : Type 0} where
  abbrev pub named : Text → Q → SourceEntry Q
  named s g = record { filename = s; geo = g }

  abbrev pub lookup : Text → List (SourceEntry Q) → Option Q
  lookup s [] = none
  lookup s (e ∷ es) = if same s e.filename then some e.geo else lookup s es

  abbrev pub without : Text → List (SourceEntry Q) → List (SourceEntry Q)
  without s [] = []
  without s (e ∷ es) = if same s e.filename then es else e ∷ without s es

  -- A lookup that finds a value brings it to the front.
  abbrev to_front : Text → Option Q → List (SourceEntry Q) → List (SourceEntry Q)
  to_front s none es = es
  to_front s (some g) es = named s g ∷ without s es

  abbrev pub touch : Text → List (SourceEntry Q) → List (SourceEntry Q)
  touch s es = to_front s (lookup s es) es

  -- A new name goes to the front, and what is beyond `max` is forgotten.
  abbrev insert : ℕ → Text → Q → Option Q → List (SourceEntry Q) → List (SourceEntry Q)
  insert max s g none es = take max (named s g ∷ es)
  insert max s g (some old) es = named s g ∷ without s es

  abbrev pub store : ℕ → Text → Q → List (SourceEntry Q) → List (SourceEntry Q)
  store max s g es = insert max s g (lookup s es) es

  abbrev pub addresses : List (Element Q) → List ℕ
  addresses xs = map (λ x. x.0) xs

  abbrev pub values : List (Element Q) → List (SourceEntry Q)
  values xs = map (λ x. x.1) xs

  abbrev pub find : Text → List (Element Q) → Option ℕ
  find s [] = none
  find s (x ∷ xs) = if same s x.1.filename then some x.0 else find s xs

  abbrev pub drop_name : Text → List (Element Q) → List (Element Q)
  drop_name s [] = []
  drop_name s (x ∷ xs) = if same s x.1.filename then xs else x ∷ drop_name s xs

  abbrev pub Apart : Element Q → Element Q → Type 0
  Apart x y = (y.0 ≢ x.0) × (y.1.filename ≢ x.1.filename)

  abbrev pub Distinct : List (Element Q) → Type 0
  Distinct [] = Unit
  Distinct (x ∷ xs) = All (Apart x) xs × Distinct xs

  abbrev pub IsStored : Handles Q → Element Q → Type 0
  IsStored h x = (h.entries x.0 ≡ some x.1) × (x.0 < h.next)

  -- The elements of the list are `xs`, the map knows exactly them, and each has its own address and name.
  pub record Links (h : Handles Q) (xs : List (Element Q)) : Type 0 where
    pub order : h.source_lru ≡ addresses xs
    pub stored : All (IsStored h) xs
    pub names : (s : Text) → h.source_readers s ≡ find s xs
    pub distinct : Distinct xs

  -- The handles hold the named values `es`, in this order and within the bound.
  pub record Holds (h : Handles Q) (es : List (SourceEntry Q)) : Type 0 where
    pub elements : List (Element Q)
    pub links : Links h elements
    pub shown : values elements ≡ es
    pub bounded : length es ≤ h.max_sources
