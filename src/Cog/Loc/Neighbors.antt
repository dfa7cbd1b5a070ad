-- ===== src/Cog/Loc/Neighbors.antt =====
-- The tiles that `prefetchNeighbors` asks for.
use gedtm30api.Base.{ℕ, ◌≡◌, List, some, get_elem?}

-- A number of a list.
abbrev pub IsListed : ℕ → List ℕ → Type 0
IsListed n ns = (i : ℕ) × (get_elem? ns i ≡ some n)
