-- ===== src/Cog/Loc/Around.antt =====
-- The tiles around a tile, and the steps to them.
use gedtm30api.Base.{
  All-append, ℕ, ◌+◌, ◌*◌, ◌/◌, ◌%◌, ◌≤◌, ◌<◌, ◌≡◌, ◌≢◌, refl, inl, inr, ◌⊎◌, ◌&&◌, List, [], ◌∷◌,
  All, arith, ltb, ◌==◌, Bool-cases,
}
use gedtm30api.Base.Int.{ℤ, pos, negsuc, ◌+ℤ◌}
use gedtm30api.Cog.{GeoTiff}
use gedtm30api.Cog.Open.{tiles_to_cover}
use gedtm30api.Cog.Loc.{neighbor_at, neighbor, neighbors_of, neighbors, neighbor_steps}

-- A tile of a grid of `across` by `rows` that touches the tile (`tx`, `ty`) at a side or a corner.
pub record IsNeighbor (across rows tx ty n : ℕ) : Type 0 where
  pub x : ℕ
  pub y : ℕ
  pub number : n ≡ y * across + x
  pub inside_x : x < across
  pub inside_y : y < rows
  pub near_x : (x ≤ tx + 1) × (tx ≤ x + 1)
  pub near_y : (y ≤ ty + 1) × (ty ≤ y + 1)
  pub other : (x ≢ tx) ⊎ (y ≢ ty)

pub back_one : (t x : ℕ) → (pos t +ℤ negsuc 0) ≡ pos x → x + 1 ≡ t
unfolding ◌+ℤ◌
back_one t x h = ground arith

pub stay : (t x : ℕ) → (pos t +ℤ pos 0) ≡ pos x → x ≡ t
unfolding ◌+ℤ◌
stay t x h = ground arith

pub on_one : (t x : ℕ) → (pos t +ℤ pos 1) ≡ pos x → x ≡ t + 1
unfolding ◌+ℤ◌
on_one t x h = ground arith

module _ (across rows tx ty : ℕ) where
  -- Where a step leads.
  abbrev Near : ℕ → ℕ → Type 0
  Near x y = ((x ≤ tx + 1) × (tx ≤ x + 1)) × ((y ≤ ty + 1) × (ty ≤ y + 1)) × ((x ≢ tx) ⊎ (y ≢ ty))

  neighbor_at-All :
      (a b : ℤ)
      → ((x y : ℕ) → a ≡ pos x → b ≡ pos y → Near x y)
      → All (IsNeighbor across rows tx ty) (neighbor_at across rows a b)
  unfolding neighbor_at
  neighbor_at-All (pos x) (pos y) near = elim (Bool-cases (ltb x across && ltb y rows)) [
    | inl here ↦
        let (near_x, near_y, other) = near x y refl refl in
        rw here (
          record {
            x = x;
            y = y;
            number = refl;
            inside_x = ground arith;
            inside_y = ground arith;
            near_x = near_x;
            near_y = near_y;
            other = other;
          },
          tt,
        )
    | inr out ↦ rw out tt
  ]
  neighbor_at-All (pos x) (negsuc y) near = tt
  neighbor_at-All (negsuc x) b near = tt

  abbrev Leads : ℤ × ℤ → Type 0
  Leads s = (x y : ℕ) → (pos tx +ℤ s.0) ≡ pos x → (pos ty +ℤ s.1) ≡ pos y → Near x y

  neighbors_of-All :
      (steps : List (ℤ × ℤ))
      → All Leads steps
      → All (IsNeighbor across rows tx ty) (neighbors_of across rows tx ty steps)
  unfolding neighbors_of neighbor
  neighbors_of-All [] leads = tt
  neighbors_of-All ((i, j) ∷ steps) leads =
      All-append (IsNeighbor across rows tx ty)
        (neighbor_at across rows (pos tx +ℤ i) (pos ty +ℤ j)) (neighbors_of across rows tx ty steps)
        (neighbor_at-All (pos tx +ℤ i) (pos ty +ℤ j) leads.0) (neighbors_of-All steps leads.1)

-- One step along an axis from `t`, back, none or on.
pub went_back : (t x : ℕ) → (pos t +ℤ negsuc 0) ≡ pos x → ((x ≤ t + 1) × (t ≤ x + 1)) × (x ≢ t)
went_back t x h = let e = back_one t x h in ((omega arith, omega arith), λ q. omega arith)

pub stayed : (t x : ℕ) → (pos t +ℤ pos 0) ≡ pos x → (x ≤ t + 1) × (t ≤ x + 1)
stayed t x h = let e = stay t x h in (omega arith, omega arith)

pub went_on : (t x : ℕ) → (pos t +ℤ pos 1) ≡ pos x → ((x ≤ t + 1) × (t ≤ x + 1)) × (x ≢ t)
went_on t x h = let e = on_one t x h in ((omega arith, omega arith), λ q. omega arith)

pub neighbor_steps-Leads : (across rows tx ty : ℕ) → All (Leads across rows tx ty) neighbor_steps
neighbor_steps-Leads across rows tx ty = (
  λ x y h k. ((went_back tx x h).0, (went_back ty y k).0, inl (went_back tx x h).1),
  (
    λ x y h k. (stayed tx x h, (went_back ty y k).0, inr (went_back ty y k).1),
    (
      λ x y h k. ((went_on tx x h).0, (went_back ty y k).0, inl (went_on tx x h).1),
      (
        λ x y h k. ((went_back tx x h).0, stayed ty y k, inl (went_back tx x h).1),
        (
          λ x y h k. ((went_on tx x h).0, stayed ty y k, inl (went_on tx x h).1),
          (
            λ x y h k. ((went_back tx x h).0, (went_on ty y k).0, inl (went_back tx x h).1),
            (
              λ x y h k. (stayed tx x h, (went_on ty y k).0, inr (went_on ty y k).1),
              (λ x y h k. ((went_on tx x h).0, (went_on ty y k).0, inl (went_on tx x h).1), tt),
            ),
          ),
        ),
      ),
    ),
  ),
)

pub neighbors-IsNeighbor :
    {F : Type 0} (g : GeoTiff F) (n : ℕ)
    → All
        (IsNeighbor g.tiles_across
          (tiles_to_cover g.image_length g.tile_length)
          (n % g.tiles_across)
          (n / g.tiles_across))
        (neighbors g n)
unfolding neighbors
neighbors-IsNeighbor g n = elim (Bool-cases (g.tiles_across == 0)) [
  | inl empty ↦ rw empty tt
  | inr tiled ↦
      let rows = tiles_to_cover g.image_length g.tile_length in
      let x = n % g.tiles_across in
      let y = n / g.tiles_across in
      rw tiled (
        neighbors_of-All g.tiles_across rows x y neighbor_steps
          (neighbor_steps-Leads g.tiles_across rows x y))
]
