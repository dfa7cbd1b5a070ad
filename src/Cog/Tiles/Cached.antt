-- ===== src/Cog/Tiles/Cached.antt =====
-- A tile is read once while the cache keeps it.
use gedtm30api.Base.{ℕ, ◌≡◌, some, List}
use gedtm30api.Cog.{Tile, TileCache}

-- A cache that still has a tile directly after it was put there, and that a lookup leaves as it is.
abbrev pub Keeps : {C : Type 0} → TileCache C → Type 0
Keeps {C} cache =
    (key : List ℕ) (t : Tile) (c : C)
    → cache.get key (cache.set key t c) ≡ (some t, cache.set key t c)
