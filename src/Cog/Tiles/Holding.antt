-- ===== src/Cog/Tiles/Holding.antt =====
-- `getTileData` over a cache that holds tiles of the image.
use gedtm30api.Base.{ℕ, ◌<◌, ◌≡◌, refl, ap, inl, inr, some, List, length, Option-cases}
use gedtm30api.Base.Int.{pos, two63}
use gedtm30api.Base.Run.{ok}
use gedtm30api.Source.Parallel.Agreement.{IsSchedule}
use gedtm30api.Source.Parallel.Settings.{IsUsable}
use gedtm30api.Source.Serves.{Serves, IsInside}
use gedtm30api.Cog.{GeoTiff, Tile, TileCache, World, Env}
use gedtm30api.Cog.Key.{cache_key}
use gedtm30api.Cog.Key.Distinct.{cache_key_number}
use gedtm30api.Cog.Image.{Image, IsImage, tile_words}
use gedtm30api.Cog.Tiles.{found_or_loaded, store, get_tile_data}
use gedtm30api.Cog.Tiles.Stored.{samples, IsDecodable, IsStored, load_tile-tile_words}

-- What the code relies on in its cache: a value that is found was put there under its key. `V` says
-- which values may be put under a key, and `Q` which caches hold only such.
pub record Remembers {C : Type 0} (cache : TileCache C) (V : List ℕ → Tile → Type 0)
    (Q : C → Type 0) : Type 0 where
  pub found : (key : List ℕ) (c : C) (t : Tile) → Q c → (cache.get key c).0 ≡ some t → V key t
  pub kept : (key : List ℕ) (c : C) → Q c → Q (cache.get key c).1
  pub stored : (key : List ℕ) (t : Tile) (c : C) → Q c → V key t → Q (cache.set key t c)

-- The value under a key of this file is the tile of the image with that number.
abbrev pub IsTile : {F : Type 0} → GeoTiff F → Image → List ℕ → Tile → Type 0
IsTile g image key t =
    (n : ℕ) → key ≡ cache_key g.cache_key_prefix (pos n) → t ≡ samples g (tile_words g image n)

-- A cache may hold the tiles of several files: what it holds tells the tiles of this one, and any of
-- them may be put into it.
pub record Tells {F : Type 0} (g : GeoTiff F) (image : Image) (V : List ℕ → Tile → Type 0)
    : Type 0 where
  pub sound : (key : List ℕ) (t : Tile) → V key t → IsTile g image key t
  pub own : (n : ℕ) → V (cache_key g.cache_key_prefix (pos n)) (samples g (tile_words g image n))

pub own-IsTile :
    {F : Type 0} (g : GeoTiff F) (image : Image) (n : ℕ)
    → IsTile g image (cache_key g.cache_key_prefix (pos n)) (samples g (tile_words g image n))
own-IsTile g image n m same =
    ap (λ k. samples g (tile_words g image k)) (cache_key_number g.cache_key_prefix n m same)

pub IsTile-Tells : {F : Type 0} (g : GeoTiff F) (image : Image) → Tells g image (IsTile g image)
IsTile-Tells g image = record { sound = λ key t v. v; own = own-IsTile g image }

module _ {F : Type 0} (g : GeoTiff F) {R C : Type 0} (env : Env R C) {P : R → Type 0}
    {Q : C → Type 0} (file : List ℕ) (small : length file < two63)
    (serves : Serves env.reader P file (IsInside file)) (usable : IsUsable env.settings)
    (sched : IsSchedule env.order) (image : Image) (words : IsImage image) (h : IsDecodable g)
    {V : List ℕ → Tile → Type 0} (tells : Tells g image V) (holds : Remembers env.cache V Q) where
  -- The tile comes back, from the cache or from the file, and the cache goes on holding tiles.
  pub get_tile_data-tile_words :
      (n : ℕ) (w : World R C)
      → P w.reader
      → Q w.cache
      → IsStored g env.inflate file image n
      → (w' : World R C) × (get_tile_data g env (pos n) w
          ≡ (ok (samples g (tile_words g image n)), w'))
        × P w'.reader
        × Q w'.cache
  unfolding get_tile_data found_or_loaded store
  get_tile_data-tile_words n w p q st =
      let key = cache_key g.cache_key_prefix (pos n) in
      let c' = (env.cache.get key w.cache).1 in
      let q' = holds.kept key w.cache q in
      elim (Option-cases (env.cache.get key w.cache).0) [
        | inl miss ↦
            let (r', load, p') =
              load_tile-tile_words g env file small serves usable sched image words h n w.reader p
                st in
            let t = samples g (tile_words g image n) in
            (
              record { reader = r'; cache = env.cache.set key t c' },
              rw (miss, load),
              p',
              holds.stored key t c' q' (tells.own n),
            )
        | inr (t, hit) ↦ (
          record w { cache = c' },
          rw hit (
              ap (λ v. (ok v, record w { cache = c' }))
                (tells.sound key t (holds.found key w.cache t q hit) n refl)),
          p,
          q',
        )
      ]
