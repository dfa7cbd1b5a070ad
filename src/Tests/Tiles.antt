-- ===== src/Tests/Tiles.antt =====
-- Tiles in a cache, and around a tile.
use gedtm30api.Base.{ℕ, ◌≡◌, refl, Option, none, some, List, [], ◌∷◌, if◌then◌else◌}
use gedtm30api.Base.Int.{ℤ}
use gedtm30api.Base.Run.{ok}
use gedtm30api.Bytes.{little_endian}
use gedtm30api.Source.Memory.{Memory, memory}
use gedtm30api.Pixels.{decode_words}
use gedtm30api.Cog.{GeoTiff, Tile, floats, TileCache, Env}
use gedtm30api.Cog.Open.{lzw}
use gedtm30api.Cog.Key.Distinct.{hash, cache_key_inj}
use gedtm30api.Vrt.Text.{same}
use gedtm30api.Tests.Images.{four_by_five}

abbrev pub Entries : Type 0
Entries = List (List ℕ × Tile)

abbrev pub get_in : List ℕ → Entries → Option Tile
get_in key [] = none
get_in key ((k, t) ∷ c) = if same key k then some t else get_in key c

abbrev pub list_cache : TileCache Entries
list_cache = record { get = λ key c. (get_in key c, c); set = λ key t c. (key, t) ∷ c }

-- libtiff decodes each tile to one sample.
abbrev pub one_sample : Env Memory Entries
one_sample = record {
  reader = memory;
  cache = list_cache;
  settings = record { concurrency = 1; chunk_size = 1 };
  order = λ cs. cs;
  inflate = λ bs. ok bs;
  decode_lzw = λ n m. (ok (0 ∷ 0 ∷ 128 ∷ 63 ∷ []), m);
}

abbrev lzw_image : GeoTiff ℤ
lzw_image = record four_by_five { compression = lzw }

abbrev no_bytes : Memory
no_bytes = record { contents = []; offset = 0 }

abbrev one : Tile
one = floats (decode_words (0 ∷ 0 ∷ 128 ∷ 63 ∷ []) little_endian)

-- A name that ends like a key.
abbrev odd_name : List ℕ
odd_name = b'a' ∷ hash ∷ b'1' ∷ []

cache_key_inj_example : (odd_name ≡ odd_name) × (◌≡◌ {A = ℕ} 12 12)
cache_key_inj_example = cache_key_inj odd_name odd_name 12 12 refl
