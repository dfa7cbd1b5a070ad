-- ===== src/Tests/Grids.antt =====
-- An image of two tiles in a file, read pixel by pixel.
use mathlib.Core.List.Permᴰ
use gedtm30api.Base.{
  ℕ, zero, suc, ◌+◌, ◌*◌, ◌%◌, ◌^◌, ◌<◌, ◌≡◌, refl, sym, subst, ◌∙◌, inl, inr, some, List, [], ◌∷◌,
  arith, Bool-cases,
}
use gedtm30api.Base.Int.{ℤ, pos, quot_ℤ}
use gedtm30api.Base.Run.{ok}
use gedtm30api.Bytes.{put_uint}
use gedtm30api.Source.Memory.{Memory, memory}
use gedtm30api.Source.Serves.{memory-Serves, AnyRange-Serves}
use gedtm30api.Geo.Floats.{whole_numbers}
use gedtm30api.Tiff.FieldType
use gedtm30api.Tiff.Tag
use gedtm30api.Tiff.Value.{TagData, empty_tag_data}
use gedtm30api.Pixels.Words.{encode}
use gedtm30api.Pixels.Horizontal.{differences, difference_rows}
use gedtm30api.Cog.{GeoTiff, Tile, World}
use gedtm30api.Cog.Open.{tiles_to_cover}
use gedtm30api.Cog.Image.{Image, tabulate, tile_words, predicted}
use gedtm30api.Cog.Tiles.{decompress}
use gedtm30api.Cog.Tiles.Stored.{IsDecodable, IsStored}
use gedtm30api.Cog.Tiles.Holding.{Remembers, IsTile}
use gedtm30api.Cog.Loc.{loc}
use gedtm30api.Cog.Loc.Index.{IsGridded, tile_rows}
use gedtm30api.Cog.Loc.Pixel.{loc-image}
use gedtm30api.Vrt.Text.{same, same→eq}
use gedtm30api.Tests.Images.{four_by_five}
use gedtm30api.Tests.Tiles.{Entries, get_in, list_cache, one_sample}

abbrev pub numbered : Image
numbered x y = (x + 10 * y) % 2 ^ 32

-- The upper left corner is at (0, 2).
abbrev pub corner : TagData
corner = record (empty_tag_data FieldType.double 6) { double_data = 0 ∷ 0 ∷ 0 ∷ 0 ∷ 2 ∷ 0 ∷ [] }

-- Three by two pixels of integers in tiles of two by two, with the horizontal predictor.
abbrev pub three_by_two_of : List ℕ → GeoTiff ℤ
three_by_two_of prefix = record four_by_five {
  cache_key_prefix = prefix;
  image_width = 3;
  image_length = 2;
  tile_width = 2;
  tile_length = 2;
  tiles_across = 2;
  tile_offsets = 0 ∷ 16 ∷ [];
  tile_byte_counts = 16 ∷ 16 ∷ [];
  sample_format = 2;
  predictor = 2;
  tags = (Tag.model_tiepoint, corner) ∷ [];
}

abbrev pub three_by_two : GeoTiff ℤ
three_by_two = three_by_two_of []

abbrev pub tile_bytes : List ℕ
tile_bytes =
    0 ∷ 0 ∷ 0 ∷ 0 ∷ 1 ∷ 0 ∷ 0 ∷ 0 ∷ 10 ∷ 0 ∷ 0 ∷ 0 ∷ 1 ∷ 0 ∷ 0 ∷ 0 ∷ 2 ∷ 0 ∷ 0 ∷ 0 ∷ 1 ∷ 0 ∷ 0 ∷ 0
    ∷ 12 ∷ 0 ∷ 0 ∷ 0 ∷ 1 ∷ 0 ∷ 0 ∷ 0 ∷ []

pub three_by_two-IsGridded : (prefix : List ℕ) → IsGridded (three_by_two_of prefix)
unfolding tiles_to_cover
three_by_two-IsGridded prefix = record {
  tile_width = omega arith;
  tile_length = omega arith;
  width_fits = omega arith;
  length_fits = omega arith;
  across = refl;
  numbered = omega arith;
}

pub three_by_two-IsDecodable : (prefix : List ℕ) → IsDecodable (three_by_two_of prefix)
three_by_two-IsDecodable prefix = record {
  format = inr refl;
  bits = refl;
  predictor = λ e. omega arith;
  compression = λ e. omega arith;
  tile_width = omega arith;
  tile_length = omega arith;
}

pub IsStored-tile :
    (prefix : List ℕ) (n : ℕ)
    → n < 2 * tile_rows (three_by_two_of prefix)
    → IsStored (three_by_two_of prefix) one_sample.inflate tile_bytes numbered n
unfolding tiles_to_cover decompress encode put_uint predicted tile_words tabulate difference_rows
    differences
IsStored-tile prefix zero h = record {
  offset = 0;
  count = 16;
  offset_of = refl;
  count_of = refl;
  inside = omega arith;
  allocated = omega arith;
  contents = refl;
}
IsStored-tile prefix (suc zero) h = record {
  offset = 16;
  count = 16;
  offset_of = refl;
  count_of = refl;
  inside = omega arith;
  allocated = omega arith;
  contents = refl;
}
IsStored-tile prefix (suc (suc n)) h = absurd (omega arith)

-- A list of entries in which each may be under its key.
abbrev pub HoldsOnly : (List ℕ → Tile → Type 0) → Entries → Type 0
HoldsOnly V c = (key : List ℕ) (t : Tile) → get_in key c ≡ some t → V key t

HoldsOnly-set :
    (V : List ℕ → Tile → Type 0) (key : List ℕ) (t : Tile) (c : Entries)
    → HoldsOnly V c
    → V key t
    → HoldsOnly V ((key, t) ∷ c)
HoldsOnly-set V key t c holds own k u found = elim (Bool-cases (same k key)) [
  | inl hit ↦
      let here : get_in k ((key, t) ∷ c) ≡ some t = rw hit in
      let is_t : t ≡ u = cc in subst (λ l. V l u) (sym (same→eq k key hit)) (subst (V key) is_t own)
  | inr miss ↦
      let there : get_in k ((key, t) ∷ c) ≡ get_in k c = rw miss in holds k u (sym there ∙ found)
]

pub list_cache-Remembers : (V : List ℕ → Tile → Type 0) → Remembers list_cache V (HoldsOnly V)
list_cache-Remembers V = record {
  found = λ key c t holds hit. holds key t hit;
  kept = λ key c holds. holds;
  stored = HoldsOnly-set V;
}

abbrev pub HoldsTiles : Entries → Type 0
HoldsTiles = HoldsOnly (IsTile three_by_two numbered)

abbrev pub opened_image : World Memory Entries
opened_image = record { reader = record { contents = tile_bytes; offset = 0 }; cache = [] }

loc-image_example :
    (w' : World Memory Entries) × (loc whole_numbers three_by_two one_sample
        (pos 2)
        (pos 1)
        opened_image
      ≡ (ok (pos 1), w'))
    × (w'.reader.contents ≡ tile_bytes)
    × HoldsTiles w'.cache
unfolding quot_ℤ
loc-image_example =
    loc-image whole_numbers three_by_two one_sample tile_bytes (omega arith)
      (AnyRange-Serves memory (λ m. m.contents ≡ tile_bytes) tile_bytes _
        (memory-Serves tile_bytes))
      (record { concurrency = omega arith; chunk_size = omega arith }) (λ cs. Permᴰ.refl cs)
      numbered (λ x y. omega arith) (three_by_two-IsDecodable []) (three_by_two-IsGridded [])
      (IsStored-tile []) (list_cache-Remembers (IsTile three_by_two numbered)) 2 1 opened_image
      (omega arith) (omega arith) refl (λ key t found. cc)
