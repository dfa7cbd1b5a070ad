-- ===== src/Cog/Tiles/Stored.antt =====
-- Tiles that hold an image: what is read, decompressed and decoded is what was stored.
use gedtm30api.Base.{
  ℕ, zero, suc, ◌+◌, ◌≤◌, ◌<◌, ◌≡◌, ◌≢◌, ◌⊎◌, inl, inr, ap, List, [], ◌∷◌, arith, length, get_elem?,
  some, true, false, All, ◌==◌, if◌then◌else◌, slice, ne→==, ge→ltb, lt→ltb, ==_iff, Bool-cases,
}
use gedtm30api.Base.Int.{pos, two63, int64_small}
use gedtm30api.Base.Run.{Run, ok}
use gedtm30api.Source.Parallel.Agreement.{IsSchedule, parallel_read_at-slice}
use gedtm30api.Source.Parallel.Settings.{IsUsable}
use gedtm30api.Source.Serves.{Serves, IsInside}
use gedtm30api.Tiff.Value.{max_alloc}
use gedtm30api.Pixels.{decode_words}
use gedtm30api.Pixels.Horizontal.{
  IsWord, All-difference_rows, undo_horizontal_int32-difference_rows,
}
use gedtm30api.Pixels.Words.{encode, decode_words-encode}
use gedtm30api.Cog.{GeoTiff, Tile, floats, ints, Env}
use gedtm30api.Cog.Open.{
  lzw, predictor_horizontal, predictor_floating_point, sample_format_int, sample_format_float,
}
use gedtm30api.Cog.Tiles.{
  tile_range, filled, decompress, float_tile, int_tile, process, fetch_range,
  fetch_and_decompress_tile, load_tile,
}
use gedtm30api.Cog.Image.{Image, IsImage, tile_words, predicted, tile_words-IsWord}

-- Samples of 32 bits, floats or integers, behind no predictor or the horizontal one, and not
-- compressed by LZW.
pub record IsDecodable {F : Type 0} (g : GeoTiff F) : Type 0 where
  pub format : (g.sample_format ≡ sample_format_float) ⊎ (g.sample_format ≡ sample_format_int)
  pub bits : g.bits_per_sample ≡ 32
  pub predictor : g.predictor ≢ predictor_floating_point
  pub compression : g.compression ≢ lzw
  pub tile_width : 0 < g.tile_width
  pub tile_length : 0 < g.tile_length

module _ {F : Type 0} (g : GeoTiff F) where
  -- The words as the tile that `loc` reads from.
  unfoldable pub samples : List ℕ → Tile
  samples ws = if g.sample_format == sample_format_float then floats ws else ints ws

  -- Tile `n` of the image is in the file: its bytes, decompressed, are the words that a writer
  -- makes of the tile.
  pub record IsStored (inflate : List ℕ → Run (List ℕ)) (file : List ℕ) (image : Image) (n : ℕ)
      : Type 0 where
    pub offset : ℕ
    pub count : ℕ
    pub offset_of : get_elem? g.tile_offsets n ≡ some offset
    pub count_of : get_elem? g.tile_byte_counts n ≡ some count
    pub inside : offset + count ≤ length file
    pub allocated : count ≤ max_alloc
    pub contents :
        decompress g inflate (slice file offset count)
        ≡ ok (encode g.byte_order (predicted g (tile_words g image n)))

  module _ (h : IsDecodable g) (ws : List ℕ) (all : All IsWord ws) where
    predicted-IsWord : All IsWord (predicted g ws)
    unfolding predicted
    predicted-IsWord = elim (Bool-cases (g.predictor == predictor_horizontal)) [
      | inl horizontal ↦ rw horizontal (All-difference_rows g.tile_length g.tile_width ws all)
      | inr plain ↦ rw plain all
    ]

    decode_predicted :
        decode_words (encode g.byte_order (predicted g ws)) g.byte_order ≡ predicted g ws
    decode_predicted = decode_words-encode g.byte_order (predicted g ws) predicted-IsWord

    float_tile-predicted : float_tile g (encode g.byte_order (predicted g ws)) ≡ ok (floats ws)
    unfolding float_tile
    float_tile-predicted = rw decode_predicted (
        unfold predicted in
        elim (Bool-cases (g.predictor == predictor_horizontal)) [
          | inl horizontal ↦ rw (
            horizontal,
            undo_horizontal_int32-difference_rows ws g.tile_width g.tile_length h.tile_width
                h.tile_length all,
          )
          | inr plain ↦ rw (plain, ne→== g.predictor predictor_floating_point h.predictor)
        ])

    int_tile-predicted : int_tile g (encode g.byte_order (predicted g ws)) ≡ ok (ints ws)
    unfolding int_tile
    int_tile-predicted = rw decode_predicted (
        unfold predicted in
        elim (Bool-cases (g.predictor == predictor_horizontal)) [
          | inl horizontal ↦ rw (
            horizontal,
            undo_horizontal_int32-difference_rows ws g.tile_width g.tile_length h.tile_width
                h.tile_length all,
          )
          | inr plain ↦ rw plain
        ])

    pub process-predicted : process g (encode g.byte_order (predicted g ws)) ≡ ok (samples ws)
    unfolding process samples
    process-predicted =
        let bits : (g.bits_per_sample == 32) ≡ true = (==_iff _ _).1 h.bits in
        elim h.format [
          | inl float ↦
              let is_float : (g.sample_format == sample_format_float) ≡ true =
                (==_iff _ _).1 float in
              rw (is_float, bits) float_tile-predicted
          | inr int ↦
              let not_float : (g.sample_format == sample_format_float) ≡ false =
                ap (λ k. k == sample_format_float) int in
              let is_int : (g.sample_format == sample_format_int) ≡ true = (==_iff _ _).1 int in
              rw (not_float, is_int, bits) int_tile-predicted
        ]

get_elem?-lt : {A : Type 0} {x : A} (xs : List A) (i : ℕ) → get_elem? xs i ≡ some x → i < length xs
get_elem?-lt [] i h = cc
get_elem?-lt (y ∷ xs) zero h = omega arith
get_elem?-lt (y ∷ xs) (suc i) h = omega (arith, get_elem?-lt xs i h)

module _ {F : Type 0} (g : GeoTiff F) {R C : Type 0} (env : Env R C) {P : R → Type 0}
    (file : List ℕ) (small : length file < two63)
    (serves : Serves env.reader P file (IsInside file)) (usable : IsUsable env.settings)
    (sched : IsSchedule env.order) (image : Image) (words : IsImage image) (h : IsDecodable g) where
  -- A tile of the image, read over a reader that serves the file, comes back as its words.
  pub load_tile-tile_words :
      (n : ℕ) (r : R)
      → P r
      → IsStored g env.inflate file image n
      → (r' : R) × (load_tile g env (pos n) r ≡ (ok (samples g (tile_words g image n)), r')) × P r'
  unfolding load_tile fetch_and_decompress_tile tile_range fetch_range filled
  load_tile-tile_words n r p st =
      let (r', run, p') =
        parallel_read_at-slice env.reader file serves st.offset st.count st.inside small
          env.settings env.order r usable sched p in
      let ws = tile_words g image n in
      let all = tile_words-IsWord g image words n in
      (
        r',
        rw (
          ne→== g.compression lzw h.compression,
          lt→ltb n (length g.tile_offsets) (get_elem?-lt g.tile_offsets n st.offset_of),
          st.offset_of,
          st.count_of,
          int64_small st.offset (omega (arith, st.inside)),
          run,
          ge→ltb max_alloc st.count st.allocated,
          st.contents,
          process-predicted g h ws all,
        ),
        p',
      )
