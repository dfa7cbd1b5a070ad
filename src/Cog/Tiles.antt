-- ===== src/Cog/Tiles.antt =====
-- `getTileData` and what it calls: the cache, the fetch, the decompression and the samples of a
-- tile (geotiff/geotiff.go). The calls of one key that singleflight joins are one call here.
pub mod Cached
pub mod Stored
pub mod Holding
use gedtm30api.Base.{
  ℕ, ◌*◌, Option, none, some, List, length, get_elem?, ltb, ◌==◌, not, if◌then◌else◌,
}
use gedtm30api.Base.Int.{ℤ, pos, negsuc, int64}
use gedtm30api.Base.Run.{
  text, wrap, Run, ok, err, panic, hang, ◌>>=◌, ◌>>◌, fail_if, or_panic, wrap_error,
}
use gedtm30api.Base.Io
use gedtm30api.Base.Io.{Io}
use gedtm30api.Source.Parallel.{Fill, parallel_read_at}
use gedtm30api.Tiff.Value.{max_alloc}
use gedtm30api.Pixels.{decode_words, undo_horizontal_int32, undo_horizontal_float32}
use gedtm30api.Cog.{GeoTiff, Tile, floats, ints, World, Env}
use gedtm30api.Cog.Key.{cache_key}
use gedtm30api.Cog.Open.{
  uncompressed, lzw, deflate, predictor_horizontal, predictor_floating_point, sample_format_int,
  sample_format_float,
}

-- `tileFloats.Size` and `tileInts.Size`
pub size : Tile → ℕ
size (floats ws) = length ws * 4
size (ints ws) = length ws * 4

-- Which bytes of the file a tile is: its offset and its byte count.
tile_range : {F : Type 0} → GeoTiff F → ℤ → Run (ℕ × ℕ)
tile_range g (negsuc n) = err (text "tile index out of bounds")
tile_range g (pos n) =
    if ltb n (length g.tile_offsets)
    then (do
      offset ← or_panic (get_elem? g.tile_offsets n)
      count ← or_panic (get_elem? g.tile_byte_counts n)
      ok (offset, count))
    else err (text "tile index out of bounds")

filled : Fill → Run (List ℕ)
filled f = elim f.error [
  | none ↦ ok f.buf
  | some e ↦ err (wrap "failed to read tile from source: " e)
]

module _ {F : Type 0} (g : GeoTiff F) where
  unfoldable pub decompress : (List ℕ → Run (List ℕ)) → List ℕ → Run (List ℕ)
  decompress inflate bytes =
      if g.compression == uncompressed
      then ok bytes
      else if g.compression == deflate
      then wrap_error "failed to decompress tile data: " (inflate bytes)
      else err (text "unsupported compression type: ")

  float_tile : List ℕ → Run Tile
  float_tile bytes =
      let words = decode_words bytes g.byte_order in
      if g.predictor == predictor_horizontal
      then ok (floats (undo_horizontal_int32 words g.tile_width g.tile_length))
      else if g.predictor == predictor_floating_point
      then (undo_horizontal_float32 words g.tile_width g.tile_length >>= λ ws. ok (floats ws))
      else ok (floats words)

  int_tile : List ℕ → Run Tile
  int_tile bytes =
      let words = decode_words bytes g.byte_order in
      ok (
        ints (
          if g.predictor == predictor_horizontal
          then undo_horizontal_int32 words g.tile_width g.tile_length
          else words))

  -- The `switch` on the sample format.
  pub process : List ℕ → Run Tile
  process bytes =
      if g.sample_format == sample_format_float
      then (fail_if (not (g.bits_per_sample == 32)) (text "unsupported bit depth for float: ")
          >> float_tile bytes)
      else if g.sample_format == sample_format_int
      then (fail_if (not (g.bits_per_sample == 32)) (text "unsupported bit depth for int: ")
          >> int_tile bytes)
      else err (text "unsupported sample format ")

  module _ {R C : Type 0} (env : Env R C) where
    fetch_range : ℕ × ℕ → Io R (List ℕ)
    fetch_range (offset, count) r =
        let (f, r') = parallel_read_at env.settings env.order env.reader (int64 offset) count r in
        if ltb max_alloc count
        then (panic, r)
        else (f >>= λ fill. filled fill >>= λ bytes. decompress env.inflate bytes, r')

    -- `fetchAndDecompressTile`
    pub fetch_and_decompress_tile : ℤ → Io R (List ℕ)
    fetch_and_decompress_tile tile_num = Io.◌>>=◌ (Io.lift (tile_range g tile_num)) fetch_range

    -- A tile that is not in the cache: read, made into samples, and not yet put there.
    unfoldable pub load_tile : ℤ → Io R Tile
    load_tile tile_num =
        if g.compression == lzw
        then Io.◌>>=◌ (env.decode_lzw tile_num)
            (λ raw. Io.pure (floats (decode_words raw g.byte_order)))
        else Io.◌>>=◌ (fetch_and_decompress_tile tile_num) (λ bytes. Io.lift (process bytes))

    store : List ℕ → Run Tile × R → C → Run Tile × World R C
    store key (ok t, r) c = (ok t, record { reader = r; cache = env.cache.set key t c })
    store key (err e, r) c = (err e, record { reader = r; cache = c })
    store key (panic, r) c = (panic, record { reader = r; cache = c })
    store key (hang, r) c = (hang, record { reader = r; cache = c })

    found_or_loaded : ℤ → R → Option Tile × C → Run Tile × World R C
    found_or_loaded tile_num r (some t, c) = (ok t, record { reader = r; cache = c })
    found_or_loaded tile_num r (none, c) =
        store (cache_key g.cache_key_prefix tile_num) (load_tile tile_num r) c

    -- `getTileData`
    pub get_tile_data : ℤ → Io (World R C) Tile
    get_tile_data tile_num w =
        found_or_loaded tile_num w.reader
          (env.cache.get (cache_key g.cache_key_prefix tile_num) w.cache)
