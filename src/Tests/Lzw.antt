-- ===== src/Tests/Lzw.antt =====
-- A libtiff that reads two bytes when it opens a file and four for each tile.
use mathlib.Core.List.Permᴰ
use gedtm30api.Base.{
  ℕ, ◌==◌, if◌then◌else◌, ◌+◌, ◌*◌, ◌≡◌, refl, inr, true, none, some, List, [], ◌∷◌, arith, length,
}
use gedtm30api.Base.Int.{ℤ, pos, negsuc, wrap64}
use gedtm30api.Base.Run.{Run, ok}
use gedtm30api.Base.Io.{Io}
use gedtm30api.Source.Reader.{Reader, Whence}
use gedtm30api.Source.Memory.{Memory, memory}
use gedtm30api.Source.Serves.{memory-Serves, AnyRange-Serves}
use gedtm30api.Source.Parallel.{FetchSettings, write}
use gedtm30api.Source.Prefix.Opening.{memory-FindsEnd}
use gedtm30api.Registry.{empty_registry}
use gedtm30api.Registry.Buffers.{NoBuffers}
use gedtm30api.Libtiff.{
  Script, done, read, seek, Decoded, Libtiff, RemoteTiff, uint64, rh_seek, tile_id, copied,
  tile_read, copy_decompressed_data,
}
use gedtm30api.Libtiff.Serving.{run_file, StaysInside}
use gedtm30api.Libtiff.Tiles.{open_file, tile_of_file, ReadsTile}
use gedtm30api.Cog.{GeoTiff}
use gedtm30api.Cog.Lzw.{Remote, get_lzw_tile_data_from_bytes}
use gedtm30api.Cog.Lzw.Buffers.{Returns, get_lzw_tile_data_from_bytes-NoBuffers}
use gedtm30api.Cog.Lzw.Opening.{IsServed, IsClosed, HasRange, entry_of}
use gedtm30api.Cog.Lzw.Transparent.{get_lzw_tile_data_from_bytes-tile_of_file}
use gedtm30api.Tests.Images.{four_by_five}

abbrev read_tile : ℕ → ℕ → ℕ → Script (Decoded ℕ)
read_tile t n size =
    seek (2 + 4 * n) Whence.start
      (λ p. read 4 (λ r. done (record { count = pos 4; buf = r.front; tiff = t + 1 })))

abbrev toy_libtiff : Libtiff ℕ
toy_libtiff = record {
  malloc = λ n. true;
  client_open = read 2 (λ r. done (some (length r.front)));
  tile_size = λ t. pos 4;
  read_encoded_tile = read_tile;
  open_path = λ path. none;
  read_path_tile = λ t n size. record { count = negsuc 0; buf = []; tiff = t };
}

abbrev two_tiles : List ℕ
two_tiles = 73 ∷ 73 ∷ 0 ∷ 0 ∷ 128 ∷ 63 ∷ 0 ∷ 0 ∷ 0 ∷ 64 ∷ []

abbrev lzw_file : GeoTiff ℤ
lzw_file = record four_by_five { tile_offsets = 2 ∷ 6 ∷ []; tile_byte_counts = 4 ∷ 4 ∷ [] }

abbrev one_request : FetchSettings
one_request = record { concurrency = 1; chunk_size = 1 }

abbrev Files : Type 0
Files = Remote ℕ (Unit {0}) Memory

abbrev io : Unit {0} → Reader Memory
io u = memory

abbrev closed : Files
closed = record {
  registry = empty_registry;
  readers = record { contents = two_tiles; offset = 0 };
  remote_tiff = none;
  remote_handle_id = 0;
}

-- The handle after libtiff has opened the file, and after it has read a tile.
abbrev handle_at : ℕ → ℕ → RemoteTiff ℕ
handle_at t p = record { tiff = t; handle = record { size = pos 10; position = pos p; id = 1 } }

closed-IsClosed : IsClosed toy_libtiff io tt two_tiles (handle_at 2 2) closed
unfolding empty_registry open_file run_file StaysInside
closed-IsClosed = record {
  no_handle = refl;
  numbered = record { above = λ i h. refl; room = omega arith };
  opens = refl;
  stays = (refl, omega arith, tt);
}

second_tile :
    tile_of_file toy_libtiff two_tiles (handle_at 2 2) (pos 1)
    ≡ (ok (0 ∷ 0 ∷ 0 ∷ 64 ∷ []), handle_at 3 10)
unfolding tile_of_file run_file rh_seek tile_id copied tile_read copy_decompressed_data uint64
    wrap64 write
second_tile = refl

second_range : HasRange lzw_file two_tiles (pos 1)
unfolding HasRange
second_range off count at_off at_count =
    let o : off ≡ 6 = cc in let c : count ≡ 4 = cc in (omega arith, omega arith)

reads_second : ReadsTile toy_libtiff two_tiles (handle_at 2 2) (pos 1)
unfolding StaysInside rh_seek tile_id uint64 wrap64
reads_second size = (refl, omega arith, tt)

second-Returns : Returns (tile_of_file toy_libtiff two_tiles (handle_at 2 2) (pos 1)).0
second-Returns = rw second_tile ((λ e. cc), (λ e. cc))

-- The call for the second tile, which also opens the handle.
abbrev second_call : Run (List ℕ) × Files
second_call =
    get_lzw_tile_data_from_bytes toy_libtiff io tt one_request (λ cs. cs) lzw_file (pos 1) closed

abbrev DecodesSecond : Type 0
DecodesSecond =
    (st' : Files) × (second_call ≡ (ok (0 ∷ 0 ∷ 0 ∷ 64 ∷ []), st'))
    × (st'.readers.contents ≡ two_tiles)
    × IsServed tt (handle_at 3 10) st'

get_lzw_tile_data_from_bytes-tile_of_file_example : DecodesSecond
unfolding tile_of_file run_file rh_seek tile_id copied tile_read copy_decompressed_data uint64
    wrap64 write
get_lzw_tile_data_from_bytes-tile_of_file_example =
    get_lzw_tile_data_from_bytes-tile_of_file toy_libtiff io tt two_tiles (omega arith)
      (AnyRange-Serves memory (λ m. m.contents ≡ two_tiles) two_tiles _ (memory-Serves two_tiles))
      (memory-FindsEnd two_tiles (omega arith)) one_request (λ cs. cs)
      (record { concurrency = omega arith; chunk_size = omega arith }) (λ cs. Permᴰ.refl cs)
      lzw_file (pos 1) (handle_at 2 2) closed refl (inr closed-IsClosed) second_range reads_second
      second-Returns

second_call-Returns : Returns second_call.0
second_call-Returns =
    let (st', run, rest, served') =
      get_lzw_tile_data_from_bytes-tile_of_file toy_libtiff io tt two_tiles (omega arith)
        (AnyRange-Serves memory (λ m. m.contents ≡ two_tiles) two_tiles _ (memory-Serves two_tiles))
        (memory-FindsEnd two_tiles (omega arith)) one_request (λ cs. cs)
        (record { concurrency = omega arith; chunk_size = omega arith }) (λ cs. Permᴰ.refl cs)
        lzw_file (pos 1) (handle_at 2 2) closed refl (inr closed-IsClosed) second_range reads_second
        second-Returns in
    rw run (rw second_tile ((λ e. cc), (λ e. cc)))

closed-NoBuffers : NoBuffers closed.registry
unfolding empty_registry
closed-NoBuffers i e found = cc

get_lzw_tile_data_from_bytes-NoBuffers_example : NoBuffers second_call.1.registry
get_lzw_tile_data_from_bytes-NoBuffers_example =
    get_lzw_tile_data_from_bytes-NoBuffers toy_libtiff io tt one_request (λ cs. cs) lzw_file (pos 1)
      closed closed-NoBuffers second_call-Returns

-- A GeoTIFF with an open handle.
abbrev served : Files
served = record closed {
  registry = record {
    entries = λ i. if i == 1 then some (entry_of tt none (pos 0)) else none;
    id_counter = 1;
  };
  remote_tiff = some (handle_at 2 2);
  remote_handle_id = 1;
}
