-- ===== src/Cog/Lzw.antt =====
-- LZW tiles, which libtiff decodes: `getLZWTileData` and the handle that it keeps
-- (geotiff/geotiff.go), and `openRemoteTIFF` and `getFilePath` (geotiff/libtiff.go).
pub mod Buffers
pub mod Opening
pub mod Transparent
pub mod Closing
use gedtm30api.Base.{
  ℕ, Bool, true, false, ◌&&◌, Option, none, some, List, [], ◌∷◌, get_elem?, ltb, ◌==◌,
  if◌then◌else◌,
}
use gedtm30api.Base.Int.{ℤ, pos, negsuc, int64}
use gedtm30api.Base.Run.{text, Run, ok, err, panic, hang, wrap_error as wrap_run}
use gedtm30api.Base.Io.{Io, ◌>>=◌, pure, lift, wrap_error}
use gedtm30api.Source.Reader.{Read, Reader, Whence}
use gedtm30api.Source.Parallel.{FetchSettings, Chunk, Fill, parallel_read_at}
use gedtm30api.Tiff.Value.{max_alloc}
use gedtm30api.Registry.{
  Registry, register_remote_reader, unregister_remote_reader, set_remote_buffer,
  clear_remote_buffer,
}
use gedtm30api.Libtiff.{
  Libtiff, RemoteTiff, gtl_open_remote, read_tile_from_handle, libtiff_decode_tile,
}
use gedtm30api.Cog.{GeoTiff, Env}

-- What the calls change: the registry of the process, the readers, and the fields `remoteTIFF` and
-- `remoteHandleID` of the GeoTIFF.
pub record Remote (T A S : Type 0) : Type 0 where
  pub registry : Registry A
  pub readers : S
  pub remote_tiff : Option (RemoteTiff T)
  pub remote_handle_id : ℕ

-- `getFilePath`, of the name that the reader has, if it has one.
get_file_path : Option (List ℕ) → List ℕ
get_file_path none = []
get_file_path (some name) = name

module _ {A : Type 0} where
  -- The prefetched bytes under the handle's id, and their removal.
  set_prefetched : ℕ → Option (List ℕ × ℤ) → Registry A → Registry A
  set_prefetched id none g = g
  set_prefetched id (some (buf, base)) g = set_remote_buffer id (some buf) base g

  clear_prefetched : ℕ → Option (List ℕ × ℤ) → Registry A → Registry A
  clear_prefetched id none g = g
  clear_prefetched id (some p) g = clear_remote_buffer id g

-- The bytes of a prefetch, if all of them came.
whole_prefetch : ℤ → ℕ → Run Fill → Run (Option (List ℕ × ℤ))
whole_prefetch base want (ok f) = elim f.error [
  | none ↦ ok (if f.count == want then some (f.buf, base) else none)
  | some e ↦ ok none
]
whole_prefetch base want (err e) = ok none
whole_prefetch base want panic = panic
whole_prefetch base want hang = hang

module _ {T A S : Type 0} where
  abbrev pub on_readers : {X : Type 0} → Io S X → Io (Remote T A S) X
  on_readers m st = let (r, s') = m st.readers in (r, record st { readers = s' })

  set_handle : RemoteTiff T × ℕ → Io (Remote T A S) (RemoteTiff T × ℕ)
  set_handle h st = (ok h, record st { remote_tiff = some h.0; remote_handle_id = h.1 })

  close_handle : Option (RemoteTiff T) → Remote T A S → Remote T A S
  close_handle none st = st
  close_handle (some tif) st = record st {
    registry = unregister_remote_reader st.remote_handle_id st.registry;
    remote_tiff = none;
  }

  -- `finalizeRemote`
  pub finalize_remote : Remote T A S → Remote T A S
  finalize_remote st = close_handle st.remote_tiff st

  -- The end of a tile's decoding: the buffer is cleared unless a panic goes past.
  decoded : ℕ → Option (List ℕ × ℤ) → Remote T A S → Run (List ℕ) → Run (List ℕ) × Remote T A S
  decoded id pre st panic = (panic, st)
  decoded id pre st hang = (hang, st)
  decoded id pre st (ok raw) =
      (ok raw, record st { registry = clear_prefetched id pre st.registry })
  decoded id pre st (err e) = (err e, record st { registry = clear_prefetched id pre st.registry })

  -- After readTileFromHandle.
  tile_returned :
      ℕ
      → Option (List ℕ × ℤ)
      → Remote T A S
      → Run (Run (List ℕ) × RemoteTiff T)
      → Run (List ℕ) × Remote T A S
  tile_returned id pre st (ok (raw, tif)) =
      decoded id pre (record st { remote_tiff = some tif })
        (wrap_run "libtiff remote decode tile: " raw)
  tile_returned id pre st (err e) = decoded id pre st (err e)
  tile_returned id pre st panic = (panic, st)
  tile_returned id pre st hang = (hang, st)

  module _ (lib : Libtiff T) (io : A → Reader S) (self : A) where
    abbrev pub registered_read_at : A → ℤ → ℕ → Io S Read
    registered_read_at a = (io a).read_at

    -- What `openRemoteTIFF` does with what gtl_OpenRemote returned.
    opened : ℕ → Remote T A S → Run (Option (RemoteTiff T)) → Run (RemoteTiff T × ℕ) × Remote T A S
    opened id st (ok (some tif)) = (ok (tif, id), st)
    opened id st (ok none) = (
      err (text "gtl_OpenRemote failed"),
      record st { registry = unregister_remote_reader id st.registry },
    )
    opened id st (err e) = (err e, st)
    opened id st panic = (panic, st)
    opened id st hang = (hang, st)

    -- `openRemoteTIFF`
    open_remote_tiff : ℤ → Io (Remote T A S) (RemoteTiff T × ℕ)
    open_remote_tiff file_size st =
        let (id, g) = register_remote_reader self st.registry in
        let (r, s') = gtl_open_remote lib registered_read_at g file_size id st.readers in
        opened id (record st { registry = g; readers = s' }) r

    open_handle : Io (Remote T A S) (RemoteTiff T × ℕ)
    open_handle = do
      size ←
          wrap_error "failed to get file size for LZW: "
            (on_readers ((io self).seek (pos 0) Whence.end))
      h ← wrap_error "libtiff open remote: " (open_remote_tiff size)
      set_handle h

    handle_or_open : Option (RemoteTiff T) → Io (Remote T A S) (RemoteTiff T × ℕ)
    handle_or_open (some tif) st = (ok (tif, st.remote_handle_id), st)
    handle_or_open none st = open_handle st

    -- The part under `remoteTIFFMu`: the handle, opened by the first call.
    pub get_handle : Io (Remote T A S) (RemoteTiff T × ℕ)
    get_handle st = handle_or_open st.remote_tiff st

    -- The part under `readTIFFMu`.
    read_prefetched : RemoteTiff T → ℕ → ℤ → Option (List ℕ × ℤ) → Io (Remote T A S) (List ℕ)
    read_prefetched tif id tile_num pre st =
        let g' = set_prefetched id pre st.registry in
        let (r, s') = read_tile_from_handle lib registered_read_at g' tif tile_num st.readers in
        tile_returned id pre (record st { registry = g'; readers = s' }) r

    module _ (settings : FetchSettings) (order : List Chunk → List Chunk) {F : Type 0}
        (g : GeoTiff F) where
      fetch_compressed : Option ℕ → Option ℕ → Io S (Option (List ℕ × ℤ))
      fetch_compressed none count s = (ok none, s)
      fetch_compressed (some off) none s = (ok none, s)
      fetch_compressed (some off) (some count) s =
          let (f, s') = parallel_read_at settings order (io self) (int64 off) count s in
          if ltb max_alloc count then (panic, s) else (whole_prefetch (int64 off) count f, s')

      -- The prefetch of the compressed tile; what fails is left to libtiff's own reads.
      pub prefetch_tile : ℤ → Io S (Option (List ℕ × ℤ))
      prefetch_tile (negsuc n) s = (ok none, s)
      prefetch_tile (pos n) s =
          fetch_compressed (get_elem? g.tile_offsets n) (get_elem? g.tile_byte_counts n) s

      -- `getLZWTileDataFromBytes`, up to the samples.
      pub get_lzw_tile_data_from_bytes : ℤ → Io (Remote T A S) (List ℕ)
      get_lzw_tile_data_from_bytes tile_num = do
        h ← get_handle
        pre ← on_readers (prefetch_tile tile_num)
        read_prefetched h.0 h.1 tile_num pre

      -- `getLZWTileData` and `getLZWTileDataFromFile`, up to the samples. `name` is that of the
      -- reader.
      pub get_lzw_tile_data : Option (List ℕ) → ℤ → Io (Remote T A S) (List ℕ)
      get_lzw_tile_data name tile_num = elim (get_file_path name) [
        | [] ↦ get_lzw_tile_data_from_bytes tile_num
        | c ∷ path ↦
            lift (wrap_run "libtiff decode tile: " (libtiff_decode_tile lib (c ∷ path) tile_num))
      ]

    -- What `getTileData` works with, where libtiff decodes its LZW tiles.
    pub with_libtiff : {F C : Type 0} → GeoTiff F → Option (List ℕ) → Env S C → Env (Remote T A S) C
    with_libtiff g name env = record {
      reader = record {
        read = λ n. on_readers ((io self).read n);
        seek = λ off whence. on_readers ((io self).seek off whence);
        read_at = λ off n. on_readers ((io self).read_at off n);
      };
      cache = env.cache;
      settings = env.settings;
      order = env.order;
      inflate = env.inflate;
      decode_lzw = get_lzw_tile_data env.settings env.order g name;
    }
