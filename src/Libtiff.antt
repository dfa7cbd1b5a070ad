-- ===== src/Libtiff.antt =====
-- The calls of libtiff and the callbacks that serve its reads (geotiff/libtiff.go, Go and C). What
-- libtiff itself does is a parameter.
pub mod Serving
pub mod Tiles
use mathlib.Core.Option
use gedtm30api.Base.{
  ℕ, zero, suc, ◌-◌, ◌%◌, ◌^◌, Bool, Option, none, some, List, [], String, length, replicate, take,
  ltb, if◌then◌else◌,
}
use gedtm30api.Base.Int.{ℤ, pos, negsuc, add64, int64, two64, wrap64}
use gedtm30api.Base.Run
use gedtm30api.Base.Run.{text, Run, ok, err, panic, hang}
use gedtm30api.Base.Io
use gedtm30api.Base.Io.{Io, ◌>>=◌, pure, lift, throw}
use gedtm30api.Source.Reader.{Read, Whence}
use gedtm30api.Source.Parallel.{write}
use gedtm30api.Registry.{
  Registry, Answer, register_remote_reader, unregister_remote_reader, go_remote_read,
}

-- `RHandle`
pub record RHandle : Type 0 where
  pub size : ℤ
  pub position : ℤ
  pub id : ℕ

-- What `rhRead` leaves at the front of libtiff's buffer, and the number that it returns.
pub record Reply : Type 0 where
  pub front : List ℕ
  pub count : ℕ

-- One call into libtiff: it reads, seeks and asks for the size through the callbacks of its handle,
-- and goes on by what they return.
pub data Script (A : Type 0) : Type 0 where
  done : A → Script A
  read : ℕ → (Reply → Script A) → Script A
  seek : ℕ → Whence → (ℕ → Script A) → Script A
  ask_size : (ℕ → Script A) → Script A

-- What TIFFReadEncodedTile returns, leaves in the buffer, and makes of the TIFF.
pub record Decoded (T : Type 0) : Type 0 where
  pub count : ℤ
  pub buf : List ℕ
  pub tiff : T

-- libtiff, the operating system's files and malloc. `T` is what a `TIFF*` points to. A file opened
-- by its path is read by libtiff's own calls.
pub record Libtiff (T : Type 0) : Type 0 where
  pub malloc : ℕ → Bool
  pub client_open : Script (Option T)
  pub tile_size : T → ℤ
  pub read_encoded_tile : T → ℕ → ℕ → Script (Decoded T)
  pub open_path : List ℕ → Option T
  pub read_path_tile : T → ℕ → ℕ → Decoded T

-- A value of int64 as one of uint64.
unfoldable pub uint64 : ℤ → ℕ
uint64 (pos n) = n % two64
uint64 (negsuc n) = two64 - 1 - n % two64

-- `rhSeek`; another `whence` leaves the position.
unfoldable pub rh_seek : RHandle → ℕ → Whence → RHandle
rh_seek rh off Whence.start = record rh { position = int64 off }
rh_seek rh off Whence.current = record rh { position = add64 rh.position (int64 off) }
rh_seek rh off Whence.end = record rh { position = add64 rh.size (int64 off) }
rh_seek rh off (Whence.other w) = rh

-- `rhRead`, behind goRemoteRead: a result that is not positive zeroes the buffer.
pub rh_reply : RHandle → ℕ → Answer → Reply × RHandle
rh_reply rh n a = elim a.count [
  | pos zero ↦ (record { front = replicate n 0; count = 0 }, rh)
  | pos (suc m) ↦ (
    record { front = a.bytes; count = suc m },
    record rh { position = add64 rh.position (pos (suc m)) },
  )
  | negsuc m ↦ (record { front = replicate n 0; count = 0 }, rh)
]

module _ {A S : Type 0} (read_at : A → ℤ → ℕ → Io S Read) (g : Registry A) where
  rh_read : RHandle → ℕ → Io S (Reply × RHandle)
  rh_read rh n = do a ← go_remote_read read_at g rh.id rh.position n; pure (rh_reply rh n a)

  -- A call into libtiff with the callbacks of a handle.
  pub run_script : {X : Type 0} → Script X → RHandle → Io S (X × RHandle)
  run_script (done x) rh s = (ok (x, rh), s)
  run_script (read n k) rh s =
      Io.continue (rh_read rh n s).0 (λ r. run_script (k r.0) r.1) (rh_read rh n s).1
  run_script (seek off whence k) rh s =
      run_script (k (uint64 (rh_seek rh off whence).position)) (rh_seek rh off whence) s
  run_script (ask_size k) rh s = run_script (k (uint64 rh.size)) rh s

-- An open `TIFF*` whose callbacks go to Go.
pub record RemoteTiff (T : Type 0) : Type 0 where
  pub tiff : T
  pub handle : RHandle

-- The code that `gtl_ReadTile` returns, and the bytes that it hands out.
pub record TileRead : Type 0 where
  pub code : ℤ
  pub out_data : List ℕ
  pub out_size : ℕ

unfoldable pub failed_read : ℕ → TileRead
failed_read code = record { code = negsuc code; out_data = []; out_size = 0 }

-- The end of `gtl_ReadTile`.
unfoldable pub tile_read : {T : Type 0} → Decoded T → TileRead
tile_read d = elim d.count [
  | pos n ↦ record { code = pos 0; out_data = d.buf; out_size = n }
  | negsuc n ↦ failed_read 2
]

-- `copyDecompressedData`: C.GoBytes takes the size as an int of 32 bits.
unfoldable pub copy_decompressed_data : List ℕ → ℕ → Run (List ℕ)
copy_decompressed_data out_data n =
    let size = n % 2 ^ 32 in
    if ltb size (2 ^ 31) then ok (write (replicate n 0) 0 (take size out_data)) else panic

-- What Go makes of a tile that was read: an error for every code but zero.
unfoldable pub copied : String → TileRead → Run (List ℕ)
copied message r = elim r.code [
  | pos zero ↦ copy_decompressed_data r.out_data r.out_size
  | pos (suc n) ↦ err (text message)
  | negsuc n ↦ err (text message)
]

-- `C.uint32_t` of the number of a tile.
unfoldable pub tile_id : ℤ → ℕ
tile_id n = uint64 n % 2 ^ 32

-- `gtl_ReadTile`; `decode` is TIFFReadEncodedTile of the tile, given the size of the buffer.
gtl_read_tile : {S H : Type 0} → (ℕ → Bool) → ℤ → H → (ℕ → Io S (Decoded H)) → Io S (TileRead × H)
gtl_read_tile malloc (pos zero) tif decode = pure (failed_read 0, tif)
gtl_read_tile malloc (negsuc n) tif decode = pure (failed_read 0, tif)
gtl_read_tile malloc (pos (suc n)) tif decode =
    if malloc (suc n)
    then (do d ← decode (suc n); pure (tile_read d, d.tiff))
    else pure (failed_read 1, tif)

module _ {T : Type 0} (lib : Libtiff T) where
  -- `gtl_ReadTileFromPath`
  gtl_read_tile_from_path : List ℕ → ℕ → Io (Unit {0}) TileRead
  gtl_read_tile_from_path path n = elim (lib.open_path path) [
    | none ↦ pure (failed_read 0)
    | some tiff ↦ (do
      r ←
          gtl_read_tile lib.malloc (lib.tile_size tiff) tiff
            (λ size. pure (lib.read_path_tile tiff n size))
      pure r.0)
  ]

  -- `libtiffDecodeTile`
  pub libtiff_decode_tile : List ℕ → ℤ → Run (List ℕ)
  libtiff_decode_tile path tile_num =
      let (r, _) = gtl_read_tile_from_path path (tile_id tile_num) tt in
      Run.◌>>=◌ r (copied "libtiff read tile failed: ")

  module _ {A S : Type 0} (read_at : A → ℤ → ℕ → Io S Read) (g : Registry A) where
    -- `gtl_OpenRemote`; TIFFClientOpen calls back while it opens.
    pub gtl_open_remote : ℤ → ℕ → Io S (Option (RemoteTiff T))
    gtl_open_remote file_size id =
        if lib.malloc 24
        then (do
          opened ←
              run_script read_at g lib.client_open
                (record { size = file_size; position = pos 0; id = id })
          pure (Option.map (λ t. record { tiff = t; handle = opened.1 }) opened.0))
        else pure none

    decode_remote : RemoteTiff T → ℕ → ℕ → Io S (Decoded (RemoteTiff T))
    decode_remote tif n size = do
      r ← run_script read_at g (lib.read_encoded_tile tif.tiff n size) tif.handle
      pure (record {
        count = r.0.count;
        buf = r.0.buf;
        tiff = record { tiff = r.0.tiff; handle = r.1 };
      })

    -- `readTileFromHandle`: what it returns, and what becomes of the handle.
    pub read_tile_from_handle : RemoteTiff T → ℤ → Io S (Run (List ℕ) × RemoteTiff T)
    read_tile_from_handle tif tile_num = do
      r ←
          gtl_read_tile lib.malloc (lib.tile_size tif.tiff) tif
            (decode_remote tif (tile_id tile_num))
      pure (copied "gtl_ReadTile failed: " r.0, r.1)
