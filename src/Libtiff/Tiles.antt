-- ===== src/Libtiff/Tiles.antt =====
-- Opening a file and decoding its tiles through the callbacks, as libtiff does it on the file itself.
use mathlib.Core.Option
use gedtm30api.Base.{
  ℕ, zero, suc, ◌<◌, ◌≡◌, refl, ap, sym, subst, ◌∙◌, inl, inr, Option, none, some, List, length,
  if◌then◌else◌, Bool-cases,
}
use gedtm30api.Base.Int.{ℤ, pos, negsuc, two63}
use gedtm30api.Base.Run.{text, Run, ok, err}
use gedtm30api.Base.Io.{Io}
use gedtm30api.Source.Reader.{Read}
use gedtm30api.Registry.{RemoteEntry, Registry}
use gedtm30api.Registry.Remote.{IsBacked, Reads}
use gedtm30api.Libtiff.{
  RHandle, Decoded, Libtiff, RemoteTiff, TileRead, gtl_read_tile, tile_id, copied, tile_read,
  failed_read, gtl_open_remote, decode_remote, read_tile_from_handle,
}
use gedtm30api.Libtiff.Serving.{run_file, StaysInside, run_script-run_file}

mapped_handle :
    {T : Type 0} (o : Option T) (rh : RHandle) (tif : RemoteTiff T)
    → Option.map (λ t. record { tiff = t; handle = rh }) o ≡ some tif
    → tif.handle ≡ rh
mapped_handle none rh tif h = cc
mapped_handle (some t) rh tif h =
    let same : record { tiff = t; handle = rh } ≡ tif = cc in ap (λ x. x.handle) (sym same)

module _ {T : Type 0} (lib : Libtiff T) (file : List ℕ) where
  abbrev pub fresh_handle : ℕ → RHandle
  fresh_handle id = record { size = pos (length file); position = pos 0; id = id }

  -- The handle that libtiff makes of the file.
  unfoldable pub open_file : ℕ → Option (RemoteTiff T)
  open_file id =
      let (tiff, rh) = run_file file lib.client_open (fresh_handle id) in
      if lib.malloc 24 then Option.map (λ t. record { tiff = t; handle = rh }) tiff else none

  abbrev decode_file : RemoteTiff T → ℕ → ℕ → Decoded (RemoteTiff T)
  decode_file tif n size =
      let (d, rh) = run_file file (lib.read_encoded_tile tif.tiff n size) tif.handle in
      record { count = d.count; buf = d.buf; tiff = record { tiff = d.tiff; handle = rh } }

  abbrev refused : Run (List ℕ)
  refused = err (text "gtl_ReadTile failed: ")

  abbrev tile_of_size : RemoteTiff T → ℤ → ℤ → Run (List ℕ) × RemoteTiff T
  tile_of_size tif n (pos zero) = (refused, tif)
  tile_of_size tif n (negsuc m) = (refused, tif)
  tile_of_size tif n (pos (suc m)) =
      let d = decode_file tif (tile_id n) (suc m) in
      if lib.malloc (suc m)
      then (copied "gtl_ReadTile failed: " (tile_read d), d.tiff)
      else (refused, tif)

  -- The bytes that libtiff decodes a tile of the file to, and the handle then. A tile without a size,
  -- or for which there is no memory, is refused.
  unfoldable pub tile_of_file : RemoteTiff T → ℤ → Run (List ℕ) × RemoteTiff T
  tile_of_file tif n = tile_of_size tif n (lib.tile_size tif.tiff)

  -- While it decodes the tile, libtiff reads only what the file has.
  abbrev pub ReadsTile : RemoteTiff T → ℤ → Type 0
  ReadsTile tif n =
      (size : ℕ) → StaysInside file (lib.read_encoded_tile tif.tiff (tile_id n) size) tif.handle

  module _ {A S : Type 0} (read_at : A → ℤ → ℕ → Io S Read) (P : S → Type 0)
      (small : length file < two63) (g : Registry A) (id : ℕ) (e : RemoteEntry A)
      (found : g.entries id ≡ some e) (backed : IsBacked file e)
      (reads : Reads read_at P file small e.reader) where
    pub gtl_open_remote-open_file :
        (s : S) (tif : RemoteTiff T)
        → P s
        → StaysInside file lib.client_open (fresh_handle id)
        → open_file id ≡ some tif
        → (s' : S) × (gtl_open_remote lib read_at g (pos (length file)) id s ≡ (ok (some tif), s'))
          × P s'
          × (tif.handle.id ≡ id)
    unfolding gtl_open_remote open_file
    gtl_open_remote-open_file s tif ps stays opens =
        let (s', run, p', own) =
          run_script-run_file read_at P file small g id e found backed reads lib.client_open
            (fresh_handle id) s ps refl stays in
        elim (Bool-cases (lib.malloc 24)) [
          | inl there ↦
              let mapped = rw there at opens in
              (
                s',
                rw (there, run) (ap (λ o. (ok o, s')) mapped),
                p',
                ap (λ h. h.id) (mapped_handle _ _ tif mapped) ∙ own,
              )
          | inr full ↦ let none_opened = rw full at opens in cc
        ]

    gtl_read_tile-tile_of_size :
        (tif : RemoteTiff T) (n z : ℤ) (s : S)
        → P s
        → tif.handle.id ≡ id
        → ReadsTile tif n
        → (r : TileRead × RemoteTiff T) × (s' : S) × (gtl_read_tile lib.malloc z tif
              (decode_remote lib read_at g tif (tile_id n))
              s
            ≡ (ok r, s'))
          × P s'
          × (r.1.handle.id ≡ id)
          × (◌≡◌ {A = Run (List ℕ) × RemoteTiff T}
              (copied "gtl_ReadTile failed: " r.0, r.1)
              (tile_of_size tif n z))
    unfolding gtl_read_tile decode_remote copied failed_read
    gtl_read_tile-tile_of_size tif n (pos zero) s ps own stays =
        ((failed_read 0, tif), s, refl, ps, own, refl)
    gtl_read_tile-tile_of_size tif n (negsuc m) s ps own stays =
        ((failed_read 0, tif), s, refl, ps, own, refl)
    gtl_read_tile-tile_of_size tif n (pos (suc m)) s ps own stays =
        let script = lib.read_encoded_tile tif.tiff (tile_id n) (suc m) in
        let (s', run, p', own') =
          run_script-run_file read_at P file small g id e found backed reads script tif.handle s ps
            own (stays (suc m)) in
        let d = decode_file tif (tile_id n) (suc m) in
        elim (Bool-cases (lib.malloc (suc m))) [
          | inl there ↦ ((tile_read d, d.tiff), s', rw (there, run), p', own', rw there)
          | inr full ↦ ((failed_read 1, tif), s, rw full, ps, own, rw full)
        ]

    pub read_tile_from_handle-tile_of_file :
        (tif : RemoteTiff T) (n : ℤ) (s : S)
        → P s
        → tif.handle.id ≡ id
        → ReadsTile tif n
        → (s' : S) × (read_tile_from_handle lib read_at g tif n s ≡ (ok (tile_of_file tif n), s'))
          × P s'
          × ((tile_of_file tif n).1.handle.id ≡ id)
    unfolding read_tile_from_handle tile_of_file
    read_tile_from_handle-tile_of_file tif n s ps own stays =
        let (r, s', run, p', own', same) =
          gtl_read_tile-tile_of_size tif n (lib.tile_size tif.tiff) s ps own stays in
        (s', rw run (ap (λ v. (ok v, s')) same), p', subst (λ v. v.1.handle.id ≡ id) same own')
