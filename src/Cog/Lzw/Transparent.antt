-- ===== src/Cog/Lzw/Transparent.antt =====
-- `getLZWTileDataFromBytes` gives what libtiff decodes from the file itself.
use gedtm30api.Base.{ℕ, ◌<◌, ◌≡◌, ◌⊎◌, refl, subst, Option, none, some, List, String, length}
use gedtm30api.Base.Int.{ℤ, pos, two63}
use gedtm30api.Base.Run.{Run, ok, err, panic, hang, wrap_error as wrap_run}
use gedtm30api.Source.Reader.{Reader}
use gedtm30api.Source.Parallel.{FetchSettings, Chunk}
use gedtm30api.Source.Parallel.Settings.{IsUsable}
use gedtm30api.Source.Parallel.Agreement.{IsSchedule}
use gedtm30api.Source.Prefix.Opening.{FindsEnd}
use gedtm30api.Source.Serves.{Serves, IsInside}
use gedtm30api.Registry.{Registry}
use gedtm30api.Registry.Remote.{IsBacked}
use gedtm30api.Registry.Buffers.{entry-set_remote_buffer, entry-clear_remote_buffer}
use gedtm30api.Libtiff.{Libtiff, RemoteTiff}
use gedtm30api.Libtiff.Tiles.{tile_of_file, ReadsTile, read_tile_from_handle-tile_of_file}
use gedtm30api.Cog.{GeoTiff}
use gedtm30api.Cog.Lzw.{
  Remote, set_prefetched, clear_prefetched, decoded, tile_returned, read_prefetched,
  registered_read_at, get_lzw_tile_data_from_bytes,
}
use gedtm30api.Cog.Lzw.Buffers.{Returns}
use gedtm30api.Cog.Lzw.Opening.{
  entry_of, IsServed, IsClosed, IsPrefetch, HasRange, Reads-self, no_buffer-IsBacked,
  get_handle-IsServed, prefetch_tile-IsPrefetch,
}

decoded-returned :
    {T A S : Type 0} (id : ℕ) (pre : Option (List ℕ × ℤ)) (st : Remote T A S) (r : Run (List ℕ))
    → Returns r
    → decoded id pre st r ≡ (r, record st { registry = clear_prefetched id pre st.registry })
unfolding decoded
decoded-returned id pre st (ok raw) back = refl
decoded-returned id pre st (err e) back = refl
decoded-returned id pre st panic back = absurd (back.0 refl)
decoded-returned id pre st hang back = absurd (back.1 refl)

Returns-wrap : {X : Type 0} (t : String) (r : Run X) → Returns r → Returns (wrap_run t r)
Returns-wrap t (ok x) back = back
Returns-wrap t (err e) back = (λ e. cc, λ e. cc)
Returns-wrap t panic back = absurd (back.0 refl)
Returns-wrap t hang back = absurd (back.1 refl)

entry-clear_prefetched :
    {A : Type 0} (id : ℕ) (pre : Option (List ℕ × ℤ)) (g : Registry A) (self : A)
    → g.entries id ≡ some (entry_of self none (pos 0))
    → (clear_prefetched id pre (set_prefetched id pre g)).entries id
      ≡ some (entry_of self none (pos 0))
unfolding clear_prefetched set_prefetched
entry-clear_prefetched id none g self found = found
entry-clear_prefetched id (some (buf, base)) g self found =
    entry-clear_remote_buffer id _ (entry_of self (some buf) base)
      (entry-set_remote_buffer id (some buf) base g (entry_of self none (pos 0)) found)

module _ {T A S : Type 0} (lib : Libtiff T) (io : A → Reader S) (self : A) (file : List ℕ)
    {P : S → Type 0} (small : length file < two63)
    (serves : Serves (io self) P file (IsInside file)) (ends : FindsEnd (io self) P file) where
  entry-set_prefetched :
      (id : ℕ) (pre : Option (List ℕ × ℤ)) (g : Registry A)
      → g.entries id ≡ some (entry_of self none (pos 0))
      → IsPrefetch file pre
      → (buf : Option (List ℕ)) × (base : ℤ) × ((set_prefetched id pre g).entries id
          ≡ some (entry_of self buf base))
        × IsBacked file (entry_of self buf base)
  unfolding set_prefetched
  entry-set_prefetched id none g found held =
      (none, pos 0, found, no_buffer-IsBacked lib io self file small serves ends)
  entry-set_prefetched id (some (buf, base)) g found held = (
    some buf,
    base,
    entry-set_remote_buffer id (some buf) base g (entry_of self none (pos 0)) found,
    record {
      backed = λ buf' same.
          let e : buf ≡ buf' = cc in subst (λ b. IsPrefetch file (some (b, base))) e held;
    },
  )

  read_prefetched-tile_of_file :
      (tif : RemoteTiff T) (n : ℤ) (pre : Option (List ℕ × ℤ)) (st : Remote T A S)
      → P st.readers
      → IsServed self tif st
      → IsPrefetch file pre
      → ReadsTile lib file tif n
      → Returns (tile_of_file lib file tif n).0
      → (st' : Remote T A S) × (read_prefetched lib io self tif st.remote_handle_id n pre st
          ≡ (wrap_run "libtiff remote decode tile: " (tile_of_file lib file tif n).0, st'))
        × P st'.readers
        × IsServed self (tile_of_file lib file tif n).1 st'
  unfolding read_prefetched tile_returned
  read_prefetched-tile_of_file tif n pre st p served held stays back =
      let id = st.remote_handle_id in
      let (buf, base, entry, backed) = entry-set_prefetched id pre st.registry served.entry held in
      let g = set_prefetched id pre st.registry in
      let (s', run, p', own) =
        read_tile_from_handle-tile_of_file lib file (registered_read_at lib io self) P small g id
          (entry_of self buf base) entry backed (Reads-self lib io self file small serves ends) tif
          n st.readers p served.own_id stays in
      let (raw, tif') = tile_of_file lib file tif n in
      let st1 = record st { registry = g; readers = s'; remote_tiff = some tif' } in
      let answer = wrap_run "libtiff remote decode tile: " raw in
      (
        record st1 { registry = clear_prefetched id pre g },
        rw run (decoded-returned id pre st1 answer (Returns-wrap _ raw back)),
        p',
        record {
          open_handle = refl;
          own_id = own;
          entry = entry-clear_prefetched id pre st.registry self served.entry;
        },
      )

  -- An LZW tile of a GeoTIFF whose reader serves a file and finds its end, where libtiff, on the
  -- file, reads only what the file has and its decoding returns: getLZWTileDataFromBytes returns the
  -- bytes, or the error, that libtiff decodes the tile of the file itself to, whether the handle was
  -- open or is opened by this call, and whatever part of the reads the prefetched tile serves. The
  -- handle is then open, is the one that libtiff leaves, and its registry entry has no buffer.
  pub get_lzw_tile_data_from_bytes-tile_of_file :
      (settings : FetchSettings) (order : List Chunk → List Chunk) (usable : IsUsable settings)
      (sched : IsSchedule order) {F : Type 0} (g : GeoTiff F) (n : ℤ) (tif : RemoteTiff T)
      (st : Remote T A S)
      → P st.readers
      → IsServed self tif st ⊎ IsClosed lib io self file tif st
      → HasRange g file n
      → ReadsTile lib file tif n
      → Returns (tile_of_file lib file tif n).0
      → (st' : Remote T A S) × (get_lzw_tile_data_from_bytes lib io self settings order g n st
          ≡ (wrap_run "libtiff remote decode tile: " (tile_of_file lib file tif n).0, st'))
        × P st'.readers
        × IsServed self (tile_of_file lib file tif n).1 st'
  unfolding get_lzw_tile_data_from_bytes
  get_lzw_tile_data_from_bytes-tile_of_file settings order usable sched g n tif st p state range
        stays back =
      let (st1, handle, p1, served) =
        get_handle-IsServed lib io self file small serves ends tif st p state in
      let (pre, s2, fetch, p2, held) =
        prefetch_tile-IsPrefetch lib io self file small serves ends settings order usable sched g n
          st1.readers p1 range in
      let st2 = record st1 { readers = s2 } in
      let served2 : IsServed self tif st2 = record {
        open_handle = served.open_handle;
        own_id = served.own_id;
        entry = served.entry;
      } in
      let (st3, run, p3, served3) =
        read_prefetched-tile_of_file tif n pre st2 p2 served2 held stays back in
      (st3, rw (handle, fetch) run, p3, served3)
