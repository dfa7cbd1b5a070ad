-- ===== src/Cog/Lzw/Buffers.antt =====
-- No call leaves a prefetched buffer in the registry.
use gedtm30api.Base.{ℕ, ◌≡◌, ◌≢◌, refl, subst, sym, Option, none, some, List, String}
use gedtm30api.Base.Int.{ℤ}
use gedtm30api.Base.Run.{Run, ok, err, panic, hang, wrap_error as wrap_run}
use gedtm30api.Base.Io
use gedtm30api.Base.Io.{Io, ◌>>=◌, wrap_error}
use gedtm30api.Source.Reader.{Reader}
use gedtm30api.Source.Parallel.{FetchSettings, Chunk}
use gedtm30api.Registry.{Registry}
use gedtm30api.Registry.Buffers.{
  NoBuffers, register_remote_reader-NoBuffers, unregister_remote_reader-NoBuffers,
  clear_remote_buffer-NoBuffers,
}
use gedtm30api.Libtiff.{Libtiff, RemoteTiff}
use gedtm30api.Cog.{GeoTiff}
use gedtm30api.Cog.Lzw.{
  Remote, set_handle, set_prefetched, clear_prefetched, decoded, opened, open_remote_tiff,
  get_handle, open_handle, handle_or_open, tile_returned, read_prefetched,
  get_lzw_tile_data_from_bytes,
}

clear_prefetched-NoBuffers :
    {A : Type 0} (id : ℕ) (pre : Option (List ℕ × ℤ)) (g : Registry A)
    → NoBuffers g
    → NoBuffers (clear_prefetched id pre (set_prefetched id pre g))
unfolding clear_prefetched set_prefetched
clear_prefetched-NoBuffers id none g h = h
clear_prefetched-NoBuffers id (some p) g h = clear_remote_buffer-NoBuffers id (some p.0) p.1 g h

-- The call came back to Go: with a value or with an error.
abbrev pub Returns : {X : Type 0} → Run X → Type 0
Returns r = (r ≢ panic) × (r ≢ hang)

wrap_error-Returns : {X : Type 0} (t : String) (r : Run X) → Returns (wrap_run t r) → Returns r
wrap_error-Returns t (ok x) back = (λ e. cc, λ e. cc)
wrap_error-Returns t (err e) back = (λ e. cc, λ e. cc)
wrap_error-Returns t panic back = absurd (back.0 refl)
wrap_error-Returns t hang back = absurd (back.1 refl)

module _ {T A S : Type 0} where
  abbrev IsClean : {X : Type 0} → Run X × Remote T A S → Type 0
  IsClean p = Returns p.0 → NoBuffers p.1.registry

  -- A call that leaves no buffer, if it finds none.
  abbrev KeepsClean : {X : Type 0} → Io (Remote T A S) X → Type 0
  KeepsClean m = (st : Remote T A S) → NoBuffers st.registry → IsClean (m st)

  continue-IsClean :
      {X Y : Type 0} (r : Run X) (k : X → Io (Remote T A S) Y) (st : Remote T A S)
      → (Returns r → NoBuffers st.registry)
      → ((x : X) → KeepsClean (k x))
      → IsClean (Io.continue r k st)
  continue-IsClean (ok x) k st h keeps back = keeps x st (h (λ e. cc, λ e. cc)) back
  continue-IsClean (err e) k st h keeps back = h (λ e. cc, λ e. cc)
  continue-IsClean panic k st h keeps back = absurd (back.0 refl)
  continue-IsClean hang k st h keeps back = absurd (back.1 refl)

  >>=-KeepsClean :
      {X Y : Type 0} (m : Io (Remote T A S) X) (k : X → Io (Remote T A S) Y)
      → KeepsClean m
      → ((x : X) → KeepsClean (k x))
      → KeepsClean (m >>= k)
  >>=-KeepsClean m k keeps next st h = continue-IsClean (m st).0 k (m st).1 (keeps st h) next

  wrap_error-KeepsClean :
      {X : Type 0} (t : String) (m : Io (Remote T A S) X)
      → KeepsClean m
      → KeepsClean (wrap_error t m)
  wrap_error-KeepsClean t m keeps st h back = keeps st h (wrap_error-Returns t (m st).0 back)

  decoded-IsClean :
      (id : ℕ) (pre : Option (List ℕ × ℤ)) (g : Registry A) (st : Remote T A S) (r : Run (List ℕ))
      → NoBuffers g
      → st.registry ≡ set_prefetched id pre g
      → IsClean (decoded id pre st r)
  unfolding decoded
  decoded-IsClean id pre g st (ok raw) h same _ =
      subst (λ q. NoBuffers (clear_prefetched id pre q)) (sym same)
        (clear_prefetched-NoBuffers id pre g h)
  decoded-IsClean id pre g st (err e) h same _ =
      subst (λ q. NoBuffers (clear_prefetched id pre q)) (sym same)
        (clear_prefetched-NoBuffers id pre g h)
  decoded-IsClean id pre g st panic h same back = absurd (back.0 refl)
  decoded-IsClean id pre g st hang h same back = absurd (back.1 refl)

  tile_returned-IsClean :
      (id : ℕ) (pre : Option (List ℕ × ℤ)) (g : Registry A) (st : Remote T A S)
      (r : Run (Run (List ℕ) × RemoteTiff T))
      → NoBuffers g
      → st.registry ≡ set_prefetched id pre g
      → IsClean (tile_returned id pre st r)
  unfolding tile_returned
  tile_returned-IsClean id pre g st (ok (raw, tif)) h same back =
      decoded-IsClean id pre g (record st { remote_tiff = some tif }) (wrap_run _ raw) h same back
  tile_returned-IsClean id pre g st (err e) h same back =
      decoded-IsClean id pre g st (err e) h same back
  tile_returned-IsClean id pre g st panic h same back = absurd (back.0 refl)
  tile_returned-IsClean id pre g st hang h same back = absurd (back.1 refl)

  module _ (lib : Libtiff T) (io : A → Reader S) (self : A) where
    opened-NoBuffers :
        (id : ℕ) (st : Remote T A S) (r : Run (Option (RemoteTiff T)))
        → NoBuffers st.registry
        → NoBuffers (opened lib io self id st r).1.registry
    unfolding opened
    opened-NoBuffers id st (ok (some tif)) h = h
    opened-NoBuffers id st (ok none) h = unregister_remote_reader-NoBuffers id st.registry h
    opened-NoBuffers id st (err e) h = h
    opened-NoBuffers id st panic h = h
    opened-NoBuffers id st hang h = h

    open_remote_tiff-KeepsClean : (size : ℤ) → KeepsClean (open_remote_tiff lib io self size)
    unfolding open_remote_tiff
    open_remote_tiff-KeepsClean size st h _ =
        opened-NoBuffers _ _ _ (register_remote_reader-NoBuffers self st.registry h)

    open_handle-KeepsClean : KeepsClean (open_handle lib io self)
    unfolding open_handle set_handle
    open_handle-KeepsClean =
        >>=-KeepsClean _ _ (λ st h back. h)
          (λ size.
            >>=-KeepsClean _ _
              (wrap_error-KeepsClean _ (open_remote_tiff lib io self size)
                (open_remote_tiff-KeepsClean size))
              (λ tif st h back. h))

    handle_or_open-KeepsClean :
        (o : Option (RemoteTiff T)) → KeepsClean (handle_or_open lib io self o)
    unfolding handle_or_open
    handle_or_open-KeepsClean (some tif) st h back = h
    handle_or_open-KeepsClean none st h back = open_handle-KeepsClean st h back

    get_handle-KeepsClean : KeepsClean (get_handle lib io self)
    unfolding get_handle
    get_handle-KeepsClean st = handle_or_open-KeepsClean st.remote_tiff st

    read_prefetched-KeepsClean :
        (tif : RemoteTiff T) (id : ℕ) (n : ℤ) (pre : Option (List ℕ × ℤ))
        → KeepsClean (read_prefetched lib io self tif id n pre)
    unfolding read_prefetched
    read_prefetched-KeepsClean tif id n pre st h =
        tile_returned-IsClean id pre st.registry _ _ h refl

    -- Whatever libtiff, the reader and the file do: a call of getLZWTileDataFromBytes that
    -- returns, with a tile or with an error, leaves no prefetched buffer in the registry, if there
    -- was none before.
    pub get_lzw_tile_data_from_bytes-NoBuffers :
        (settings : FetchSettings) (order : List Chunk → List Chunk) {F : Type 0} (g : GeoTiff F)
        (n : ℤ) (st : Remote T A S)
        → NoBuffers st.registry
        → Returns (get_lzw_tile_data_from_bytes lib io self settings order g n st).0
        → NoBuffers (get_lzw_tile_data_from_bytes lib io self settings order g n st).1.registry
    unfolding get_lzw_tile_data_from_bytes
    get_lzw_tile_data_from_bytes-NoBuffers settings order g n =
        >>=-KeepsClean _ _ get_handle-KeepsClean (λ tif.
          >>=-KeepsClean _ _ (λ st h back. h) (λ pre. read_prefetched-KeepsClean tif.0 tif.1 n pre))
