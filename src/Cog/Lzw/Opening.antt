-- ===== src/Cog/Lzw/Opening.antt =====
-- The handle that `getLZWTileDataFromBytes` opens or finds, and its prefetch of a tile.
use gedtm30api.Base.{
  ℕ, suc, ◌+◌, ◌≤◌, ◌<◌, ◌≡◌, ◌⊎◌, refl, ap, sym, subst, ◌∙◌, inl, inr, Option, none, some, List,
  length, get_elem?, slice, arith, ge→ltb, ◌==◌, ==_iff, true, length-slice,
}
use gedtm30api.Base.Int.{ℤ, pos, negsuc, two63, int64_small}
use gedtm30api.Base.Run.{ok}
use gedtm30api.Source.Reader.{Reader}
use gedtm30api.Source.Parallel.{FetchSettings, Chunk}
use gedtm30api.Source.Parallel.Settings.{IsUsable}
use gedtm30api.Source.Parallel.Agreement.{IsSchedule, parallel_read_at-slice}
use gedtm30api.Source.Prefix.Opening.{FindsEnd}
use gedtm30api.Source.Serves.{Serves, IsInside}
use gedtm30api.Tiff.Value.{max_alloc}
use gedtm30api.Registry.{RemoteEntry, register_remote_reader}
use gedtm30api.Registry.Remote.{
  IsNumbered, IsBacked, Reads, register_remote_reader-fresh, register_remote_reader_id,
}
use gedtm30api.Libtiff.{Libtiff, RemoteTiff}
use gedtm30api.Libtiff.Serving.{StaysInside}
use gedtm30api.Libtiff.Tiles.{fresh_handle, open_file, gtl_open_remote-open_file}
use gedtm30api.Cog.{GeoTiff}
use gedtm30api.Cog.Lzw.{
  Remote, set_handle, whole_prefetch, opened, open_remote_tiff, open_handle, handle_or_open,
  get_handle, fetch_compressed, prefetch_tile, registered_read_at,
}

abbrev pub entry_of : {A : Type 0} → A → Option (List ℕ) → ℤ → RemoteEntry A
entry_of reader buf base = record { reader = reader; buf = buf; base = base }

-- An open handle: the registry serves it by the GeoTIFF's reader, without a buffer.
pub record IsServed {T A S : Type 0} (self : A) (tif : RemoteTiff T) (st : Remote T A S)
    : Type 0 where
  pub open_handle : st.remote_tiff ≡ some tif
  pub own_id : tif.handle.id ≡ st.remote_handle_id
  pub entry : st.registry.entries st.remote_handle_id ≡ some (entry_of self none (pos 0))

-- A prefetch holds bytes of the file.
abbrev pub IsPrefetch : List ℕ → Option (List ℕ × ℤ) → Type 0
IsPrefetch file none = Unit
IsPrefetch file (some (buf, base)) =
    (off : ℕ) × (base ≡ pos off)
    × (off + length buf ≤ length file)
    × (buf ≡ slice file off (length buf))

-- The tile's range, if the GeoTIFF has one, is in the file.
unfoldable pub HasRange : {F : Type 0} → GeoTiff F → List ℕ → ℤ → Type 0
HasRange g file (negsuc n) = Unit
HasRange g file (pos n) =
    (off count : ℕ)
    → get_elem? g.tile_offsets n ≡ some off
    → get_elem? g.tile_byte_counts n ≡ some count
    → (off + count ≤ length file) × (count ≤ max_alloc)

module _ {T A S : Type 0} (lib : Libtiff T) (io : A → Reader S) (self : A) (file : List ℕ) where
  -- No handle is open, and libtiff opens the file.
  pub record IsClosed (tif : RemoteTiff T) (st : Remote T A S) : Type 0 where
    pub no_handle : st.remote_tiff ≡ none
    pub numbered : IsNumbered st.registry
    pub opens : open_file lib file (suc st.registry.id_counter) ≡ some tif
    pub stays :
        StaysInside file lib.client_open (fresh_handle lib file (suc st.registry.id_counter))

  module _ {P : S → Type 0} (small : length file < two63)
      (serves : Serves (io self) P file (IsInside file)) (ends : FindsEnd (io self) P file) where
    pub Reads-self : Reads (registered_read_at lib io self) P file small self
    Reads-self k n s p inside = serves.reads k n s p inside (omega arith)

    pub no_buffer-IsBacked : IsBacked file (entry_of self none (pos 0))
    no_buffer-IsBacked = record { backed = λ buf h. cc }

    open_handle-IsServed :
        (tif : RemoteTiff T) (st : Remote T A S)
        → P st.readers
        → IsClosed tif st
        → (st' : Remote T A S) × (open_handle lib io self st
            ≡ (ok (tif, st'.remote_handle_id), st'))
          × P st'.readers
          × IsServed self tif st'
    unfolding open_handle open_remote_tiff opened set_handle
    open_handle-IsServed tif st p closed =
        let (id, g) = register_remote_reader self st.registry in
        let (fresh, entry, others, above) =
          register_remote_reader-fresh st.registry self closed.numbered in
        let is_next = register_remote_reader_id st.registry self closed.numbered.room in
        let (s1, seek, p1) = ends st.readers p in
        let (s2, opening, p2, own) =
          gtl_open_remote-open_file lib file (registered_read_at lib io self) P small g id
            (entry_of self none (pos 0)) entry no_buffer-IsBacked Reads-self s1 tif p1
            (subst (λ i. StaysInside file lib.client_open (fresh_handle lib file i)) (sym is_next)
              closed.stays)
            (ap (open_file lib file) is_next ∙ closed.opens) in
        (
          record { registry = g; readers = s2; remote_tiff = some tif; remote_handle_id = id },
          rw (seek, opening),
          p2,
          record { open_handle = refl; own_id = own; entry = entry },
        )

    pub get_handle-IsServed :
        (tif : RemoteTiff T) (st : Remote T A S)
        → P st.readers
        → IsServed self tif st ⊎ IsClosed tif st
        → (st' : Remote T A S) × (get_handle lib io self st ≡ (ok (tif, st'.remote_handle_id), st'))
          × P st'.readers
          × IsServed self tif st'
    unfolding get_handle handle_or_open
    get_handle-IsServed tif st p (inl served) =
        (st, ap (λ o. handle_or_open lib io self o st) served.open_handle, p, served)
    get_handle-IsServed tif st p (inr closed) =
        let (st', run, p', served) = open_handle-IsServed tif st p closed in
        (st', ap (λ o. handle_or_open lib io self o st) closed.no_handle ∙ run, p', served)

    module _ (settings : FetchSettings) (order : List Chunk → List Chunk)
        (usable : IsUsable settings) (sched : IsSchedule order) {F : Type 0} (g : GeoTiff F) where
      fetch_compressed-IsPrefetch :
          (off count : Option ℕ) (s : S)
          → P s
          → ((o c : ℕ) → off ≡ some o → count ≡ some c → (o + c ≤ length file) × (c ≤ max_alloc))
          → (pre : Option (List ℕ × ℤ)) × (s' : S) × (fetch_compressed lib io self settings order g
                off count s
              ≡ (ok pre, s'))
            × P s'
            × IsPrefetch file pre
      unfolding fetch_compressed whole_prefetch
      fetch_compressed-IsPrefetch none count s p range = (none, s, refl, p, tt)
      fetch_compressed-IsPrefetch (some off) none s p range = (none, s, refl, p, tt)
      fetch_compressed-IsPrefetch (some off) (some count) s p range =
          let (inside, allocated) = range off count refl refl in
          let (s', run, p') =
            parallel_read_at-slice (io self) file serves off count inside small settings order s
              usable sched p in
          let size = length-slice file off count inside in
          let base = int64_small off (omega arith) in
          let all : (count == count) ≡ true = (==_iff count count).1 refl in
          (
            some (slice file off count, pos off),
            s',
            rw (base, run, ge→ltb max_alloc count allocated, all),
            p',
            (off, refl, omega (arith, size), ap (slice file off) (sym size)),
          )

      pub prefetch_tile-IsPrefetch :
          (n : ℤ) (s : S)
          → P s
          → HasRange g file n
          → (pre : Option (List ℕ × ℤ)) × (s' : S) × (prefetch_tile lib io self settings order g n s
              ≡ (ok pre, s'))
            × P s'
            × IsPrefetch file pre
      unfolding prefetch_tile HasRange
      prefetch_tile-IsPrefetch (negsuc n) s p range = (none, s, refl, p, tt)
      prefetch_tile-IsPrefetch (pos n) s p range = fetch_compressed-IsPrefetch _ _ s p range
