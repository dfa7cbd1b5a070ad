-- ===== src/Tiff/Directory.antt =====
-- `readTags` (geotiff/geotiff.go): the header, the first IFD and the values of its entries.
use gedtm30api.Base.{ℕ, ◌*◌, Bool, true, false, List, [], ◌∷◌, ltb, ◌==◌, if◌then◌else◌}
use gedtm30api.Base.Int.{ℤ, pos, negsuc, int64, add64, mul64}
use gedtm30api.Base.Run.{text, ok, panic}
use gedtm30api.Base.Io.{Io, ◌>>=◌, ◌>>◌, pure, lift, fail_if, wrap_error}
use gedtm30api.Source.Reader.{Reader, Whence, read_full, binary_read}
use gedtm30api.Tiff.Header.{Head, read_header}
use gedtm30api.Tiff.Entry.{IfdEntry, entry_len, read_entries}
use gedtm30api.Tiff.Value.{Tags, value, max_alloc}

-- A reader, and what `readTags` does beside reading if it is a prefixReader: `addExtent` and
-- `prefetchMissingRanges`, which leave the state of any other reader alone.
pub record Source (S : Type 0) : Type 0 where
  pub reader : Reader S
  pub add_extent : ℤ → List ℕ → S → S
  pub prefetch : List IfdEntry → Io S (Unit {0})

abbrev pub plain_source : {S : Type 0} → Reader S → Source S
plain_source r = record { reader = r; add_extent = λ _ _ s. s; prefetch = λ _ s. (ok tt, s) }

abbrev count_field_size : Bool → ℕ
count_field_size true = 8
count_field_size false = 2

-- `make([]byte, n)`: a size out of range panics.
abbrev make_block : {S : Type 0} → ℤ → Io S ℕ
make_block (pos n) s = (if ltb max_alloc n then panic else ok n, s)
make_block (negsuc n) s = (panic, s)

abbrev change : {S : Type 0} → (S → S) → Io S (Unit {0})
change f s = (ok tt, f s)

-- The size in memory of an `iFDEntry`, of which `make` reserves one for each entry.
abbrev entry_memory : ℕ
entry_memory = 48

reserve : {S : Type 0} → ℕ → Io S (Unit {0})
reserve n s = (if ltb max_alloc (entry_memory * n) then panic else ok tt, s)

-- The third pass.
read_values : {S : Type 0} → Reader S → Head → List IfdEntry → Tags → Io S Tags
read_values r h [] tags = pure tags
read_values r h (e ∷ es) tags = do
  d ← value r h.byte_order e
  read_values r h es ((e.tag, d) ∷ tags)

read_ifd : {S : Type 0} → Source S → Head → Io S Tags
read_ifd src h = do
  moved ← src.reader.seek (int64 h.ifd_offset) Whence.start
  num_entries ← binary_read src.reader h.byte_order (count_field_size h.is_big_tiff)
  let block_start = add64 (int64 h.ifd_offset) (pos (count_field_size h.is_big_tiff))
  size ← make_block (mul64 (pos (entry_len h.is_big_tiff)) (int64 num_entries))
  block ← wrap_error "failed to read IFD block: " (read_full src.reader size)
  change (src.add_extent block_start block)
  reserve num_entries
  entries ← lift (
      read_entries h.byte_order h.is_big_tiff num_entries (record { contents = block; offset = 0 }))
  src.prefetch entries
  read_values src.reader h entries []

pub read_tags : {S : Type 0} → Source S → Io S (Tags × Head)
read_tags src = do
  h ← read_header src.reader
  fail_if (h.ifd_offset == 0) (text "file contains no IFDs")
  tags ← read_ifd src h
  pure (tags, h)
