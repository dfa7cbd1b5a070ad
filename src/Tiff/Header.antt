-- ===== src/Tiff/Header.antt =====
-- `readHeader` (geotiff/geotiff.go): byte order, TIFF or BigTIFF, and the offset of the first IFD.
pub mod RoundTrip
use gedtm30api.Base.{
  ℕ, ◌+◌, ◌^◌, ◌<◌, ◌≡◌, refl, Bool, true, false, List, [], ◌∷◌, ◌++◌, arith, length, ◌==◌, not,
  if◌then◌else◌,
}
use gedtm30api.Base.Run.{text, Run, ok, err}
use gedtm30api.Base.Io.{Io, ◌>>=◌, ◌>>◌, pure, throw, fail_if}
use gedtm30api.Bytes.{ByteOrder, little_endian, big_endian, put_uint}
use gedtm30api.Source.Reader.{Reader, binary_read}

-- `head`
pub record Head : Type 0 where
  pub byte_order : ByteOrder
  pub is_big_tiff : Bool
  pub ifd_offset : ℕ

abbrev little_endian_magic : ℕ
little_endian_magic = 0x4949

abbrev big_endian_magic : ℕ
big_endian_magic = 0x4d4d

abbrev tiff_identifier : ℕ
tiff_identifier = 42

abbrev big_tiff_identifier : ℕ
big_tiff_identifier = 43

abbrev big_tiff_bytesize : ℕ
big_tiff_bytesize = 8

read_byte_order : {S : Type 0} → ℕ → Io S ByteOrder
read_byte_order magic =
    if magic == little_endian_magic
    then pure little_endian
    else if magic == big_endian_magic
    then pure big_endian
    else throw (text "invalid byte order")

-- `case tiffIdentifier`: a 32-bit offset.
read_classic : {S : Type 0} → Reader S → ByteOrder → Io S Head
read_classic r order = do
  offset ← binary_read r order 4
  pure (record { byte_order = order; is_big_tiff = false; ifd_offset = offset })

-- `case bigTiffIdentifier`: the reserved field is read and not looked at.
read_big : {S : Type 0} → Reader S → ByteOrder → Io S Head
read_big r order = do
  bytesize ← binary_read r order 2
  fail_if (not (bytesize == big_tiff_bytesize)) (text "invalid BigTIFF bytesize")
  reserved ← binary_read r order 2
  offset ← binary_read r order 8
  pure (record { byte_order = order; is_big_tiff = true; ifd_offset = offset })

read_format : {S : Type 0} → Reader S → ByteOrder → ℕ → Io S Head
unfolding read_classic read_big
read_format r order identifier =
    if identifier == tiff_identifier
    then read_classic r order
    else if identifier == big_tiff_identifier
    then read_big r order
    else throw (text "invalid tiff identifier: ")

unfoldable pub read_header : {S : Type 0} → Reader S → Io S Head
unfolding read_byte_order read_format
read_header r = do
  magic ← binary_read r big_endian 2
  order ← read_byte_order magic
  identifier ← binary_read r order 2
  read_format r order identifier

-- The header that a writer puts in front of a file.
magic_of : ByteOrder → ℕ
magic_of little_endian = little_endian_magic
magic_of big_endian = big_endian_magic

abbrev offset_bound : Bool → ℕ
offset_bound true = 256 ^ 8
offset_bound false = 256 ^ 4

unfoldable pub put_header : Head → List ℕ → List ℕ
unfolding magic_of
put_header h rest =
    let order = h.byte_order in
    put_uint big_endian 2 (magic_of order) ++ elim h.is_big_tiff [
      | false ↦ put_uint order 2 tiff_identifier ++ (put_uint order 4 h.ifd_offset ++ rest)
      | true ↦
          put_uint order 2 big_tiff_identifier
          ++ (put_uint order 2 big_tiff_bytesize
              ++ (put_uint order 2 0 ++ (put_uint order 8 h.ifd_offset ++ rest)))
    ]
