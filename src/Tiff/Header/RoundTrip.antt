-- ===== src/Tiff/Header/RoundTrip.antt =====
-- `readHeader` reads back the header that a writer put.
use gedtm30api.Base.{ℕ, ◌^◌, ◌<◌, ◌≡◌, refl, Bool, true, false, List, ◌++◌, arith, drop}
use gedtm30api.Base.Run.{ok}
use gedtm30api.Bytes.{ByteOrder, little_endian, big_endian, put_uint}
use gedtm30api.Source.Memory.{Memory, memory, drop-put_uint, binary_read-put_uint}
use gedtm30api.Tiff.Header.{
  Head, read_byte_order, read_classic, read_big, read_format, read_header, magic_of, put_header,
  offset_bound,
}

abbrev pub header_length : Bool → ℕ
header_length true = 16
header_length false = 8

abbrev at_offset : List ℕ → ℕ → Memory
at_offset file p = record { contents = file; offset = p }

module _ (o : ByteOrder) (file rest : List ℕ) (off : ℕ) where
  read_classic-put :
      off < 256 ^ 4
      → drop 4 file ≡ put_uint o 4 off ++ rest
      → read_classic memory o (at_offset file 4)
        ≡ (ok (record { byte_order = o; is_big_tiff = false; ifd_offset = off }), at_offset file 8)
  unfolding read_classic
  read_classic-put small at = rw (binary_read-put_uint o 4 off file rest 4 (omega arith) small at)

  read_big-put :
      off < 256 ^ 8
      → drop 4 file ≡ put_uint o 2 8 ++ (put_uint o 2 0 ++ (put_uint o 8 off ++ rest))
      → read_big memory o (at_offset file 4)
        ≡ (ok (record { byte_order = o; is_big_tiff = true; ifd_offset = off }), at_offset file 16)
  unfolding read_big
  read_big-put small at =
      let tail = put_uint o 8 off ++ rest in
      let at6 = drop-put_uint o 2 8 file (put_uint o 2 0 ++ tail) 4 at in
      let at8 = drop-put_uint o 2 0 file tail 6 at6 in
      rw (
        binary_read-put_uint o 2 8 file (put_uint o 2 0 ++ tail) 4 (omega arith) (omega arith) at,
        binary_read-put_uint o 2 0 file tail 6 (omega arith) (omega arith) at6,
        binary_read-put_uint o 8 off file rest 8 (omega arith) small at8,
      )

read_byte_order-magic_of : (o : ByteOrder) (s : Memory) → read_byte_order (magic_of o) s ≡ (ok o, s)
unfolding read_byte_order magic_of
read_byte_order-magic_of little_endian s = refl
read_byte_order-magic_of big_endian s = refl

magic_of-lt : (o : ByteOrder) → magic_of o < 256 ^ 2
unfolding magic_of
magic_of-lt little_endian = omega arith
magic_of-lt big_endian = omega arith

-- What is left after the byte order and the identifier is read by the format.
read_header_start :
    (o : ByteOrder) (file rest : List ℕ) (identifier : ℕ)
    → identifier < 256 ^ 2
    → file ≡ put_uint big_endian 2 (magic_of o) ++ (put_uint o 2 identifier ++ rest)
    → (read_header memory (at_offset file 0) ≡ read_format memory o identifier (at_offset file 4))
      × (drop 4 file ≡ rest)
unfolding read_header
read_header_start o file rest identifier small at =
    let tail = put_uint o 2 identifier ++ rest in
    let at2 = drop-put_uint big_endian 2 (magic_of o) file tail 0 at in
    (
      rw (
        binary_read-put_uint big_endian 2 (magic_of o) file tail 0 (omega arith) (magic_of-lt o) at,
        read_byte_order-magic_of o (at_offset file 2),
        binary_read-put_uint o 2 identifier file rest 2 (omega arith) small at2,
      ),
      drop-put_uint o 2 identifier file rest 2 at2,
    )

-- readHeader of a header as a writer puts it, in either byte order and format and with an
-- offset that fits, returns the byte order, the format and the offset, and leaves the reader
-- behind the header.
pub read_header-put_header :
    (o : ByteOrder) (big : Bool) (off : ℕ) (rest : List ℕ)
    → off < offset_bound big
    → let h : Head = record { byte_order = o; is_big_tiff = big; ifd_offset = off } in
      read_header memory (record { contents = put_header h rest; offset = 0 })
      ≡ (ok h, record { contents = put_header h rest; offset = header_length big })
unfolding put_header read_format
read_header-put_header o false off rest small =
    let tail = put_uint o 4 off ++ rest in
    let (start, at) = read_header_start o _ tail 42 (omega arith) refl in
    rw start (read_classic-put o _ rest off small at)
read_header-put_header o true off rest small =
    let tail = put_uint o 2 8 ++ (put_uint o 2 0 ++ (put_uint o 8 off ++ rest)) in
    let (start, at) = read_header_start o _ tail 43 (omega arith) refl in
    rw start (read_big-put o _ rest off small at)
