-- ===== src/Tests/Files.antt =====
-- Headers and directories of TIFF files.
use gedtm30api.Base.{ℕ, ◌≡◌, ◌↔◌, refl, true, false, List, [], ◌∷◌, ◌<◌, length, All, arith}
use gedtm30api.Base.Int.{two63}
use gedtm30api.Base.Run.{ok, panic}
use gedtm30api.Bytes.{put_uint, little_endian, big_endian}
use gedtm30api.Source.Memory.{memory}
use gedtm30api.Tiff.FieldType.{bytes, bytes-panic_iff}
use gedtm30api.Tiff.Header.{Head, read_header, put_header}
use gedtm30api.Tiff.Header.RoundTrip.{read_header-put_header}
use gedtm30api.Tiff.Entry.{read_entries, put_entry}
use gedtm30api.Tiff.Entry.Fields.{RawEntry}
use gedtm30api.Tiff.Entry.RoundTrip.{
  IsReadable, put_entries, parsed_entries, read_entries-put_entries,
}

bytes-panic_iff_example : (bytes 19 ≡ panic) ↔ (◌≡◌ {A = ℕ} 19 19)
bytes-panic_iff_example = bytes-panic_iff 19

abbrev big_tiff_head : Head
big_tiff_head = record { byte_order = big_endian; is_big_tiff = true; ifd_offset = 4096 }

read_header-put_header_example :
    read_header memory (record { contents = put_header big_tiff_head []; offset = 0 })
    ≡ (ok big_tiff_head, record { contents = put_header big_tiff_head []; offset = 16 })
read_header-put_header_example = read_header-put_header big_endian true 4096 [] (omega arith)

-- ImageWidth, a short kept inline, and TileOffsets, of two longs.
abbrev two_entries : List RawEntry
two_entries =
    record { tag = 256; f_type = 3; count = 1; field = 1000 }
    ∷ record { tag = 324; f_type = 4; count = 2; field = 300 }
    ∷ []

abbrev two_entries_file : List ℕ
two_entries_file = put_entries little_endian false two_entries []

two_entries-IsReadable : All (IsReadable false) two_entries
two_entries-IsReadable = (
  (
    record { tag = omega arith; f_type = omega arith; count = omega arith; field = omega arith },
    λ e. omega arith,
  ),
  (
    (
      record { tag = omega arith; f_type = omega arith; count = omega arith; field = omega arith },
      λ e. omega arith,
    ),
    tt,
  ),
)

two_entries_file-small : length two_entries_file < two63
unfolding put_entries put_entry put_uint
two_entries_file-small = omega arith

read_entries-put_entries_example :
    read_entries little_endian false 2 (record { contents = two_entries_file; offset = 0 })
    ≡ ok (parsed_entries little_endian false two_entries)
read_entries-put_entries_example =
    read_entries-put_entries little_endian false two_entries two_entries_file [] 0
      two_entries-IsReadable two_entries_file-small refl
