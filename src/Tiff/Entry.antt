-- ===== src/Tiff/Entry.antt =====
-- The entries of an image file directory: `iFDEntry` and the first pass of `readTags`
-- (geotiff/geotiff.go).
pub mod Fields
pub mod RoundTrip
use gedtm30api.Base.{
  ℕ, zero, suc, ◌+◌, ◌-◌, ◌*◌, ◌%◌, ◌^◌, Bool, true, false, Option, none, some, List, [], ◌∷◌, ◌++◌,
  length, take, replicate, ltb, leb, ◌==◌, if◌then◌else◌,
}
use gedtm30api.Base.Int.{pos, two64}
use gedtm30api.Base.Run.{Run, ok, err, panic, hang, ◌>>=◌}
use gedtm30api.Bytes.{ByteOrder, uint, put_uint}
use gedtm30api.Source.Reader.{binary_read, Whence}
use gedtm30api.Source.Memory.{Memory, memory, memory_read, memory_seek}
use gedtm30api.Tiff.FieldType

pub record IfdEntry : Type 0 where
  pub tag : ℕ
  pub f_type : ℕ
  pub count : ℕ
  pub value_offset : ℕ
  pub value_bytes : List ℕ

abbrev or_zero : Run ℕ → ℕ
or_zero (ok v) = v
or_zero (err e) = 0
or_zero panic = 0
or_zero hang = 0

-- binary.Read into a zeroed variable, its error dropped.
pub read_or_zero : ByteOrder → ℕ → Memory → ℕ × Memory
read_or_zero o n m = let (r, m') = binary_read memory o n m in (or_zero r, m')

-- `Read` into eight zeroed bytes.
pub read_eight : Memory → List ℕ × Memory
read_eight m = let (r, m') = memory_read m 8 in (r.bytes ++ replicate (8 - length r.bytes) 0, m')

abbrev pub entry_len : Bool → ℕ
entry_len true = 20
entry_len false = 12

abbrev pub inline_data_size : Bool → ℕ
inline_data_size true = 8
inline_data_size false = 4

-- The count, the offset, and the eight bytes that an inline value is taken from.
pub read_count_offset : ByteOrder → Bool → Memory → (ℕ × ℕ × List ℕ) × Memory
read_count_offset o true m =
    let (count, m1) = read_or_zero o 8 m in
    let (bytes, m2) = read_eight m1 in ((count, uint o bytes, bytes), m2)
read_count_offset o false m =
    let (count, m1) = read_or_zero o 4 m in
    let (offset, m2) = read_or_zero o 4 m1 in
    ((count, offset, put_uint o 4 offset ++ replicate 4 0), m2)

-- A value that fits is kept inline; `totalBytes` is a uint64 product.
pub inline_value : Bool → ℕ → ℕ → List ℕ → List ℕ
inline_value big size count bytes =
    let total = size * count % two64 in
    if leb total (inline_data_size big) then take total bytes else []

pub known_entry : ByteOrder → Bool → ℕ → ℕ → ℕ → Memory → Run (Option IfdEntry) × Memory
known_entry o big tag f_type size m =
    let ((count, offset, bytes), m') = read_count_offset o big m in
    (
      ok (
          some (record {
            tag = tag;
            f_type = f_type;
            count = count;
            value_offset = offset;
            value_bytes = inline_value big size count bytes;
          })),
      m',
    )

pub unknown_entry : Bool → Memory → Run (Option IfdEntry) × Memory
unknown_entry big m =
    let (_, m') = memory_seek m (pos (entry_len big - 4)) Whence.current in (ok none, m')

pub entry_of_size : ByteOrder → Bool → ℕ → ℕ → Run ℕ → Memory → Run (Option IfdEntry) × Memory
entry_of_size o big tag f_type (ok size) m =
    if size == 0 then unknown_entry big m else known_entry o big tag f_type size m
entry_of_size o big tag f_type (err e) m = (err e, m)
entry_of_size o big tag f_type panic m = (panic, m)
entry_of_size o big tag f_type hang m = (hang, m)

-- One round of the first pass; `none` is an entry that is skipped.
pub read_entry : ByteOrder → Bool → Memory → Run (Option IfdEntry) × Memory
read_entry o big m =
    let (tag, m1) = read_or_zero o 2 m in
    let (f_type, m2) = read_or_zero o 2 m1 in
    entry_of_size o big tag f_type (FieldType.bytes f_type) m2

abbrev add_entry : Option IfdEntry → List IfdEntry → List IfdEntry
add_entry none es = es
add_entry (some e) es = e ∷ es

-- The first pass over the block of entries.
pub read_entries : ByteOrder → Bool → ℕ → Memory → Run (List IfdEntry)
read_entries o big zero m = ok []
read_entries o big (suc n) m =
    let (r, m') = read_entry o big m in
    r >>= λ found. read_entries o big n m' >>= λ es. ok (add_entry found es)

-- An entry as a writer puts it: the value field is the offset, or the value padded to the field.
unfoldable pub put_entry : ByteOrder → Bool → ℕ → ℕ → ℕ → ℕ → List ℕ → List ℕ
put_entry o big tag f_type count field rest =
    put_uint o 2 tag
    ++ (put_uint o 2 f_type
        ++ (put_uint o (inline_data_size big) count
            ++ (put_uint o (inline_data_size big) field ++ rest)))
