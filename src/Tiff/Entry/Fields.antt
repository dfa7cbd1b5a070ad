-- ===== src/Tiff/Entry/Fields.antt =====
-- The fields of a directory entry, as a writer puts them and the first pass reads them.
use mathlib.Core.List.{append-nil}
use gedtm30api.Base.{
  ℕ, ◌+◌, ◌*◌, ◌%◌, ◌^◌, ◌≤◌, ◌<◌, ◌≡◌, ◌≢◌, refl, Bool, true, false, Option, none, some, List, [],
  ◌++◌, arith, drop, take, replicate, leb, if◌then◌else◌, ap, ne→==, ◌==◌, take-append_le,
}
use gedtm30api.Base.Run.{ok}
use gedtm30api.Base.Int.{two64, two63, add64_small}
use gedtm30api.Bytes.{ByteOrder, put_uint, uint-put_uint, length-put_uint}
use gedtm30api.Source.Memory.{
  Memory, memory_read-put_uint, memory_seek, drop-put_uint, binary_read-put_uint,
}
use gedtm30api.Tiff.FieldType
use gedtm30api.Tiff.Entry.{
  IfdEntry, read_or_zero, read_entry, put_entry, entry_len, inline_data_size, read_count_offset,
  read_eight, entry_of_size, known_entry, unknown_entry, inline_value,
}

abbrev pub at_offset : List ℕ → ℕ → Memory
at_offset file p = record { contents = file; offset = p }

pub read_or_zero-put_uint :
    (o : ByteOrder) (n v : ℕ) (file rest : List ℕ) (p : ℕ)
    → 0 < n
    → v < 256 ^ n
    → drop p file ≡ put_uint o n v ++ rest
    → read_or_zero o n (at_offset file p) ≡ (v, at_offset file (p + n))
unfolding read_or_zero
read_or_zero-put_uint o n v file rest p h small at =
    rw (binary_read-put_uint o n v file rest p h small at)

-- What a directory holds: a tag, a field type, a count, and the value field as a number.
pub record RawEntry : Type 0 where
  pub tag : ℕ
  pub f_type : ℕ
  pub count : ℕ
  pub field : ℕ

pub record Fits (big : Bool) (e : RawEntry) : Type 0 where
  pub tag : e.tag < 2 ^ 16
  pub f_type : e.f_type < 2 ^ 16
  pub count : e.count < 256 ^ inline_data_size big
  pub field : e.field < 256 ^ inline_data_size big

-- The bytes of the value field, padded to the eight that an inline value is cut from.
abbrev pub field_bytes : ByteOrder → Bool → ℕ → List ℕ
field_bytes o true field = put_uint o 8 field
field_bytes o false field = put_uint o 4 field ++ replicate 4 0

pub read_eight-put_uint :
    (o : ByteOrder) (v : ℕ) (file rest : List ℕ) (p : ℕ)
    → drop p file ≡ put_uint o 8 v ++ rest
    → read_eight (at_offset file p) ≡ (put_uint o 8 v, at_offset file (p + 8))
unfolding read_eight
read_eight-put_uint o v file rest p at =
    rw (memory_read-put_uint o 8 v file rest p (omega arith) at, length-put_uint o 8 v)
      (ap (λ bs. (bs, at_offset file (p + 8))) (append-nil (put_uint o 8 v)))

module _ (o : ByteOrder) (count field : ℕ) (file rest : List ℕ) (p : ℕ) where
  pub read_count_offset-put :
      (big : Bool)
      → count < 256 ^ inline_data_size big
      → field < 256 ^ inline_data_size big
      → drop p file
        ≡ put_uint o (inline_data_size big) count
          ++ (put_uint o (inline_data_size big) field ++ rest)
      → read_count_offset o big (at_offset file p) ≡ (
        (count, field, field_bytes o big field),
        at_offset file (p + inline_data_size big + inline_data_size big),
      )
  unfolding read_count_offset
  read_count_offset-put true hc hf at =
      let at' = drop-put_uint o 8 count file (put_uint o 8 field ++ rest) p at in
      rw
        (
          read_or_zero-put_uint o 8 count file _ p (omega arith) hc at,
          read_eight-put_uint o field file rest (p + 8) at',
        )
        (ap (λ v. ((count, v, put_uint o 8 field), at_offset file (p + 8 + 8)))
          (uint-put_uint o 8 field hf))
  read_count_offset-put false hc hf at =
      let at' = drop-put_uint o 4 count file (put_uint o 4 field ++ rest) p at in
      rw (
        read_or_zero-put_uint o 4 count file _ p (omega arith) hc at,
        read_or_zero-put_uint o 4 field file rest (p + 4) (omega arith) hf at',
      )

-- The value that is kept inline: the first bytes of the field, if the value fits the field.
abbrev pub inline_bytes : ByteOrder → Bool → ℕ → RawEntry → List ℕ
inline_bytes o big size e =
    let total = size * e.count % two64 in
    if leb total (inline_data_size big)
    then take total (put_uint o (inline_data_size big) e.field)
    else []

abbrev pub entry_of : ByteOrder → Bool → ℕ → RawEntry → IfdEntry
entry_of o big size e = record {
  tag = e.tag;
  f_type = e.f_type;
  count = e.count;
  value_offset = e.field;
  value_bytes = inline_bytes o big size e;
}

pub take-field_bytes :
    (o : ByteOrder) (big : Bool) (field n : ℕ)
    → n ≤ inline_data_size big
    → take n (field_bytes o big field) ≡ take n (put_uint o (inline_data_size big) field)
take-field_bytes o true field n h = refl
take-field_bytes o false field n h =
    take-append_le n (put_uint o 4 field) (replicate 4 0) (omega (arith, length-put_uint o 4 field))

pub inline_value-field_bytes :
    (o : ByteOrder) (big : Bool) (size : ℕ) (e : RawEntry)
    → inline_value big size e.count (field_bytes o big e.field) ≡ inline_bytes o big size e
unfolding inline_value
inline_value-field_bytes o big size e =
    ground (arith, take-field_bytes o big e.field (size * e.count % two64))

-- `read_entry` in terms of its callees.
pub read_entry_lem :
    (o : ByteOrder) (big : Bool) (m : Memory)
    → let (tag, m1) = read_or_zero o 2 m in
      let (f_type, m2) = read_or_zero o 2 m1 in
      read_entry o big m ≡ entry_of_size o big tag f_type (FieldType.bytes f_type) m2
unfolding read_entry
read_entry_lem o big m = refl

pub entry_of_size-known :
    (o : ByteOrder) (big : Bool) (tag f_type size : ℕ) (m : Memory)
    → size ≢ 0
    → entry_of_size o big tag f_type (ok size) m ≡ known_entry o big tag f_type size m
unfolding entry_of_size
entry_of_size-known o big tag f_type size m h = rw (ne→== size 0 h)

pub known_entry_lem :
    (o : ByteOrder) (big : Bool) (tag f_type size count offset : ℕ) (bytes : List ℕ) (m m' : Memory)
    → read_count_offset o big m ≡ ((count, offset, bytes), m')
    → known_entry o big tag f_type size m ≡ (
      ok (
          some (record {
            tag = tag;
            f_type = f_type;
            count = count;
            value_offset = offset;
            value_bytes = inline_value big size count bytes;
          })),
      m',
    )
unfolding known_entry
known_entry_lem o big tag f_type size count offset bytes m m' h = rw h

pub entry_len_lem :
    (big : Bool) → entry_len big ≡ 2 + 2 + inline_data_size big + inline_data_size big
entry_len_lem true = refl
entry_len_lem false = refl

pub unknown_entry_lem :
    (big : Bool) (file : List ℕ) (p : ℕ)
    → p + entry_len big < two63
    → unknown_entry big (at_offset file (p + 2 + 2)) ≡ (ok none, at_offset file (p + entry_len big))
unfolding unknown_entry memory_seek
unknown_entry_lem true file p h =
    rw (add64_small (p + 2 + 2) 16 (omega arith))
      (ap (λ q. (ok none, at_offset file q)) (omega arith))
unknown_entry_lem false file p h =
    rw (add64_small (p + 2 + 2) 8 (omega arith))
      (ap (λ q. (ok none, at_offset file q)) (omega arith))

pub inline_data_size_pos : (big : Bool) → 0 < inline_data_size big
inline_data_size_pos true = omega arith
inline_data_size_pos false = omega arith

-- What the first pass makes of an entry: nothing, if its field type has no size.
abbrev pub parsed : ByteOrder → Bool → RawEntry → Option IfdEntry
parsed o big e =
    let size = FieldType.size_of e.f_type in
    if size == 0 then none else some (entry_of o big size e)

abbrev pub put_raw : ByteOrder → Bool → RawEntry → List ℕ → List ℕ
put_raw o big e rest = put_entry o big e.tag e.f_type e.count e.field rest
