-- ===== src/Tiff/Value.antt =====
-- The values of directory entries: `tagData`, `iFDEntry.value` and the getters of `GeoTIFF`
-- (geotiff/geotiff.go). A FLOAT or a DOUBLE is kept as its bits.
use mathlib.Core.Option
use mathlib.Core.List.{head?}
use gedtm30api.Base.{
  ℕ, ◌-◌, ◌*◌, ◌%◌, ◌^◌, Option, none, some, List, [], ◌∷◌, length, ltb, ◌==◌, ◌||◌, ◌&&◌,
  if◌then◌else◌,
}
use gedtm30api.Base.Int.{ℤ, pos, pos_part, int64, add64, mul64, leb_ℤ, ◌-ℤ◌, two63}
use gedtm30api.Base.Run.{text, eof, ok, err, panic}
use gedtm30api.Base.Io.{Io, ◌>>=◌, ◌>>◌, pure, throw, lift, continue}
use gedtm30api.Bytes.{ByteOrder, uints}
use gedtm30api.Source.Reader.{Read, Reader, read_full}
use gedtm30api.Source.Memory.{memory}
use gedtm30api.Tiff.FieldType.{bytes, byte, ascii, short, long, float, double, long8, ifd8}
use gedtm30api.Tiff.Entry.{IfdEntry}

pub record TagData : Type 0 where
  pub f_type : ℕ
  pub length : ℕ
  pub byte_data : List ℕ
  pub ascii_data : List ℕ
  pub short_data : List ℕ
  pub long_data : List ℕ
  pub float_data : List ℕ
  pub double_data : List ℕ
  pub uint64_data : List ℕ

abbrev pub empty_tag_data : ℕ → ℕ → TagData
empty_tag_data f_type count = record {
  f_type = f_type;
  length = count % 2 ^ 32;
  byte_data = [];
  ascii_data = [];
  short_data = [];
  long_data = [];
  float_data = [];
  double_data = [];
  uint64_data = [];
}

-- io.SectionReader over `ReadAt`: its state is the reader's, and where it stands.
section_read : {S : Type 0} → Reader S → ℤ → ℕ → Io (S × ℤ) Read
section_read r limit n (s, off) =
    let room = pos_part (limit -ℤ off) in
    let (read, s') = r.read_at off (if ltb room n then room else n) s in
    if leb_ℤ limit off
    then (ok (record { bytes = []; error = some eof }), (s, off))
    else continue read (λ c t. (ok c, (s', add64 off (pos (length c.bytes))))) (s', off)

-- `limit` of io.NewSectionReader.
section_limit : ℤ → ℤ → ℤ
section_limit off n = let max = pos (two63 - 1) in if leb_ℤ off (max -ℤ n) then add64 n off else max

-- Seek and ReadAt of the section are not used.
section_reader : {S : Type 0} → Reader S → ℤ → ℤ → Reader (S × ℤ)
section_reader r off n = record {
  read = section_read r (section_limit off n);
  seek = λ _ _ s. (err (text "unused"), s);
  read_at = λ _ _ s. (err (text "unused"), s);
}

trim_left : List ℕ → List ℕ
trim_left [] = []
trim_left (b ∷ bs) = let rest = trim_left bs in if b == 0 then rest else b ∷ bs

cons_trimmed : ℕ → List ℕ → List ℕ
cons_trimmed b [] = if b == 0 then [] else b ∷ []
cons_trimmed b (d ∷ ds) = b ∷ d ∷ ds

trim_right : List ℕ → List ℕ
trim_right [] = []
trim_right (b ∷ bs) = cons_trimmed b (trim_right bs)

-- `bytes.Trim(p, "\x00")`
unfoldable pub trim : List ℕ → List ℕ
unfolding trim_left trim_right cons_trimmed
trim bs = trim_right (trim_left bs)

-- The largest slice that `make` allocates; past it `make` panics.
abbrev pub max_alloc : ℕ
max_alloc = 2 ^ 48

abbrev make_check : {S : Type 0} → ℕ → Io S (Unit {0})
make_check size s = if ltb max_alloc size then (panic, s) else (ok tt, s)

-- `binary.Read` of `want` bytes from the inline value, or from the file at the value's offset.
read_bytes : {S : Type 0} → Reader S → IfdEntry → ℕ → ℕ → Io S (List ℕ)
read_bytes r e size want s =
    let (inline, _) = read_full memory want (record { contents = e.value_bytes; offset = 0 }) in
    let off = int64 e.value_offset in
    let section = section_reader r off (mul64 (pos size) (int64 e.count)) in
    let (read, (s', _)) = read_full section want (s, off) in
    if ltb 0 (length e.value_bytes) then (inline, s) else (read, s')

-- `make` of the values, then their bytes.
read_data : {S : Type 0} → Reader S → IfdEntry → ℕ → ℕ → Io S (List ℕ)
read_data r e size width = do make_check (width * e.count); read_bytes r e size (width * e.count)

value_of_size : {S : Type 0} → Reader S → ByteOrder → IfdEntry → ℕ → Io S TagData
value_of_size r o e size =
    let t = empty_tag_data e.f_type e.count in
    let n = e.count in
    if e.f_type == byte
    then (read_data r e size 1 >>= λ bs. pure (record t { byte_data = bs }))
    else if e.f_type == ascii
    then (read_data r e size 1 >>= λ bs. pure (record t { ascii_data = trim bs }))
    else if e.f_type == short
    then (read_data r e size 2 >>= λ bs. pure (record t { short_data = uints o 2 n bs }))
    else if e.f_type == long
    then (read_data r e size 4 >>= λ bs. pure (record t { long_data = uints o 4 n bs }))
    else if e.f_type == float
    then (read_data r e size 4 >>= λ bs. pure (record t { float_data = uints o 4 n bs }))
    else if e.f_type == double
    then (read_data r e size 8 >>= λ bs. pure (record t { double_data = uints o 8 n bs }))
    else if e.f_type == long8 || e.f_type == ifd8
    then (read_data r e size 8 >>= λ bs. pure (record t { uint64_data = uints o 8 n bs }))
    else throw (text "unsupported type for value reading: ")

-- `iFDEntry.value`
pub value : {S : Type 0} → Reader S → ByteOrder → IfdEntry → Io S TagData
value r o e = lift (bytes e.f_type) >>= λ size. value_of_size r o e size

-- `Tags`: the newest value of a tag stands first.
abbrev pub Tags : Type 0
Tags = List (ℕ × TagData)

unfoldable pub lookup : ℕ → Tags → Option TagData
lookup t [] = none
lookup t ((u, d) ∷ tags) = if u == t then some d else lookup t tags

-- `getUint`
get_uint_of : TagData → Option ℕ
get_uint_of t =
    if t.f_type == short && ltb 0 (length t.short_data)
    then head? t.short_data
    else if t.f_type == long && ltb 0 (length t.long_data)
    then head? t.long_data
    else none

unfoldable pub get_uint : ℕ → Tags → Option ℕ
unfolding get_uint_of
get_uint tag tags = Option.bind (lookup tag tags) get_uint_of

-- `getShort`
get_short_of : TagData → Option ℕ
get_short_of t =
    if t.f_type == short && ltb 0 (length t.short_data) then head? t.short_data else none

unfoldable pub get_short : ℕ → Tags → Option ℕ
unfolding get_short_of
get_short tag tags = Option.bind (lookup tag tags) get_short_of

-- `get64bitSlice`; a LONG widens to 64 bits without change.
get_64bit_slice_of : TagData → Option (List ℕ)
get_64bit_slice_of t =
    if t.f_type == long8 || t.f_type == ifd8
    then some t.uint64_data
    else if t.f_type == long
    then some t.long_data
    else none

unfoldable pub get_64bit_slice : ℕ → Tags → Option (List ℕ)
unfolding get_64bit_slice_of
get_64bit_slice tag tags = Option.bind (lookup tag tags) get_64bit_slice_of

-- `doubleDataValue`
unfoldable pub double_data_value : TagData → Option (List ℕ)
double_data_value t = if t.f_type == double then some t.double_data else none
