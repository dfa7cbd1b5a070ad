-- ===== src/Pixels.antt =====
-- From the bytes of a tile to its samples (geotiff/geotiff.go): `decodeFloat32`, `decodeInt32` and
-- the two predictors. A sample is its 32-bit word; a float32 is its bits.
pub mod Rows
pub mod Horizontal
pub mod Words
use gedtm30api.Base.{
  ℕ, zero, suc, ◌+◌, ◌-◌, ◌*◌, ◌/◌, ◌%◌, ◌^◌, Bool, true, false, ◌||◌, List, [], ◌∷◌, ◌++◌, length,
  take, drop, get_or, set, leb, ltb, ◌==◌, if◌then◌else◌,
}
use gedtm30api.Base.Int.{ℤ, pos, negsuc}
use gedtm30api.Base.Run.{Run, ok, panic}
use gedtm30api.Bytes.{ByteOrder, little_endian, uint, uints, put_uint}

abbrev pub two32 : ℕ
two32 = 2 ^ 32

-- `decodeFloat32` and `decodeInt32`: both read the words; bytes past the last whole word are left.
pub decode_words : List ℕ → ByteOrder → List ℕ
decode_words raw o = uints o 4 (length raw / 4) raw

-- The int32 that a word stands for.
abbrev pub signed32 : ℕ → ℤ
signed32 w = if ltb w (2 ^ 31) then pos w else negsuc (two32 - w - 1)

-- `data[index] += data[index - 1]`, on 32-bit words.
abbrev add_previous : List ℕ → ℕ → List ℕ
add_previous words index =
    set words index ((get_or words index 0 + get_or words (index - 1) 0) % two32)

-- The loop over a row: `n` rounds are left, the next at `x`.
pub row_loop : ℕ → ℕ → ℕ → List ℕ → List ℕ
row_loop zero row_start x words = words
row_loop (suc n) row_start x words =
    row_loop n row_start (x + 1) (add_previous words (row_start + x))

-- The loop over the rows: `n` rounds are left, the next at `y`. A row that is not whole ends it.
pub rows_loop : ℕ → ℕ → ℕ → List ℕ → List ℕ
rows_loop zero width y words = words
rows_loop (suc n) width y words =
    let row_start = y * width in
    let rest = rows_loop n width (y + 1) (row_loop (width - 1) row_start 1 words) in
    if ltb (length words) (row_start + width) then words else rest

-- `undoHorizontalPredictionForInt32`
pub undo_horizontal_int32 : List ℕ → ℕ → ℕ → List ℕ
undo_horizontal_int32 words width height =
    if width == 0 || height == 0 then words else rows_loop height width 0 words

-- `raw[sampleOff + b] += raw[firstOff + b]` for the four bytes of a sample.
abbrev add_byte : List ℕ → ℕ → ℕ → ℕ → List ℕ
add_byte raw sample_off first_off b =
    set raw (sample_off + b) ((get_or raw (sample_off + b) 0 + get_or raw (first_off + b) 0) % 256)

add_sample : List ℕ → ℕ → ℕ → List ℕ
add_sample raw sample_off first_off =
    let raw1 = add_byte raw sample_off first_off 0 in
    let raw2 = add_byte raw1 sample_off first_off 1 in
    let raw3 = add_byte raw2 sample_off first_off 2 in add_byte raw3 sample_off first_off 3

float_row_loop : ℕ → ℕ → ℕ → List ℕ → List ℕ
float_row_loop zero row_start x raw = raw
float_row_loop (suc n) row_start x raw =
    float_row_loop n row_start (x + 1) (add_sample raw (row_start + x * 4) row_start)

float_rows_loop : ℕ → ℕ → ℕ → List ℕ → List ℕ
float_rows_loop zero width y raw = raw
float_rows_loop (suc n) width y raw =
    let row_bytes = width * 4 in
    let row_start = y * row_bytes in
    let rest = float_rows_loop n width (y + 1) (float_row_loop (width - 1) row_start 1 raw) in
    if ltb (length raw) (row_start + row_bytes) then raw else rest

-- The words as they lie in memory, on the little-endian machines that the program runs on.
pub in_memory : List ℕ → List ℕ
in_memory [] = []
in_memory (w ∷ ws) = put_uint little_endian 4 w ++ in_memory ws

-- `undoHorizontalPredictionForFloat32`; `&data[0]` of an empty slice panics.
pub undo_horizontal_float32 : List ℕ → ℕ → ℕ → Run (List ℕ)
undo_horizontal_float32 words width height =
    if width == 0 || height == 0
    then ok words
    else if length words == 0
    then panic
    else ok (decode_words (float_rows_loop height width 0 (in_memory words)) little_endian)
