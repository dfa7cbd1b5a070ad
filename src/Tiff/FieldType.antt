-- ===== src/Tiff/FieldType.antt =====
-- `fieldType` and its sizes (geotiff/const.go, geotiff/geotiff.go).
use gedtm30api.Base.{
  ℕ, ◌≡◌, ◌≢◌, ◌↔◌, ◌||◌, List, [], ◌∷◌, arith, length, get_elem?, ltb, ◌==◌, if◌then◌else◌,
}
use gedtm30api.Base.Run.{Run, ok, panic, or_panic}

-- The constants of type `fieldType` that the code dispatches on.
abbrev pub byte : ℕ
byte = 1

abbrev pub ascii : ℕ
ascii = 2

abbrev pub short : ℕ
short = 3

abbrev pub long : ℕ
long = 4

abbrev pub float : ℕ
float = 11

abbrev pub double : ℕ
double = 12

abbrev pub long8 : ℕ
long8 = 16

abbrev pub ifd8 : ℕ
ifd8 = 18

-- `fieldTypeLen`
abbrev pub field_type_len : List ℕ
field_type_len = 0 ∷ 1 ∷ 1 ∷ 2 ∷ 4 ∷ 8 ∷ 1 ∷ 1 ∷ 2 ∷ 4 ∷ 8 ∷ 4 ∷ 8 ∷ 0 ∷ 0 ∷ 0 ∷ 8 ∷ 8 ∷ 8 ∷ []

-- `fieldType.bytes`: an index past the table panics.
unfoldable pub bytes : ℕ → Run ℕ
bytes f =
    if f == 0 || ltb (length field_type_len) f
    then or_panic (get_elem? field_type_len 0)
    else or_panic (get_elem? field_type_len f)

-- The size in bytes, for a field type that the lookup does not panic on.
abbrev size_of_run : Run ℕ → ℕ
size_of_run (ok n) = n
size_of_run _ = 0

pub size_of : ℕ → ℕ
size_of f = size_of_run (bytes f)

pub bytes-size_of : (f : ℕ) → f ≢ 19 → bytes f ≡ ok (size_of f)
unfolding bytes size_of
bytes-size_of f h = ground arith

-- A field type makes the size lookup panic exactly if it is 19, one past the last entry.
pub bytes-panic_iff : (f : ℕ) → (bytes f ≡ panic) ↔ (f ≡ 19)
unfolding bytes
bytes-panic_iff f = (λ h. ground arith, λ e. ground arith)
