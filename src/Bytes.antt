-- ===== src/Bytes.antt =====
-- Bytes, and the byte orders of Go's encoding/binary that the TIFF code reads with.
use mathlib.Core.List.{reverse, reverse-reverse, reverse-append}
use native.Mathlib.Nat.{pow-suc}
use gedtm30api.Base.{
  ℕ, zero, suc, ◌+◌, ◌*◌, ◌/◌, ◌%◌, ◌^◌, ◌<◌, ◌≡◌, refl, ap, ◌∙◌, List, [], ◌∷◌, arith, length,
  take, drop, length-append,
}

abbrev pub IsByte : ℕ → Type 0
IsByte b = b < 256

pub data ByteOrder : Type 0 where
  little_endian big_endian : ByteOrder

-- The number whose least significant byte is first.
unfoldable pub from_little : List ℕ → ℕ
from_little [] = 0
from_little (b ∷ bs) = b + 256 * from_little bs

unfoldable pub to_little : ℕ → ℕ → List ℕ
to_little zero v = []
to_little (suc n) v = v % 256 ∷ to_little n (v / 256)

-- `Uint16`, `Uint32` and `Uint64` of a byte order, by the number of bytes given.
unfoldable pub uint : ByteOrder → List ℕ → ℕ
unfolding from_little
uint little_endian bs = from_little bs
uint big_endian bs = from_little (reverse bs)

-- `PutUint16`, `PutUint32` and `PutUint64`.
unfoldable pub put_uint : ByteOrder → ℕ → ℕ → List ℕ
unfolding to_little
put_uint little_endian n v = to_little n v
put_uint big_endian n v = reverse (to_little n v)

abbrev pub bound : ℕ → ℕ
bound n = 256 ^ n

from_little-to_little : (n v : ℕ) → v < 256 ^ n → from_little (to_little n v) ≡ v
unfolding from_little to_little
from_little-to_little zero v h = omega arith
from_little-to_little (suc n) v h =
    let small : v / 256 < 256 ^ n = omega (arith, pow-suc 256 n) in
    omega (arith, from_little-to_little n (v / 256) small)

length-to_little : (n v : ℕ) → length (to_little n v) ≡ n
unfolding to_little
length-to_little zero v = refl
length-to_little (suc n) v = ap suc (length-to_little n (v / 256))

pub uint-put_uint : (o : ByteOrder) (n v : ℕ) → v < 256 ^ n → uint o (put_uint o n v) ≡ v
unfolding uint put_uint
uint-put_uint little_endian n v h = from_little-to_little n v h
uint-put_uint big_endian n v h =
    ap from_little (reverse-reverse (to_little n v)) ∙ from_little-to_little n v h

length-reverse {ℓ} : {A : Type ℓ} (xs : List A) → length (reverse xs) ≡ length xs
length-reverse [] = refl
length-reverse (x ∷ xs) =
    rw (reverse-append (x ∷ []) xs)
      (omega (arith, length-append (reverse xs) (x ∷ []), length-reverse xs))

pub length-put_uint : (o : ByteOrder) (n v : ℕ) → length (put_uint o n v) ≡ n
unfolding put_uint
length-put_uint little_endian n v = length-to_little n v
length-put_uint big_endian n v = length-reverse (to_little n v) ∙ length-to_little n v

-- The numbers of `size` bytes each that follow one another.
unfoldable pub uints : ByteOrder → ℕ → ℕ → List ℕ → List ℕ
uints o size zero bs = []
uints o size (suc n) bs = uint o (take size bs) ∷ uints o size n (drop size bs)
