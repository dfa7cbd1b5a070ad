-- ===== src/Pixels/Words.antt =====
-- The words of a tile and their bytes in a file: `decodeFloat32` and `decodeInt32` undo the writing.
use gedtm30api.Base.{
  ℕ, ◌*◌, ◌/◌, ◌≡◌, refl, List, [], ◌∷◌, ◌++◌, arith, length, All, length-append, take-append_eq,
  drop-append_eq, sym,
}
use gedtm30api.Bytes.{ByteOrder, put_uint, uints, uint-put_uint, length-put_uint}
use gedtm30api.Pixels.{decode_words}
use gedtm30api.Pixels.Horizontal.{IsWord}

-- The words one after the other, four bytes each, in a byte order.
unfoldable pub encode : ByteOrder → List ℕ → List ℕ
encode o [] = []
encode o (w ∷ ws) = put_uint o 4 w ++ encode o ws

pub length-encode : (o : ByteOrder) (ws : List ℕ) → length (encode o ws) ≡ 4 * length ws
unfolding encode
length-encode o [] = refl
length-encode o (w ∷ ws) =
    omega (
      arith,
      length-append (put_uint o 4 w) (encode o ws),
      length-put_uint o 4 w,
      length-encode o ws,
    )

uints-encode :
    (o : ByteOrder) (ws : List ℕ) → All IsWord ws → uints o 4 (length ws) (encode o ws) ≡ ws
unfolding encode uints
uints-encode o [] all = refl
uints-encode o (w ∷ ws) all =
    let size : 4 ≡ length (put_uint o 4 w) = sym (length-put_uint o 4 w) in
    rw (
      take-append_eq 4 (put_uint o 4 w) (encode o ws) size,
      drop-append_eq 4 (put_uint o 4 w) (encode o ws) size,
      uint-put_uint o 4 w all.0,
      uints-encode o ws all.1,
    )

pub decode_words-encode :
    (o : ByteOrder) (ws : List ℕ) → All IsWord ws → decode_words (encode o ws) o ≡ ws
unfolding decode_words
decode_words-encode o ws all =
    let count : length (encode o ws) / 4 ≡ length ws = omega (arith, length-encode o ws) in
    rw count (uints-encode o ws all)
