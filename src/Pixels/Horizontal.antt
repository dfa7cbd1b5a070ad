-- ===== src/Pixels/Horizontal.antt =====
-- Predictor 2: the loops compute running sums of the rows, and undo the differences.
use gedtm30api.Base.{
  ℕ, zero, suc, ◌+◌, ◌-◌, ◌%◌, ◌<◌, ◌≡◌, refl, ap, ◌∙◌, false, List, [], ◌∷◌, ◌++◌, arith, length,
  take, drop, All, All-append, ltb, if◌then◌else◌, length-append, take-append-drop, length-take,
  length-drop, Bool-cases, inl, inr, ltb→ge, take-append_eq, drop-append_eq, ge→ltb,
}
use gedtm30api.Pixels.{two32, undo_horizontal_int32}
use gedtm30api.Pixels.Rows.{sums, undo_row, undo_rows, undo_horizontal_int32-undo_rows}

-- What a writer does: the differences of neighbours, modulo 2 ^ 32.
unfoldable pub differences : ℕ → List ℕ → List ℕ
differences p [] = []
differences p (w ∷ ws) = (w + two32 - p) % two32 ∷ differences w ws

abbrev pub difference_row : List ℕ → List ℕ
difference_row [] = []
difference_row (w ∷ ws) = w ∷ differences w ws

unfoldable pub difference_rows : ℕ → ℕ → List ℕ → List ℕ
difference_rows zero width words = words
difference_rows (suc n) width words =
    let rest = difference_row (take width words) ++ difference_rows n width (drop width words) in
    if ltb (length words) width then words else rest

abbrev pub IsWord : ℕ → Type 0
IsWord w = w < two32

sums-differences :
    (p : ℕ) (ws : List ℕ) → p < two32 → All IsWord ws → sums p (differences p ws) ≡ ws
unfolding sums differences
sums-differences p [] h all = refl
sums-differences p (w ∷ ws) h all =
    let back : ((w + two32 - p) % two32 + p) % two32 ≡ w = omega arith in
    rw back (ap (◌∷◌ w) (sums-differences w ws all.0 all.1))

undo_row-difference_row : (row : List ℕ) → All IsWord row → undo_row (difference_row row) ≡ row
undo_row-difference_row [] all = refl
undo_row-difference_row (w ∷ ws) all = ap (◌∷◌ w) (sums-differences w ws all.0 all.1)

length-differences : (p : ℕ) (ws : List ℕ) → length (differences p ws) ≡ length ws
unfolding differences
length-differences p [] = refl
length-differences p (w ∷ ws) = ap suc (length-differences w ws)

length-difference_row : (row : List ℕ) → length (difference_row row) ≡ length row
length-difference_row [] = refl
length-difference_row (w ∷ ws) = ap suc (length-differences w ws)

All-take : (n : ℕ) (ws : List ℕ) → All IsWord ws → All IsWord (take n ws)
All-take zero ws all = tt
All-take (suc n) [] all = tt
All-take (suc n) (w ∷ ws) all = (all.0, All-take n ws all.1)

All-drop : (n : ℕ) (ws : List ℕ) → All IsWord ws → All IsWord (drop n ws)
All-drop zero ws all = all
All-drop (suc n) [] all = tt
All-drop (suc n) (w ∷ ws) all = All-drop n ws all.1

length-difference_rows :
    (n width : ℕ) (words : List ℕ) → length (difference_rows n width words) ≡ length words
unfolding difference_rows
length-difference_rows zero width words = refl
length-difference_rows (suc n) width words = ground (
  arith,
  length-append (difference_row (take width words)) (difference_rows n width (drop width words)),
  length-difference_row (take width words),
  length-difference_rows n width (drop width words),
  length-take width words,
  length-drop width words,
)

All-differences : (p : ℕ) (ws : List ℕ) → All IsWord (differences p ws)
unfolding differences
All-differences p [] = tt
All-differences p (w ∷ ws) = (omega arith, All-differences w ws)

All-difference_row : (row : List ℕ) → All IsWord row → All IsWord (difference_row row)
All-difference_row [] all = tt
All-difference_row (w ∷ ws) all = (all.0, All-differences w ws)

-- The differences are words again.
pub All-difference_rows :
    (n width : ℕ) (words : List ℕ) → All IsWord words → All IsWord (difference_rows n width words)
unfolding difference_rows
All-difference_rows zero width words all = all
All-difference_rows (suc n) width words all = elim (Bool-cases (ltb (length words) width)) [
  | inl short ↦ rw short all
  | inr whole ↦ rw whole (
      All-append IsWord (difference_row (take width words))
        (difference_rows n width (drop width words))
        (All-difference_row (take width words) (All-take width words all))
        (All-difference_rows n width (drop width words) (All-drop width words all)))
]

undo_rows-difference_rows :
    (n width : ℕ) (words : List ℕ)
    → All IsWord words
    → undo_rows n width (difference_rows n width words) ≡ words
unfolding undo_rows difference_rows
undo_rows-difference_rows zero width words all = refl
undo_rows-difference_rows (suc n) width words all = elim (Bool-cases (ltb (length words) width)) [
  | inl short ↦ rw (short, short)
  | inr whole ↦
      let row = take width words in
      let first = difference_row row in
      let others = difference_rows n width (drop width words) in
      let size : width ≡ length first =
        omega (arith, length-difference_row row, length-take width words, ltb→ge _ _ whole) in
      let enough : ltb (length (first ++ others)) width ≡ false =
        ge→ltb _ _ (omega (arith, size, length-append first others)) in
      rw (
        whole,
        enough,
        take-append_eq width first others size,
        drop-append_eq width first others size,
        undo_row-difference_row row (All-take width words all),
        undo_rows-difference_rows n width (drop width words) (All-drop width words all),
        take-append-drop width words,
      )
]

-- Predictor 2 is undone: the 32-bit words of any tile, once a writer has taken the differences
-- along its rows, come back from undoHorizontalPredictionForInt32, whatever the width and the
-- height are, if neither is zero.
pub undo_horizontal_int32-difference_rows :
    (words : List ℕ) (width height : ℕ)
    → 0 < width
    → 0 < height
    → All IsWord words
    → undo_horizontal_int32 (difference_rows height width words) width height ≡ words
undo_horizontal_int32-difference_rows words width height h k all =
    undo_horizontal_int32-undo_rows (difference_rows height width words) width height h k
    ∙ undo_rows-difference_rows height width words all
