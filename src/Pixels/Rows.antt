-- ===== src/Pixels/Rows.antt =====
-- The loops of the horizontal predictor are running sums along each row.
use mathlib.Core.List.{append_assoc}
use gedtm30api.Base.{
  ℕ, zero, suc, ◌+◌, ◌-◌, ◌*◌, ◌%◌, ◌≤◌, ◌<◌, ◌≡◌, refl, ap, ap₂, sym, ◌∙◌, true, false, List, [],
  ◌∷◌, ◌++◌, arith, length, take, drop, get_or, ltb, if◌then◌else◌, length-append, get_or-append,
  set-append, take-append-drop, length-take, Bool-cases, inl, inr, ltb→ge, ne→==,
}
use gedtm30api.Pixels.{two32, add_previous, row_loop, rows_loop, undo_horizontal_int32}

-- The running sums of a row behind a sample `p`.
unfoldable pub sums : ℕ → List ℕ → List ℕ
sums p [] = []
sums p (w ∷ ws) = let s = (w + p) % two32 in s ∷ sums s ws

abbrev pub undo_row : List ℕ → List ℕ
undo_row [] = []
undo_row (w ∷ ws) = w ∷ sums w ws

-- The whole rows, each on its own, at most `n` of them; a row that is not whole ends it.
unfoldable pub undo_rows : ℕ → ℕ → List ℕ → List ℕ
undo_rows zero width words = words
undo_rows (suc n) width words =
    let rest = undo_row (take width words) ++ undo_rows n width (drop width words) in
    if ltb (length words) width then words else rest

pub add_previous-append :
    (done : List ℕ) (p w : ℕ) (rest : List ℕ)
    → add_previous (done ++ p ∷ w ∷ rest) (length done + 1) ≡ done ++ p ∷ (w + p) % two32 ∷ rest
add_previous-append done p w rest =
    let all = p ∷ w ∷ rest in
    let here : get_or (done ++ all) (length done + 1) 0 ≡ w = get_or-append done all 1 0 in
    let before : get_or (done ++ all) (length done + 1 - 1) 0 ≡ p =
      ap (λ i. get_or (done ++ all) i 0) (omega arith) ∙ get_or-append done all 0 0 in
    set-append done all 1 _ ∙ ap₂ (λ a b. done ++ p ∷ (a + b) % two32 ∷ rest) here before

-- The loop over a row, with what lies before the sample at hand, that sample, the rest of the row
-- and what follows the row.
pub row_loop-sums :
    (done : List ℕ) (p : ℕ) (ws after : List ℕ) (row_start x : ℕ)
    → row_start + x ≡ length done + 1
    → row_loop (length ws) row_start x (done ++ p ∷ (ws ++ after))
      ≡ done ++ p ∷ (sums p ws ++ after)
unfolding row_loop sums
row_loop-sums done p [] after row_start x e = refl
row_loop-sums done p (w ∷ ws) after row_start x e =
    let s = (w + p) % two32 in
    let done' = done ++ p ∷ [] in
    let ih =
      row_loop-sums done' s ws after row_start (x + 1)
        (omega (arith, length-append done (p ∷ []))) in
    let step =
      ap (add_previous (done ++ p ∷ w ∷ (ws ++ after))) e
      ∙ add_previous-append done p w (ws ++ after)
      ∙ sym (append_assoc done (p ∷ []) (s ∷ (ws ++ after))) in
    ap (row_loop (length ws) row_start (x + 1)) step
    ∙ ih
    ∙ append_assoc done (p ∷ []) (s ∷ (sums s ws ++ after))

-- The loop over a row that starts behind `done`.
pub row_loop-undo_row :
    (done row after : List ℕ) (row_start width : ℕ)
    → row_start ≡ length done
    → length row ≡ width
    → 0 < width
    → row_loop (width - 1) row_start 1 (done ++ (row ++ after)) ≡ done ++ (undo_row row ++ after)
row_loop-undo_row done [] after row_start width e f h = absurd (omega arith)
row_loop-undo_row done (w ∷ ws) after row_start width e f h =
    let n : width - 1 ≡ length ws = omega arith in
    rw n (row_loop-sums done w ws after row_start 1 (omega arith))

pub length-sums : (p : ℕ) (ws : List ℕ) → length (sums p ws) ≡ length ws
unfolding sums
length-sums p [] = refl
length-sums p (w ∷ ws) = ap suc (length-sums ((w + p) % two32) ws)

pub length-undo_row : (row : List ℕ) → length (undo_row row) ≡ length row
length-undo_row [] = refl
length-undo_row (w ∷ ws) = ap suc (length-sums w ws)

pub rows_loop-undo_rows :
    (n width y : ℕ) (done words : List ℕ)
    → 0 < width
    → y * width ≡ length done
    → rows_loop n width y (done ++ words) ≡ done ++ undo_rows n width words
unfolding rows_loop undo_rows
rows_loop-undo_rows zero width y done words h e = refl
rows_loop-undo_rows (suc n) width y done words h e =
    let total = length-append done words in
    elim (Bool-cases (ltb (length words) width)) [
      | inl short ↦
          let stop : ltb (length (done ++ words)) (y * width + width) ≡ true =
            ground (arith, total, short, e) in
          rw (stop, short)
      | inr whole ↦
          let on : ltb (length (done ++ words)) (y * width + width) ≡ false =
            ground (arith, total, whole, e) in
          rw (on, whole)
            (go_on (ltb→ge (length words) width whole)
              (λ d a q. rows_loop-undo_rows n width (y + 1) d a h q))
    ]
  where
    go_on :
        width ≤ length words
        → ((done' after : List ℕ)
            → (y + 1) * width ≡ length done'
            → rows_loop n width (y + 1) (done' ++ after) ≡ done' ++ undo_rows n width after)
        → rows_loop n width (y + 1) (row_loop (width - 1) (y * width) 1 (done ++ words))
          ≡ done ++ (undo_row (take width words) ++ undo_rows n width (drop width words))
    go_on room next =
        let row = take width words in
        let after = drop width words in
        let size : length row ≡ width = omega (arith, length-take width words) in
        let split = ap (λ ws. done ++ ws) (sym (take-append-drop width words)) in
        let row_done = row_loop-undo_row done row after (y * width) width e size h in
        let regroup = sym (append_assoc done (undo_row row) after) in
        let length' : (y + 1) * width ≡ length (done ++ undo_row row) =
          omega (arith, length-append done (undo_row row), length-undo_row row, size, e) in
        ap (rows_loop n width (y + 1))
          (ap (row_loop (width - 1) (y * width) 1) split ∙ row_done ∙ regroup)
        ∙ next (done ++ undo_row row) after length'
        ∙ append_assoc done (undo_row row) (undo_rows n width after)

-- For a tile whose width and height are not zero, the loops of
-- undoHorizontalPredictionForInt32 compute, in place, the running sums of each whole row on
-- its own, at most `height` rows, and leave the samples of a row that is not whole.
pub undo_horizontal_int32-undo_rows :
    (words : List ℕ) (width height : ℕ)
    → 0 < width
    → 0 < height
    → undo_horizontal_int32 words width height ≡ undo_rows height width words
unfolding undo_horizontal_int32
undo_horizontal_int32-undo_rows words width height h k =
    rw (ne→== width 0 (omega arith), ne→== height 0 (omega arith))
      (rows_loop-undo_rows height width 0 [] words h (omega arith))
