-- ===== src/Cog/Image.antt =====
-- An image as a grid of pixels, and the tiles that a TIFF writer makes of it.
use gedtm30api.Base.{
  ℕ, zero, suc, ◌+◌, ◌*◌, ◌/◌, ◌%◌, ◌<◌, ◌≡◌, refl, ap, List, [], ◌∷◌, arith, length, get_elem?,
  ◌∙◌, some, All, ◌==◌, if◌then◌else◌,
}
use gedtm30api.Pixels.Horizontal.{IsWord, difference_rows}
use gedtm30api.Cog.{GeoTiff}
use gedtm30api.Cog.Open.{predictor_horizontal}

-- The 32-bit word of the pixel in column `x` of row `y`. An image also has words where its last
-- tiles leave the grid.
abbrev pub Image : Type 0
Image = ℕ → ℕ → ℕ

abbrev pub IsImage : Image → Type 0
IsImage image = (x y : ℕ) → IsWord (image x y)

-- `f 0` to `f (n - 1)`, from `f i` on.
unfoldable pub tabulate {ℓ} : {A : Type ℓ} → (ℕ → A) → ℕ → ℕ → List A
tabulate f i zero = []
tabulate f i (suc n) = f i ∷ tabulate f (i + 1) n

pub length-tabulate {ℓ} : {A : Type ℓ} (f : ℕ → A) (i n : ℕ) → length (tabulate f i n) ≡ n
unfolding tabulate
length-tabulate f i zero = refl
length-tabulate f i (suc n) = ap suc (length-tabulate f (i + 1) n)

pub get_elem?-tabulate {ℓ} :
    {A : Type ℓ} (f : ℕ → A) (i n k : ℕ) → k < n → get_elem? (tabulate f i n) k ≡ some (f (i + k))
unfolding tabulate
get_elem?-tabulate f i zero k h = absurd (omega arith)
get_elem?-tabulate f i (suc n) zero h = ap (λ j. some (f j)) (omega arith)
get_elem?-tabulate f i (suc n) (suc k) h =
    rw (get_elem?-tabulate f (i + 1) n k (omega arith)) (ap (λ j. some (f j)) (omega arith))

pub All-tabulate {ℓ κ} :
    {A : Type ℓ} (P : A → Type κ) (f : ℕ → A) (i n : ℕ)
    → ((k : ℕ) → P (f k))
    → All P (tabulate f i n)
unfolding tabulate
All-tabulate P f i zero h = tt
All-tabulate P f i (suc n) h = (h i, All-tabulate P f (i + 1) n h)

module _ {F : Type 0} (g : GeoTiff F) where
  -- What a writer stores of the words: the differences along the rows, for predictor 2.
  unfoldable pub predicted : List ℕ → List ℕ
  predicted ws =
      if g.predictor == predictor_horizontal
      then difference_rows g.tile_length g.tile_width ws
      else ws

module _ {F : Type 0} (g : GeoTiff F) (image : Image) where
  -- The word at index `i` of tile `n`: the tiles are numbered and filled row by row.
  abbrev pub word_of_tile : ℕ → ℕ → ℕ
  word_of_tile n i =
      image (n % g.tiles_across * g.tile_width + i % g.tile_width)
        (n / g.tiles_across * g.tile_length + i / g.tile_width)

  unfoldable pub tile_words : ℕ → List ℕ
  tile_words n = tabulate (word_of_tile n) 0 (g.tile_width * g.tile_length)

  pub tile_words-IsWord : IsImage image → (n : ℕ) → All IsWord (tile_words n)
  unfolding tile_words
  tile_words-IsWord h n =
      All-tabulate IsWord (word_of_tile n) 0 (g.tile_width * g.tile_length) (λ i. h _ _)

  pub get_elem?-tile_words :
      (n i : ℕ)
      → i < g.tile_width * g.tile_length
      → get_elem? (tile_words n) i ≡ some (word_of_tile n i)
  unfolding tile_words
  get_elem?-tile_words n i h =
      get_elem?-tabulate (word_of_tile n) 0 (g.tile_width * g.tile_length) i h
      ∙ ap (λ j. some (word_of_tile n j)) (omega arith)
