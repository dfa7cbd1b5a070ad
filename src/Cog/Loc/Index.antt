-- ===== src/Cog/Loc/Index.antt =====
-- Where `loc` looks for a pixel: a tile of the grid, and a place in that tile.
use native.Mathlib.Nat.{
  div-add-mod', mod-lt, div-lt_iff_lt-mul, mul-add-div, mul-add-mod_self_left, div-eq_of_lt,
  mod-eq_of_lt, add-zero,
}
use gedtm30api.Base.{ℕ, ◌+◌, ◌-◌, ◌*◌, ◌/◌, ◌%◌, ◌^◌, ◌≤◌, ◌<◌, ◌≡◌, ap, ◌∙◌, arith}
use gedtm30api.Base.Int.{pos, two63, add64_small, mul64_small}
use gedtm30api.Cog.{GeoTiff}
use gedtm30api.Cog.Open.{tiles_to_cover}
use gedtm30api.Cog.Loc.{tile_number, pixel_index_in_tile}

-- The number of rows of tiles.
abbrev pub tile_rows : {F : Type 0} → GeoTiff F → ℕ
tile_rows g = tiles_to_cover g.image_length g.tile_length

-- The tiles have a size, the sums of uint32 do not wrap, and the tiles can be numbered in an int.
pub record IsGridded {F : Type 0} (g : GeoTiff F) : Type 0 where
  pub tile_width : 0 < g.tile_width
  pub tile_length : 0 < g.tile_length
  pub width_fits : g.image_width + g.tile_width ≤ 2 ^ 32
  pub length_fits : g.image_length + g.tile_length ≤ 2 ^ 32
  pub across : g.tiles_across ≡ tiles_to_cover g.image_width g.tile_width
  pub numbered : g.tiles_across * tile_rows g < two63

div-lt-tiles_to_cover : (x a b : ℕ) → 0 < b → a + b ≤ 2 ^ 32 → x < a → x / b < tiles_to_cover a b
unfolding tiles_to_cover
div-lt-tiles_to_cover x a b h k p =
    let s = a + b - 1 in
    let whole : (a + b + 2 ^ 32 - 1) % 2 ^ 32 ≡ s = omega arith in
    let covered : x < s / b * b = omega (arith, div-add-mod' s b, mod-lt s h) in
    rw whole ((div-lt_iff_lt-mul h).1 covered)

row_major-lt : (r c w h : ℕ) → r < h → c < w → w * r + c < w * h
row_major-lt r c w h p q = grind arith

row_major-div : (r c w : ℕ) → c < w → (w * r + c) / w ≡ r
row_major-div r c w p =
    mul-add-div (omega arith) r c ∙ ap (λ q. r + q) (div-eq_of_lt p) ∙ add-zero r

row_major-mod : (r c w : ℕ) → c < w → (w * r + c) % w ≡ c
row_major-mod r c w p = mul-add-mod_self_left w r c ∙ mod-eq_of_lt p

module _ {F : Type 0} (g : GeoTiff F) (h : IsGridded g) (x y : ℕ) (in_width : x < g.image_width)
    (in_length : y < g.image_length) where
  tile_x-lt : x / g.tile_width < g.tiles_across
  tile_x-lt =
      rw h.across
        (div-lt-tiles_to_cover x g.image_width g.tile_width h.tile_width h.width_fits in_width)

  tile_y-lt : y / g.tile_length < tile_rows g
  tile_y-lt =
      div-lt-tiles_to_cover y g.image_length g.tile_length h.tile_length h.length_fits in_length

  -- The number of the tile, counted row by row, without the wrap of int.
  abbrev pub tile_of : ℕ
  tile_of = g.tiles_across * (y / g.tile_length) + x / g.tile_width

  tile_of-lt : tile_of < g.tiles_across * tile_rows g
  tile_of-lt =
      row_major-lt (y / g.tile_length) (x / g.tile_width) g.tiles_across (tile_rows g) tile_y-lt
        tile_x-lt

  tile_number-tile_of : tile_number g x y ≡ pos tile_of
  unfolding tile_number
  tile_number-tile_of =
      let bound = h.numbered in
      rw (mul64_small g.tiles_across (y / g.tile_length) (omega (arith, tile_of-lt))) (
        add64_small (g.tiles_across * (y / g.tile_length)) (x / g.tile_width)
          (omega (arith, tile_of-lt)))

  abbrev index : ℕ
  index = pixel_index_in_tile g x y

  col-lt : x % g.tile_width < g.tile_width
  col-lt = mod-lt x h.tile_width

  row-lt : y % g.tile_length < g.tile_length
  row-lt = mod-lt y h.tile_length

  index_row_major : index ≡ g.tile_width * (y % g.tile_length) + x % g.tile_width
  unfolding pixel_index_in_tile
  index_row_major = omega arith

  index-lt : index < g.tile_width * g.tile_length
  index-lt = omega (
    arith,
    index_row_major,
    row_major-lt (y % g.tile_length) (x % g.tile_width) g.tile_width g.tile_length row-lt col-lt,
  )

  x_back : tile_of % g.tiles_across * g.tile_width + index % g.tile_width ≡ x
  x_back =
      rw
        (
          row_major-mod (y / g.tile_length) (x / g.tile_width) g.tiles_across tile_x-lt,
          index_row_major,
          row_major-mod (y % g.tile_length) (x % g.tile_width) g.tile_width col-lt,
        )
        (div-add-mod' x g.tile_width)

  y_back : tile_of / g.tiles_across * g.tile_length + index / g.tile_width ≡ y
  y_back =
      rw
        (
          row_major-div (y / g.tile_length) (x / g.tile_width) g.tiles_across tile_x-lt,
          index_row_major,
          row_major-div (y % g.tile_length) (x % g.tile_width) g.tile_width col-lt,
        )
        (div-add-mod' y g.tile_length)

  -- For each pixel of an image whose tiles have a size, can be numbered in an int and are counted
  -- by tilesAcross without a wrap, loc asks for a tile of the grid and for an index inside that
  -- tile, and the pixel can be told from the two: loc mixes up no two pixels.
  pub loc_address :
      (n : ℕ) × (tile_number g x y ≡ pos n)
      × (n < g.tiles_across * tile_rows g)
      × (pixel_index_in_tile g x y < g.tile_width * g.tile_length)
      × (n % g.tiles_across * g.tile_width + pixel_index_in_tile g x y % g.tile_width ≡ x)
      × (n / g.tiles_across * g.tile_length + pixel_index_in_tile g x y / g.tile_width ≡ y)
  loc_address = (tile_of, tile_number-tile_of, tile_of-lt, index-lt, x_back, y_back)
