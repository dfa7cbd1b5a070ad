-- ===== src/Vrt/Mosaic/Sources.antt =====
-- Which source `findSource` picks, and which of its pixels `loc` reads.
use native.Mathlib.Nat.{div-lt_iff_lt-mul}
use gedtm30api.Base.{
  ℕ, suc, ◌+◌, ◌-◌, ◌*◌, ◌/◌, ◌≤◌, ◌<◌, ◌≡◌, ap, sym, ◌∙◌, inl, inr, Bool, true, false, ◌&&◌, none,
  some, List, [], ◌∷◌, get_elem?, take, All, arith, Bool-cases,
}
use gedtm30api.Base.Int.{
  ℤ, pos, two63, quot_ℤ, wrap64, add64, add64_small, sub64_small, mul64_small, leb_ℤ, ltb_ℤ,
}
use gedtm30api.Base.Run.{ok}
use gedtm30api.Vrt.{Axis, SourceInfo}
use gedtm30api.Vrt.Mosaic.{in_axis, find_source, source_pixel, div64, offset_by}

abbrev pub covers : SourceInfo → ℤ → ℤ → Bool
covers s x y = in_axis s.x x && in_axis s.y y

-- The first source that covers the pixel.
pub record IsFirst (sources : List SourceInfo) (x y : ℤ) (s : SourceInfo) : Type 0 where
  pub at : ℕ
  pub is_at : get_elem? sources at ≡ some s
  pub covered : covers s x y ≡ true
  pub before : All (λ t. covers t x y ≡ false) (take at sources)

pub find_source-IsFirst :
    (sources : List SourceInfo) (x y : ℤ)
    → ((s : SourceInfo) → find_source sources x y ≡ some s → IsFirst sources x y s)
      × (find_source sources x y ≡ none → All (λ t. covers t x y ≡ false) sources)
unfolding find_source
find_source-IsFirst [] x y = ((λ s h. cc), (λ h. tt))
find_source-IsFirst (t ∷ sources) x y = elim (Bool-cases (covers t x y)) [
  | inl here ↦ (
    (λ s h.
        let same : some t ≡ some s = sym (rw here) ∙ h in
        record { at = 0; is_at = same; covered = rw (sym (some-inj same)) here; before = tt }),
    (λ h. let off : some t ≡ none = sym (rw here) ∙ h in cc),
  )
  | inr there ↦
      let (first, nowhere) = find_source-IsFirst sources x y in
      (
        (λ s h.
            let f = first s (sym (rw there) ∙ h) in
            record {
              at = suc f.at;
              is_at = f.is_at;
              covered = f.covered;
              before = (there, f.before);
            }),
        (λ h. (there, nowhere (sym (rw there) ∙ h))),
      )
]
  where
    some-inj : {a b : SourceInfo} → some a ≡ some b → a ≡ b
    some-inj h = cc

-- An axis whose offsets and sizes are not negative.
abbrev pub axis_of : ℕ → ℕ → ℕ → ℕ → Axis
axis_of src_off src_size dst_off dst_size = record {
  src_off = pos src_off;
  src_size = pos src_size;
  dst_off = pos dst_off;
  dst_size = pos dst_size;
}

quot-pos : (a b : ℕ) → 0 < b → a / b < two63 → div64 (pos a) (pos b) ≡ ok (pos (a / b))
unfolding div64 quot_ℤ wrap64
quot-pos a b h small = ground arith

in_axis-range :
    (so ss d ds x : ℕ)
    → d + ds < two63
    → in_axis (axis_of so ss d ds) (pos x) ≡ true
    → (d ≤ x) × (x < d + ds)
unfolding in_axis
in_axis-range so ss d ds x small h =
    let sum : add64 (pos d) (pos ds) ≡ pos (d + ds) = add64_small d ds small in
    let h' : (leb_ℤ (pos d) (pos x) && ltb_ℤ (pos x) (pos (d + ds))) ≡ true =
      ap (λ e. leb_ℤ (pos d) (pos x) && ltb_ℤ (pos x) e) (sym sum) ∙ h in
    ground (arith, h')

mul-lt_of_lt : (t ss ds : ℕ) → t < ds → 0 < ss → t * ss < ss * ds
mul-lt_of_lt t ss ds h k = grind arith

-- The pixel of a source that a pixel of the mosaic falls on.
abbrev pub pixel_in_source : ℕ → ℕ → ℕ → ℕ → ℕ → ℕ
pixel_in_source so ss d ds x = so + (x - d) * ss / ds

pub source_pixel-pixel_in_source :
    (so ss d ds x : ℕ)
    → 0 < ss
    → d + ds < two63
    → so + ss < two63
    → ss * ds < two63
    → in_axis (axis_of so ss d ds) (pos x) ≡ true
    → (source_pixel (axis_of so ss d ds) (pos x) ≡ ok (pos (pixel_in_source so ss d ds x)))
      × (so ≤ pixel_in_source so ss d ds x)
      × (pixel_in_source so ss d ds x < so + ss)
unfolding source_pixel offset_by
source_pixel-pixel_in_source so ss d ds x h small_dst small_src small_product covered =
    let (from, below) = in_axis-range so ss d ds x small_dst covered in
    let t = x - d in
    let less : t * ss < ss * ds = mul-lt_of_lt t ss ds (omega arith) h in
    let positive : 0 < ds = omega arith in
    let q : t * ss / ds < ss = (div-lt_iff_lt-mul {x = t * ss} {y = ss} positive).1 less in
    (
      rw (
        sub64_small x d from (omega arith),
        mul64_small t ss (omega arith),
        quot-pos (t * ss) ds (omega arith) (omega arith),
        add64_small so (t * ss / ds) (omega arith),
      ),
      omega arith,
      omega arith,
    )

-- For a source whose offsets and sizes are not negative, with a source size that is not zero
-- and sums and products that fit in int, each pixel of the destination rectangle maps, without
-- a division by zero, to a pixel of the source rectangle.
pub source_pixel-inside :
    (so ss d ds x : ℕ)
    → 0 < ss
    → d + ds < two63
    → so + ss < two63
    → ss * ds < two63
    → in_axis (axis_of so ss d ds) (pos x) ≡ true
    → (p : ℕ) × (source_pixel (axis_of so ss d ds) (pos x) ≡ ok (pos p)) × (so ≤ p) × (p < so + ss)
source_pixel-inside so ss d ds x h small_dst small_src small_product covered =
    let (is, from, below) =
      source_pixel-pixel_in_source so ss d ds x h small_dst small_src small_product covered in
    (pixel_in_source so ss d ds x, is, from, below)
