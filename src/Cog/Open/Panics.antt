-- ===== src/Cog/Open/Panics.antt =====
-- Where the end of `OpenWithCache`, from the tags to the struct, panics.
use gedtm30api.Base.{
  ℕ, ◌<◌, ◌≡◌, ◌↔◌, refl, sym, ◌∙◌, inl, inr, none, some, List, [], ◌∷◌, length, get_elem?, arith,
  Option-cases,
}
use gedtm30api.Base.Run.{text, hang, Run, ok, err, panic, or_panic, ◌>>=◌}
use gedtm30api.Tiff.Tag
use gedtm30api.Tiff.Header.{Head}
use gedtm30api.Tiff.Value.{TagData, Tags, lookup, get_uint, get_64bit_slice, double_data_value}
use gedtm30api.Geo.Floats.{Floats}
use gedtm30api.Cog.Open.{values_or_nil, pixel_scale, metadata}

-- The tags that the function asks for before the pixel scale, each of a type that it reads.
pub record HasTags (tags : Tags) : Type 0 where
  pub image_width : (v : ℕ) × (get_uint Tag.image_width tags ≡ some v)
  pub image_length : (v : ℕ) × (get_uint Tag.image_length tags ≡ some v)
  pub tile_width : (v : ℕ) × (get_uint Tag.tile_width tags ≡ some v)
  pub tile_length : (v : ℕ) × (get_uint Tag.tile_length tags ≡ some v)
  pub tile_offsets : (vs : List ℕ) × (get_64bit_slice Tag.tile_offsets tags ≡ some vs)
  pub tile_byte_counts : (vs : List ℕ) × (get_64bit_slice Tag.tile_byte_counts tags ≡ some vs)

-- A pixel scale of another type than DOUBLE, or with less than two values.
abbrev pub HasShortScale : Tags → Type 0
HasShortScale tags =
    (td : TagData) × (lookup Tag.model_pixel_scale tags ≡ some td)
    × (length (values_or_nil (double_data_value td)) < 2)

module _ {F G : Type 0} (fl : Floats F G) where
  -- The first two of the values.
  abbrev scales : List ℕ → Run (F × F)
  scales values = do
    x ← or_panic (get_elem? values 0)
    y ← or_panic (get_elem? values 1)
    ok (fl.from_bits x, fl.from_bits y)

  scales-panic_iff : (values : List ℕ) → (scales values ≡ panic) ↔ (length values < 2)
  scales-panic_iff [] = (λ h. omega arith, λ h. refl)
  scales-panic_iff (x ∷ []) = (λ h. omega arith, λ h. refl)
  scales-panic_iff (x ∷ y ∷ values) = (λ h. cc, λ h. absurd (omega arith))

  pixel_scale-scales :
      (tags : Tags) (td : TagData)
      → lookup Tag.model_pixel_scale tags ≡ some td
      → pixel_scale fl tags ≡ scales (values_or_nil (double_data_value td))
  unfolding pixel_scale
  pixel_scale-scales tags td found = rw found

  pixel_scale-missing :
      (tags : Tags)
      → lookup Tag.model_pixel_scale tags ≡ none
      → pixel_scale fl tags ≡ err (text "missing tag: ModelPixelScale")
  unfolding pixel_scale
  pixel_scale-missing tags missing = rw missing

  pixel_scale-panic : (tags : Tags) → pixel_scale fl tags ≡ panic → HasShortScale tags
  pixel_scale-panic tags h = elim (Option-cases (lookup Tag.model_pixel_scale tags)) [
    | inl missing ↦
        let no : ◌≡◌ {A = Run (F × F)} (err (text "missing tag: ModelPixelScale")) panic =
          sym (pixel_scale-missing tags missing) ∙ h in
        cc
    | inr (td, found) ↦ (
      td,
      found,
      (scales-panic_iff (values_or_nil (double_data_value td))).0
          (sym (pixel_scale-scales tags td found) ∙ h),
    )
  ]

  panic-pixel_scale : (tags : Tags) → HasShortScale tags → pixel_scale fl tags ≡ panic
  panic-pixel_scale tags (td, found, short) =
      pixel_scale-scales tags td found
      ∙ (scales-panic_iff (values_or_nil (double_data_value td))).1 short

  -- A continuation that returns a value does not panic.
  bind-panic :
      {A B : Type 0} (m : Run A) (k : A → Run B)
      → ((a : A) → (b : B) × (k a ≡ ok b))
      → (m >>= k) ≡ panic
      → m ≡ panic
  bind-panic (ok a) k returns h =
      let (b, value) = returns a in let no : ok b ≡ panic = sym value ∙ h in cc
  bind-panic (err e) k returns h = cc
  bind-panic panic k returns h = refl
  bind-panic hang k returns h = cc

  -- Once the tags that OpenWithCache asks for first are there, it panics exactly on a ModelPixelScale
  -- tag that is not of type DOUBLE or has less than two values.
  pub metadata-panic_iff :
      (tags : Tags) (h : Head) (key_prefix : List ℕ)
      → HasTags tags
      → (metadata fl tags h key_prefix ≡ panic) ↔ HasShortScale tags
  unfolding metadata
  metadata-panic_iff tags h key_prefix t =
      rw
        (
          t.image_width.1, t.image_length.1, t.tile_width.1, t.tile_length.1, t.tile_offsets.1,
          t.tile_byte_counts.1,
        )
        (
          (λ p. pixel_scale-panic tags (bind-panic (pixel_scale fl tags) _ (λ a. (_, refl)) p)),
          (λ short. rw (panic-pixel_scale tags short)),
        )
