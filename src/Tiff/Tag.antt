-- ===== src/Tiff/Tag.antt =====
-- The tags of a directory (geotiff/const.go), and the labels they are printed with.
use gedtm30api.Base.{ℕ, String, Option, none, some, List, [], ◌∷◌, ◌==◌, if◌then◌else◌}

abbrev pub image_width : ℕ
image_width = 256

abbrev pub image_length : ℕ
image_length = 257

abbrev pub bits_per_sample : ℕ
bits_per_sample = 258

abbrev pub compression : ℕ
compression = 259

abbrev pub photometric_interpretation : ℕ
photometric_interpretation = 262

abbrev pub fill_order : ℕ
fill_order = 266

abbrev pub strip_offsets : ℕ
strip_offsets = 273

abbrev pub samples_per_pixel : ℕ
samples_per_pixel = 277

abbrev pub rows_per_strip : ℕ
rows_per_strip = 278

abbrev pub strip_byte_counts : ℕ
strip_byte_counts = 279

abbrev pub planar_configuration : ℕ
planar_configuration = 284

abbrev pub t4_options : ℕ
t4_options = 292

abbrev pub t6_options : ℕ
t6_options = 293

abbrev pub tile_width : ℕ
tile_width = 322

abbrev pub tile_length : ℕ
tile_length = 323

abbrev pub tile_offsets : ℕ
tile_offsets = 324

abbrev pub tile_byte_counts : ℕ
tile_byte_counts = 325

abbrev pub xresolution : ℕ
xresolution = 282

abbrev pub yresolution : ℕ
yresolution = 283

abbrev pub resolution_unit : ℕ
resolution_unit = 296

abbrev pub predictor : ℕ
predictor = 317

abbrev pub color_map : ℕ
color_map = 320

abbrev pub extra_samples : ℕ
extra_samples = 338

abbrev pub sample_format : ℕ
sample_format = 339

abbrev pub geo_key_directory : ℕ
geo_key_directory = 34735

abbrev pub geo_double_params : ℕ
geo_double_params = 34736

abbrev pub geo_ascii_params : ℕ
geo_ascii_params = 34737

abbrev pub model_pixel_scale : ℕ
model_pixel_scale = 33550

abbrev pub model_tiepoint : ℕ
model_tiepoint = 33922

abbrev pub model_transformation : ℕ
model_transformation = 34264

-- `tagToLabel`
tag_to_label : List (ℕ × String)
tag_to_label =
    (image_width, "ImageWidth")
    ∷ (image_length, "ImageLength")
    ∷ (bits_per_sample, "BitsPerSample")
    ∷ (compression, "Compression")
    ∷ (photometric_interpretation, "PhotometricInterpretation")
    ∷ (fill_order, "FillOrder")
    ∷ (strip_offsets, "StripOffsets")
    ∷ (samples_per_pixel, "SamplesPerPixel")
    ∷ (rows_per_strip, "RowsPerStrip")
    ∷ (strip_byte_counts, "StripByteCounts")
    ∷ (planar_configuration, "PlanarConfiguration")
    ∷ (t4_options, "T4Options")
    ∷ (t6_options, "T6Options")
    ∷ (tile_width, "TileWidth")
    ∷ (tile_length, "TileLength")
    ∷ (tile_offsets, "TileOffsets")
    ∷ (tile_byte_counts, "TileByteCounts")
    ∷ (xresolution, "XResolution")
    ∷ (yresolution, "YResolution")
    ∷ (resolution_unit, "ResolutionUnit")
    ∷ (predictor, "Predictor")
    ∷ (color_map, "ColorMap")
    ∷ (extra_samples, "ExtraSamples")
    ∷ (sample_format, "SampleFormat")
    ∷ (geo_key_directory, "GeoKeyDirectory")
    ∷ (geo_double_params, "GeoDoubleParams")
    ∷ (geo_ascii_params, "GeoAsciiParams")
    ∷ (model_pixel_scale, "ModelPixelScale")
    ∷ (model_tiepoint, "ModelTiepoint")
    ∷ (model_transformation, "ModelTransformation")
    ∷ []

label_in : List (ℕ × String) → ℕ → Option String
label_in [] t = none
label_in ((u, s) ∷ rest) t = if u == t then some s else label_in rest t

-- `Tag.String`: the label, or `none` where the number itself is printed.
pub label : ℕ → Option String
label t = label_in tag_to_label t
