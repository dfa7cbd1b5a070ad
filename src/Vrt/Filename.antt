-- ===== src/Vrt/Filename.antt =====
-- `resolveVRTFilename`: from the name in the mosaic's file to the name to open.
use gedtm30api.Base.{
  ℕ, ◌+◌, ◌≢◌, Bool, Option, none, some, [], ◌∷◌, ◌++◌, take, drop, if◌then◌else◌, All,
}
use gedtm30api.Vrt.{Text}
use gedtm30api.Vrt.Text.{cut_prefix, has_prefix, index, last_index}

abbrev vsicurl : Text
vsicurl = b'/' ∷ b'v' ∷ b's' ∷ b'i' ∷ b'c' ∷ b'u' ∷ b'r' ∷ b'l' ∷ b'/' ∷ []

abbrev pub vsi : Text
vsi = b'/' ∷ b'v' ∷ b's' ∷ b'i' ∷ []

-- The name behind a `/vsi…/` prefix.
behind_vsi : Text → Option ℕ → Text
behind_vsi filename (some i) = drop (i + 2) filename
behind_vsi filename none = filename

beside : Text → Text → Option ℕ → Text
beside base_url filename (some i) = take (i + 1) base_url ++ filename
beside base_url filename none = base_url ++ (b'/' ∷ filename)

relative_to : Text → Text → Text
relative_to [] filename = filename
relative_to (b ∷ base_url) filename =
    beside (b ∷ base_url) filename (last_index (b ∷ base_url) b'/')

without_vsicurl : Text → Text → Bool → Option Text → Text
without_vsicurl base_url filename relative (some rest) = rest
without_vsicurl base_url filename relative none =
    if has_prefix filename vsi
    then behind_vsi filename (index (drop 1 filename) b'/')
    else if relative
    then relative_to base_url filename
    else filename

pub resolve_vrt_filename : Text → Text → Bool → Text
resolve_vrt_filename base_url [] relative = []
resolve_vrt_filename base_url (b ∷ filename) relative =
    without_vsicurl base_url (b ∷ filename) relative (cut_prefix (b ∷ filename) vsicurl)

-- No slash in a text.
abbrev pub IsPlain : Text → Type 0
IsPlain s = All (λ b. b ≢ b'/') s
