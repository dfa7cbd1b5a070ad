-- ===== src/Vrt/Text.antt =====
-- What vrt.go uses of package strings, on bytes.
use gedtm30api.Base.{
  ℕ, suc, ◌≡◌, ◌≢◌, refl, Bool, true, false, ◌||◌, ◌&&◌, Option, none, some, List, [], ◌∷◌, arith,
  ◌==◌, if◌then◌else◌, Bool-cases, inl, inr,
}
use gedtm30api.Vrt.{Text}

abbrev pub same : Text → Text → Bool
same [] [] = true
same [] (b ∷ t) = false
same (a ∷ s) [] = false
same (a ∷ s) (b ∷ t) = a == b && same s t

pub same_refl : (s : Text) → same s s ≡ true
same_refl [] = refl
same_refl (a ∷ s) = ground (arith, same_refl s)

pub same→eq : (s t : Text) → same s t ≡ true → s ≡ t
same→eq [] [] h = refl
same→eq [] (b ∷ t) h = cc
same→eq (a ∷ s) [] h = cc
same→eq (a ∷ s) (b ∷ t) h = ground (arith, same→eq s t)

pub ne→same : (s t : Text) → s ≢ t → same s t ≡ false
ne→same s t h = elim (Bool-cases (same s t)) [ inl e ↦ absurd (h (same→eq s t e)) | inr e ↦ e ]

-- `strings.CutPrefix`: the rest behind the prefix.
abbrev pub cut_prefix : Text → Text → Option Text
cut_prefix s [] = some s
cut_prefix [] (b ∷ p) = none
cut_prefix (a ∷ s) (b ∷ p) = let rest = cut_prefix s p in if a == b then rest else none

-- `strings.HasPrefix`
abbrev pub has_prefix : Text → Text → Bool
has_prefix s p = elim (cut_prefix s p) [ some rest ↦ true | none ↦ false ]

-- `strings.Index` and `strings.LastIndex` of a single byte.
abbrev pub index : Text → ℕ → Option ℕ
index [] b = none
index (a ∷ s) b =
    let rest = index s b in
    if a == b then some 0 else elim rest [ some i ↦ some (suc i) | none ↦ none ]

abbrev pub last_index : Text → ℕ → Option ℕ
last_index [] b = none
last_index (a ∷ s) b = elim (last_index s b) [
  | some i ↦ some (suc i)
  | none ↦ if a == b then some 0 else none
]

-- ASCII white space.
abbrev pub is_space : ℕ → Bool
is_space b = b == 32 || b == 9 || b == 10 || b == 11 || b == 12 || b == 13

abbrev commas_to_spaces : Text → Text
commas_to_spaces [] = []
commas_to_spaces (b ∷ s) = (if b == b',' then 32 else b) ∷ commas_to_spaces s

abbrev pub replace_commas : Text → Text
replace_commas = commas_to_spaces

-- The bytes in front of the first white space, put before the words of the rest.
abbrev pub in_front : ℕ → List Text → List Text
in_front b [] = (b ∷ []) ∷ []
in_front b (w ∷ ws) = (b ∷ w) ∷ ws

-- `strings.Fields`. The helper keeps an empty word in front when the text starts with white space.
abbrev words : Text → List Text
words [] = []
words (b ∷ s) = if is_space b then [] ∷ words s else in_front b (words s)

abbrev drop_empty : List Text → List Text
drop_empty [] = []
drop_empty ([] ∷ ws) = drop_empty ws
drop_empty ((b ∷ w) ∷ ws) = (b ∷ w) ∷ drop_empty ws

abbrev pub fields : Text → List Text
fields s = drop_empty (words s)

abbrev trim_left : Text → Text
trim_left [] = []
trim_left (b ∷ s) = if is_space b then trim_left s else b ∷ s

abbrev trim_right : Text → Text
trim_right [] = []
trim_right (b ∷ s) = elim (trim_right s) [
  | [] ↦ if is_space b then [] else b ∷ []
  | c ∷ t ↦ b ∷ c ∷ t
]

-- `strings.TrimSpace`
abbrev pub trim_space : Text → Text
trim_space s = trim_right (trim_left s)
