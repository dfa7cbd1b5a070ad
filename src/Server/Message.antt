-- ===== src/Server/Message.antt =====
-- The text of an error, and the test on it by which the handlers tell a point outside the raster
-- (main.go).
use Prim.Native.Char.{code}
use Prim.Native.String.{String, [], ◌∷◌, ◌++◌}
use gedtm30api.Base.{Bool, true, false, ◌&&◌, ◌==◌, if◌then◌else◌}
use gedtm30api.Base.Run.{Error, eof, unexpected_eof, text, external, wrap}

-- `err.Error()`
error_text : Error → String
error_text eof = "EOF"
error_text unexpected_eof = "unexpected EOF"
error_text (text s) = s
error_text (external s) = s
error_text (wrap s e) = s ++ error_text e

starts_with : String → String → Bool
starts_with s [] = true
starts_with [] (d ∷ t) = false
starts_with (c ∷ s) (d ∷ t) = let rest = starts_with s t in code c == code d && rest

-- `strings.Contains`
string_contains : String → String → Bool
string_contains [] t = starts_with [] t
string_contains (c ∷ s) t =
    let rest = string_contains s t in if starts_with (c ∷ s) t then true else rest

unfoldable pub mentions_outside : Error → Bool
unfolding error_text starts_with string_contains
mentions_outside e = string_contains (error_text e) "does not fall inside"
