-- ===== src/Json/Escape.antt =====
-- Writing and reading one string.
use ai_editor.Prelude.{◌≡◌, refl, ℕ, false, [], ◌∷◌, ◌++◌, some, arith, ◌==◌}
use ai_editor.Text.{Bytes}
use ai_editor.Json.{json_escape, json_unescape, read_string}

json_unescape-cons :
    (c : ℕ) (t : Bytes) → (c == b'\\') ≡ false → json_unescape (c ∷ t) ≡ c ∷ json_unescape t
unfolding json_unescape
json_unescape-cons c [] h = refl
json_unescape-cons c (d ∷ t) h = ground arith

-- Unescaping an escaped text gives it back.
pub json_unescape-json_escape : (value : Bytes) → json_unescape (json_escape value) ≡ value
unfolding json_escape json_unescape
json_unescape-json_escape [] = refl
json_unescape-json_escape (c ∷ value) =
    ground (arith, json_unescape-json_escape value, json_unescape-cons c (json_escape value))

-- Reading up to the closing quote gives the escaped text back, whatever follows the quote.
pub read_string-json_escape :
    (value rest : Bytes) → read_string false (json_escape value ++ (b'"' ∷ rest)) ≡ some value
unfolding json_escape read_string
read_string-json_escape [] rest = refl
read_string-json_escape (c ∷ value) rest = ground (arith, read_string-json_escape value rest)
