-- ===== src/Json.antt =====
-- libs/bridge_core/src/protocol.cpp: writing a string into a JSON text, and reading a value of a
-- JSON text by its key. A position in a text is represented by the part of the text from there on.
pub mod Escape
pub mod Scan
pub mod Object
pub mod Fields
use ai_editor.Prelude.{
  ℕ, zero, suc, ◌+◌, Bool, true, false, List, [], ◌∷◌, ◌++◌, Option, none, some, arith, length,
  drop, ◌==◌, if◌then◌else◌,
}
use ai_editor.Text.{Bytes, is_space, is_digit, starts_with, codes, is_empty}
use ai_editor.Text.Find.{find}
use mathlib.Core.Option

escape_char : ℕ → Bytes
escape_char c =
    if c == b'\\'
    then codes "\\\\"
    else if c == b'"'
    then codes "\\\""
    else if c == 10
    then codes "\\n"
    else if c == 13
    then codes "\\r"
    else if c == 9
    then codes "\\t"
    else c ∷ []

unfoldable pub json_escape : Bytes → Bytes
unfolding escape_char
json_escape [] = []
json_escape (c ∷ value) = escape_char c ++ json_escape value

-- The character that stands for `\n`, where `n` is this one.
unescape_char : ℕ → ℕ
unescape_char n =
    if n == b'\\'
    then b'\\'
    else if n == b'"'
    then b'"'
    else if n == b'n'
    then 10
    else if n == b'r'
    then 13
    else if n == b't'
    then 9
    else n

unfoldable pub json_unescape : Bytes → Bytes
unfolding unescape_char
json_unescape [] = []
json_unescape (c ∷ []) = c ∷ []
json_unescape (c ∷ n ∷ value) =
    let escaped = unescape_char n ∷ json_unescape value in
    let plain = c ∷ json_unescape (n ∷ value) in if c == b'\\' then escaped else plain

-- `while (isspace(text[i])) ++i`
unfoldable pub skip_space : Bytes → Bytes
skip_space [] = []
skip_space (c ∷ text) = let rest = skip_space text in if is_space c then rest else c ∷ text

-- What follows the colon behind a key, if a colon follows.
unfoldable pub after_colon : Bytes → Option Bytes
unfolding skip_space
after_colon text = elim (skip_space text) [
  | [] ↦ none
  | c ∷ value ↦ if c == b':' then some (skip_space value) else none
]

-- The loop of `find_json_value_start`, with a round for each hit of the key.
pub find_value : ℕ → Bytes → Bytes → Option Bytes
find_value zero needle text = none
find_value (suc fuel) needle text = elim (find text needle 0) [
  | none ↦ none
  | some p ↦
      let after = drop (p + length needle) text in
      elim (after_colon after) [ none ↦ find_value fuel needle after | some value ↦ some value ]
]

abbrev pub quoted : Bytes → Bytes
quoted key = b'"' ∷ key ++ (b'"' ∷ [])

-- Where the value of a key begins.
unfoldable pub find_json_value_start : Bytes → Bytes → Option Bytes
unfolding find_value after_colon find
find_json_value_start text key = find_value (length text + 1) (quoted key) text

-- The characters up to the closing quote, if there is one; the flag says that a backslash stood
-- before.
unfoldable pub read_string : Bool → Bytes → Option Bytes
unfolding unescape_char
read_string escaping [] = none
read_string true (c ∷ text) = Option.map (λ out. unescape_char c ∷ out) (read_string false text)
read_string false (c ∷ text) =
    let escaped = read_string true text in
    let plain = read_string false text in
    if c == b'\\' then escaped else if c == b'"' then some [] else Option.map (λ out. c ∷ out) plain

abbrev or_empty : Option Bytes → Bytes
or_empty none = []
or_empty (some t) = t

unfoldable pub json_get_string : Bytes → Bytes → Bytes
unfolding find_json_value_start read_string
json_get_string text key = elim (find_json_value_start text key) [
  | none ↦ []
  | some value ↦ elim value [
    | [] ↦ []
    | c ∷ rest ↦ if c == b'"' then or_empty (read_string false rest) else []
  ]
]

-- The digits that a text begins with.
unfoldable pub digits_of : Bytes → Bytes
digits_of [] = []
digits_of (c ∷ text) = let rest = digits_of text in if is_digit c then c ∷ rest else []

unfoldable pub json_get_uint_raw : Bytes → Bytes → Bytes → Bytes
unfolding find_json_value_start digits_of
json_get_uint_raw text key fallback = elim (find_json_value_start text key) [
  | none ↦ fallback
  | some value ↦ if is_empty (digits_of value) then fallback else digits_of value
]

unfoldable pub json_get_bool : Bytes → Bytes → Bool → Bool
unfolding find_json_value_start starts_with
json_get_bool text key fallback = elim (find_json_value_start text key) [
  | none ↦ fallback
  | some value ↦
      if starts_with value (codes "true")
      then true
      else if starts_with value (codes "false")
      then false
      else fallback
]
