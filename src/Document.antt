-- ===== src/Document.antt =====
-- libs/bridge_core/src/session_service.cpp: texts as documents of lines. The laws are in the modules below.
pub mod Laws
use ai_editor.Prelude.{
  ℕ, suc, ◌+◌, ◌-◌, Bool, true, false, not, ◌&&◌, ◌||◌, List, [], ◌∷◌, ◌++◌, Option, none, some,
  arith, length, take, drop, last?, ltb, ◌==◌, if◌then◌else◌,
}
use ai_editor.Text.{Bytes, is_empty}

pub record TextDocument : Type 0 where
  pub exists : Bool
  pub content : Bytes
  pub lines : List Bytes
  pub trailing_newline : Bool

-- The loop over the characters: a carriage return is dropped, a newline ends the current line.
unfoldable pub line_loop : Bytes → Bytes → List Bytes × Bytes
line_loop [] current = ([], current)
line_loop (c ∷ rest) current =
    let (lines, last) =
      line_loop rest (if c == 13 then current else if c == 10 then [] else current ++ (c ∷ [])) in
    (if c == 10 then current ∷ lines else lines, last)

-- `!text.empty() && text.back() == '\n'`
abbrev pub ends_with_newline : Bytes → Bool
ends_with_newline text = elim (last? text) [ none ↦ false | some c ↦ c == 10 ]

-- What is left after the last newline is a line if it holds anything, or if no newline ends the text.
abbrev pub close_lines : Bytes → List Bytes × Bytes → List Bytes
close_lines text (lines, current) =
    if not (is_empty current) || (not (is_empty text) && not (ends_with_newline text))
    then lines ++ (current ∷ [])
    else lines

unfoldable pub make_document_from_content : Bytes → Bool → TextDocument
unfolding line_loop
make_document_from_content content exists = record {
  exists = exists;
  content = content;
  lines = close_lines content (line_loop content []);
  trailing_newline = ends_with_newline content;
}

-- The lines with a newline between each two.
unfoldable pub joined : List Bytes → Bytes
joined [] = []
joined (l ∷ ls) = let rest = joined ls in elim ls [ [] ↦ l | _ ∷ _ ↦ l ++ (10 ∷ rest) ]

unfoldable pub join_lines : List Bytes → Bool → Bytes
unfolding joined
join_lines lines trailing_newline =
    if trailing_newline && (not (is_empty lines) || not (is_empty (joined lines)))
    then joined lines ++ (10 ∷ [])
    else joined lines

-- The test on a 1-based inclusive range that the edits and the rebase check share.
abbrev pub bad_range : ℕ → ℕ → List Bytes → Bool
bad_range line_start line_end lines =
    line_start == 0 || line_end == 0 || ltb line_end line_start || ltb (length lines) line_end

unfoldable pub slice_range_text : TextDocument → ℕ → ℕ → Bytes
unfolding joined
slice_range_text doc line_start line_end =
    if bad_range line_start line_end doc.lines
    then []
    else joined (take (suc line_end - line_start) (drop (line_start - 1) doc.lines))

-- A text without its carriage returns.
unfoldable pub strip_cr : Bytes → Bytes
strip_cr [] = []
strip_cr (c ∷ rest) = let tail = strip_cr rest in if c == 13 then tail else c ∷ tail
