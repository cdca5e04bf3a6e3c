-- ===== src/Session/Edit/Range.antt =====
-- `replace_range` edits and the lines of a file.
use ai_editor.Prelude.{
  ℕ, suc, ◌+◌, ◌-◌, ◌≤◌, ◌<◌, ◌≡◌, ◌≢◌, ◌↔◌, sym, ap, ◌∙◌, true, false, ◌||◌, List, [], ◌∷◌, ◌++◌,
  some, arith, length, take, drop, get_elem?, take-append-drop, drop-drop, zero,
}
use ai_editor.Text.{Bytes, codes, str_eq}
use ai_editor.Outcome.{ok, is_ok}
use ai_editor.Document.{
  make_document_from_content, join_lines, slice_range_text, ends_with_newline, joined, strip_cr,
}
use ai_editor.Document.Laws.{
  All, IsLine, All-append, All-take, All-drop, lines-IsLine, lines-join_lines, lines-joined,
  joined-open, All-get_elem?, join_lines-make_document,
}
use ai_editor.Session.Types.{StagedChange}
use ai_editor.Session.Edit.{Applied, apply_range, apply_change_to_content}

-- The lines of a text, as every part of the service splits them.
abbrev pub lines_of : Bytes → List Bytes
lines_of text = (make_document_from_content text true).lines

-- What the edit does, in the range and outside of it.
abbrev pub range_result : StagedChange → Bytes → Bytes
range_result change original =
    join_lines
      (take (change.line_start - 1) (lines_of original)
        ++ (lines_of change.new_content ++ drop change.line_end (lines_of original)))
      ((make_document_from_content original true).trailing_newline
        || ends_with_newline change.new_content)

apply_as_range :
    (change : StagedChange) (original : Bytes)
    → change.operation ≡ codes "replace_range"
    → apply_change_to_content change original ≡ apply_range change original
unfolding apply_change_to_content str_eq
apply_as_range change original e = rw e

-- A `replace_range` edit succeeds exactly on a range within the file's lines.
pub apply_range_ok_iff :
    (change : StagedChange) (original : Bytes)
    → change.operation ≡ codes "replace_range"
    → (is_ok (apply_change_to_content change original) ≡ true) ↔ (
        (0 < change.line_start)
        × (change.line_start ≤ change.line_end)
        × (change.line_end ≤ length (lines_of original)))
apply_range_ok_iff change original e =
    rw (apply_as_range change original e)
      (unfold apply_range in (λ h. ground arith, λ h. ground arith))

apply_range-updated :
    (change : StagedChange) (original : Bytes) (r : Applied)
    → change.operation ≡ codes "replace_range"
    → apply_change_to_content change original ≡ ok r
    → r.updated ≡ range_result change original
apply_range-updated change original r e h = updated (sym (apply_as_range change original e) ∙ h)
  where
    updated : apply_range change original ≡ ok r → r.updated ≡ range_result change original
    updated k = unfold apply_range in ground arith

-- A `replace_range` edit of a file that ends with a newline leaves exactly the lines before the
-- range, the lines of the new text and the lines after the range.
pub apply_range_lines :
    (change : StagedChange) (original : Bytes) (r : Applied)
    → change.operation ≡ codes "replace_range"
    → apply_change_to_content change original ≡ ok r
    → ends_with_newline original ≡ true
    → lines_of r.updated
      ≡ take (change.line_start - 1) (lines_of original)
        ++ (lines_of change.new_content ++ drop change.line_end (lines_of original))
apply_range_lines change original r e h newline =
    let a = take (change.line_start - 1) (lines_of original) in
    let b = lines_of change.new_content in
    let c = drop change.line_end (lines_of original) in
    ap lines_of (apply_range-updated change original r e h)
    ∙ ap (λ t. lines_of (join_lines (a ++ (b ++ c)) (t || ends_with_newline change.new_content)))
        {y = true} (unfold make_document_from_content in newline)
    ∙ lines-join_lines (a ++ (b ++ c)) true (
        All-append IsLine a (b ++ c)
          (All-take IsLine (change.line_start - 1) (lines_of original) (lines-IsLine original true))
          (All-append IsLine b c (lines-IsLine change.new_content true)
            (All-drop IsLine change.line_end (lines_of original) (lines-IsLine original true))))

take_range :
    (xs : List Bytes) (m k : ℕ) (l : Bytes)
    → get_elem? xs (m + k) ≡ some l
    → take (suc k) (drop m xs) ≡ take k (drop m xs) ++ (l ∷ [])
take_range [] m k l h = cc
take_range (x ∷ xs) zero k l h =
    first (x ∷ xs) k (ap (get_elem? (x ∷ xs)) {y = 0 + k} (omega arith) ∙ h)
  where
    first :
        (ys : List Bytes) (k : ℕ)
        → get_elem? ys k ≡ some l
        → take (suc k) ys ≡ take k ys ++ (l ∷ [])
    first [] k h = cc
    first (y ∷ ys) zero h = ground arith
    first (y ∷ ys) (suc k) h = ap (λ t. y ∷ t) (first ys k h)
take_range (x ∷ xs) (suc m) k l h =
    take_range xs m k l
      (ap (get_elem? (x ∷ xs)) {x = suc (m + k)} {y = suc m + k} (omega arith) ∙ h)

rejoin : (a n : ℕ) (xs : List Bytes) → take a xs ++ (take n (drop a xs) ++ drop (a + n) xs) ≡ xs
rejoin a n xs =
    ap (λ t. take a xs ++ (take n (drop a xs) ++ t)) (sym (drop-drop a n xs))
    ∙ ap (λ t. take a xs ++ t) (take-append-drop n (drop a xs))
    ∙ take-append-drop a xs

-- The lines of a slice whose last line is not empty, and the slice ends with no newline.
slice-lines :
    (xs : List Bytes) (a k : ℕ) (l : Bytes)
    → All IsLine xs
    → get_elem? xs (a + k) ≡ some l
    → l ≢ []
    → (lines_of (joined (take (suc k) (drop a xs))) ≡ take (suc k) (drop a xs))
      × (ends_with_newline (joined (take (suc k) (drop a xs))) ≡ false)
slice-lines xs a k l h last some_line =
    let line = All-get_elem? IsLine xs (a + k) l h last in
    rw (take_range xs a k l last) (
      lines-joined (take k (drop a xs)) l true
          (All-take IsLine k (drop a xs) (All-drop IsLine a xs h)) line some_line,
      joined-open (take k (drop a xs)) l line some_line,
    )

slice-eq-joined :
    (change : StagedChange) (original : Bytes)
    → (0 < change.line_start)
      × (change.line_start ≤ change.line_end)
      × (change.line_end ≤ length (lines_of original))
    → slice_range_text (make_document_from_content original true) change.line_start change.line_end
      ≡ joined (
          take
            (suc (change.line_end - change.line_start))
            (drop (change.line_start - 1) (lines_of original)))
unfolding slice_range_text
slice-eq-joined change original (a, b, c) =
    let n : suc change.line_end - change.line_start ≡ suc (change.line_end - change.line_start) =
      omega arith in
    rw (← n) (ground arith)

-- Replacing a range by the very text that stands there gives the file back without its carriage
-- returns, if the last line of the range is not empty.
pub replace_range_self :
    (change : StagedChange) (original : Bytes) (r : Applied) (l : Bytes)
    → change.operation ≡ codes "replace_range"
    → apply_change_to_content change original ≡ ok r
    → change.new_content
      ≡ slice_range_text
          (make_document_from_content original true)
          change.line_start
          change.line_end
    → get_elem? (lines_of original) (change.line_end - 1) ≡ some l
    → l ≢ []
    → r.updated ≡ strip_cr original
replace_range_self change original r l e h same last some_line =
    let (x, y, z) = (apply_range_ok_iff change original e).0 (ap is_ok h) in
    let xs = lines_of original in
    let a = change.line_start - 1 in
    let k = change.line_end - change.line_start in
    let s = joined (take (suc k) (drop a xs)) in
    let new : change.new_content ≡ s = same ∙ slice-eq-joined change original (x, y, z) in
    let last' : get_elem? xs (a + k) ≡ some l = ap (get_elem? xs) (omega arith) ∙ last in
    let (p, q) = slice-lines xs a k l (lines-IsLine original true) last' some_line in
    let t = (make_document_from_content original true).trailing_newline in
    apply_range-updated change original r e h
    ∙ ap
        (λ u.
          join_lines (take a xs ++ (lines_of u ++ drop change.line_end xs))
            (t || ends_with_newline u))
        new
    ∙ ap (λ u. join_lines (take a xs ++ (u ++ drop change.line_end xs)) (t || ends_with_newline s))
        p
    ∙ ap
        (λ u.
          join_lines (take a xs ++ (take (suc k) (drop a xs) ++ drop change.line_end xs)) (t || u))
        q
    ∙ ap (λ n. join_lines (take a xs ++ (take (suc k) (drop a xs) ++ drop n xs)) (t || false))
        {y = a + suc k} (omega arith)
    ∙ ap (λ u. join_lines u (t || false)) (rejoin a (suc k) xs)
    ∙ ap (join_lines xs) {y = t} (ground arith)
    ∙ join_lines-make_document original true
