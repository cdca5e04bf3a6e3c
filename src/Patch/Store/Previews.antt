-- ===== src/Patch/Store/Previews.antt =====
-- The text of a preview's metadata is read back, and what the status of a preview is read as.
use ai_editor.Prelude.{
  ℕ, ◌<◌, ◌^◌, ◌≡◌, refl, ap, ◌∙◌, Bool, true, false, not, List, [], ◌∷◌, ◌++◌, some, arith, ◌==◌,
  if◌then◌else◌, append-nil, append_assoc,
}
use ai_editor.Text.{Bytes, codes, str_eq, is_digit}
use ai_editor.Text.Decimal.{to_decimal}
use ai_editor.Text.Decimal.Digits.{All, All-imp, All-to_decimal, stoull_text-to_decimal}
use ai_editor.Patch.Store.{
  PreviewRecord, line, getlines, preview_text, preview_of, number_or_zero, created_of, or_zero,
}

abbrev no_newline : ℕ → Bool
no_newline c = not (c == 10)

abbrev pub OneLine : Bytes → Type 0
OneLine = All no_newline

getlines-line :
    (text rest open_line : Bytes)
    → OneLine text
    → getlines open_line (line text rest) ≡ (open_line ++ text) ∷ getlines [] rest
unfolding getlines
getlines-line [] rest open_line all = rw (append-nil open_line) refl
getlines-line (c ∷ text) rest open_line (e, all) =
    let more = getlines-line text rest (open_line ++ (c ∷ [])) all in
    let joined = append_assoc open_line (c ∷ []) text in
    let differs : (c == 10) ≡ false = ground arith in
    rw (differs, getlines) (more ∙ ap (λ l. l ∷ getlines [] rest) joined)

-- A line more in front.
lines_of :
    (text rest : Bytes) (lines : List Bytes)
    → OneLine text
    → getlines [] rest ≡ lines
    → getlines [] (line text rest) ≡ text ∷ lines
lines_of text rest lines all h = getlines-line text rest [] all ∙ ap (λ ls. text ∷ ls) h

OneLine-flag : (b : Bool) → OneLine (if b then codes "1" else codes "0")
OneLine-flag true = (refl, tt)
OneLine-flag false = (refl, tt)

flag_read : (b : Bool) → str_eq (if b then codes "1" else codes "0") (codes "1") ≡ b
unfolding str_eq
flag_read true = refl
flag_read false = refl

OneLine-to_decimal : (n : ℕ) → OneLine (to_decimal n)
OneLine-to_decimal n =
    All-imp is_digit no_newline (to_decimal n) (λ c h. ground arith) (All-to_decimal n)

number_read : (n : ℕ) → n < 2 ^ 64 → number_or_zero (to_decimal n) ≡ n
unfolding number_or_zero
number_read n h = ap or_zero (stoull_text-to_decimal n h)

-- A preview's record is read back from the text that is saved of it, if none of its texts has a
-- newline and its time is a 64-bit number.
pub preview_of-preview_text :
    (rec : PreviewRecord)
    → OneLine rec.preview_id
    → OneLine rec.path
    → OneLine rec.current_mtime
    → OneLine rec.current_hash
    → OneLine rec.new_content_hash
    → OneLine rec.encoding
    → OneLine rec.eol
    → rec.created_at_ms < 2 ^ 64
    → preview_of (getlines [] (preview_text rec)) ≡ some rec
unfolding preview_text preview_of created_of
preview_of-preview_text rec a b c d e f g n =
    let flag = if rec.bom then codes "1" else codes "0" in
    let lines = lines_of rec.preview_id _ _ a (
      lines_of rec.path _ _ b (
        lines_of rec.current_mtime _ _ c (
          lines_of rec.current_hash _ _ d (
            lines_of rec.new_content_hash _ _ e (
              lines_of rec.encoding _ _ f (
                lines_of flag _ _ (OneLine-flag rec.bom) (
                  lines_of rec.eol _ _ g (
                    lines_of (to_decimal rec.created_at_ms) [] []
                      (OneLine-to_decimal rec.created_at_ms) (unfold getlines in refl))))))))) in
    ap preview_of lines ∙ rw (flag_read rec.bom, number_read rec.created_at_ms n) refl
