-- ===== src/Patch/Encoding/Lossless.antt =====
-- Reading a file and writing it back.
use ai_editor.Prelude.{
  ℕ, ◌≢◌, ◌≡◌, refl, sym, ap, ◌∙◌, true, [], ◌∷◌, ◌++◌, drop, length, arith, if◌then◌else◌,
  take-append-drop,
}
use ai_editor.Text.{Bytes, codes, str_eq, starts_with}
use ai_editor.Text.Find.{starts_with-take}
use ai_editor.Document.{strip_cr}
use ai_editor.Patch.Encoding.{crlf, with_eol}

marked : (raw mark : Bytes) → starts_with raw mark ≡ true → raw ≡ mark ++ drop (length mark) raw
marked raw mark h =
    sym (take-append-drop (length mark) raw)
    ∙ ap (λ t. t ++ drop (length mark) raw) (starts_with-take raw mark h)

-- No byte of the text is a carriage return.
abbrev pub NoCr : Bytes → Type 0
NoCr [] = Unit
NoCr (c ∷ text) = (c ≢ 13) × NoCr text

-- Every carriage return has a newline right behind it, every newline a carriage return right before.
pub data IsCrlf : Bytes → Type 0 where
  ends : IsCrlf []
  line_end : {text : Bytes} → IsCrlf text → IsCrlf (13 ∷ 10 ∷ text)
  other : {c : ℕ} {text : Bytes} → c ≢ 13 → c ≢ 10 → IsCrlf text → IsCrlf (c ∷ text)

-- The line ends of a text are all of a kind.
abbrev pub Uniform : Bytes → Bytes → Type 0
Uniform eol text = if str_eq eol (codes "crlf") then IsCrlf text else NoCr text

strip_cr-strip_cr : (text : Bytes) → strip_cr (strip_cr text) ≡ strip_cr text
unfolding strip_cr
strip_cr-strip_cr [] = refl
strip_cr-strip_cr (c ∷ text) = ground (arith, strip_cr-strip_cr text)

strip_cr-crlf : (text : Bytes) → strip_cr (crlf text) ≡ strip_cr text
unfolding strip_cr crlf
strip_cr-crlf [] = refl
strip_cr-crlf (c ∷ text) = ground (arith, strip_cr-crlf text)

strip_cr-with_eol : (eol text : Bytes) → strip_cr (with_eol eol text) ≡ strip_cr text
unfolding with_eol
strip_cr-with_eol eol text = ground (arith, strip_cr-strip_cr text, strip_cr-crlf (strip_cr text))

-- Writing a text with line ends of one kind leaves its text without carriage returns as it was, and
-- writing it once more changes nothing.
pub with_eol_lem :
    (eol text : Bytes)
    → (strip_cr (with_eol eol text) ≡ strip_cr text)
      × (with_eol eol (with_eol eol text) ≡ with_eol eol text)
with_eol_lem eol text =
    let same = strip_cr-with_eol eol text in
    (same, unfold with_eol in ap (λ t. if str_eq eol (codes "crlf") then crlf t else t) same)
