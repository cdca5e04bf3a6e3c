-- ===== src/Patch/Encoding.antt =====
-- `read_text_file` and `encode_text`: the byte order mark, the line ends and the text of a file.
pub mod Lossless
pub mod Keeps
use ai_editor.Prelude.{
  ℕ, Bool, true, false, ◌&&◌, List, [], ◌∷◌, ◌++◌, Option, none, some, length, drop, ◌==◌,
  if◌then◌else◌,
}
use ai_editor.Text.{Bytes, codes, str_eq, starts_with}
use ai_editor.Text.Decimal.{ℤ}
use ai_editor.Text.Find.{contains}
use ai_editor.Hash.{content_hash}
use ai_editor.Outcome.{Outcome, ok, err}
use ai_editor.Document.{strip_cr}
use ai_editor.Disk.Action.{Exec, World, pure, fail, lift, continue, ◌>>=◌, ◌>>◌}
use ai_editor.Disk.{Host, read_file, last_write_time, exists_or_throw}

-- A file's state; the flags `ok` and `binary` and the error are the outcome.
pub record FileState : Type 0 where
  pub exists : Bool
  pub bom : Bool
  pub encoding : Bytes
  pub eol : Bytes
  pub mtime : Bytes
  pub hash : Bytes
  pub text : Bytes

abbrev pub utf8_mark : Bytes
utf8_mark = 239 ∷ 187 ∷ 191 ∷ []

abbrev pub utf16_mark : Bytes
utf16_mark = 255 ∷ 254 ∷ []

-- The mark that a file begins with: `encoding`, `bom` and `offset`.
pub record Mark : Type 0 where
  pub encoding : Bytes
  pub bom : Bool
  pub offset : ℕ

unfoldable pub mark_of : Bytes → Mark
mark_of raw =
    if starts_with raw utf8_mark
    then record { encoding = codes "utf-8"; bom = true; offset = 3 }
    else if starts_with raw utf16_mark
    then record { encoding = codes "utf-16le"; bom = true; offset = 2 }
    else record { encoding = codes "utf-8"; bom = false; offset = 0 }

unfoldable pub has_nul_after_bom : Bytes → ℕ → Bool
has_nul_after_bom raw offset = contains (drop offset raw) (0 ∷ [])

-- The state of a text file with these bytes, but for its time, which is read after them.
unfoldable pub decoded : Bytes → FileState
unfolding mark_of content_hash
decoded raw =
    let mark = mark_of raw in
    let text = drop mark.offset raw in
    record {
      exists = true;
      bom = mark.bom;
      encoding = mark.encoding;
      eol = if contains text (codes "\r\n") then codes "crlf" else codes "lf";
      mtime = [];
      hash = content_hash text;
      text = text;
    }

unfoldable pub decode : Bytes → Outcome FileState
unfolding decoded mark_of has_nul_after_bom
decode raw =
    if has_nul_after_bom raw (mark_of raw).offset
    then err (codes "binary file")
    else ok (decoded raw)

-- `FileState out;` for a file that is not there
unfoldable pub missing_state : FileState
unfolding content_hash
missing_state = record {
  exists = false;
  bom = false;
  encoding = codes "utf-8";
  eol = codes "lf";
  mtime = [];
  hash = content_hash [];
  text = [];
}

-- Every newline with a carriage return before it.
unfoldable pub crlf : Bytes → Bytes
crlf [] = []
crlf (c ∷ text) = let rest = crlf text in if c == 10 then 13 ∷ 10 ∷ rest else c ∷ rest

-- `converted` of `encode_text`
unfoldable pub with_eol : Bytes → Bytes → Bytes
unfolding crlf
with_eol eol text = if str_eq eol (codes "crlf") then crlf (strip_cr text) else strip_cr text

unfoldable pub mark_bytes : Bool → Bytes → Bytes
mark_bytes bom encoding =
    if bom && str_eq encoding (codes "utf-8")
    then utf8_mark
    else if bom && str_eq encoding (codes "utf-16le")
    then utf16_mark
    else []

unfoldable pub encode_text : Bytes → Bytes → Bool → Bytes → Bytes
unfolding mark_bytes with_eol
encode_text text eol bom encoding = mark_bytes bom encoding ++ with_eol eol text

-- `std::ifstream` on a file that is there
abbrev opened : Option Bytes × World → Outcome Bytes × World
opened (none, w) = (err (codes "failed to open file"), w)
opened (some raw, w) = (ok raw, w)

module _ (host : Host) where
  read_existing : Bytes → Exec FileState
  unfolding read_file decode last_write_time
  read_existing path = do
    raw ← λ w. opened (read_file host path w)
    state ← lift (decode raw)
    time ← last_write_time host path
    pure (record state { mtime = host.iso_file_time time })

  unfoldable pub read_text_file : Bytes → Bool → Exec FileState
  unfolding read_existing exists_or_throw missing_state
  read_text_file path allow_missing = do
    there ← exists_or_throw host path
    if there
        then read_existing path
        else if allow_missing
        then pure missing_state
        else fail (codes "path not found")
