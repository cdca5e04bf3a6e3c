-- ===== src/Patch/Encoding/Keeps.antt =====
-- Reading a text file leaves the disk's files alone.
use ai_editor.Prelude.{ap, ◌∙◌, ◌≡◌, refl, Bool, Option, none, some, ap}
use ai_editor.Text.{Bytes}
use ai_editor.Disk.{Host, read_file}
use ai_editor.Disk.Action.{World}
use ai_editor.Disk.Files.{find_file}
use ai_editor.Disk.Keeps.{
  Keeps, Keeps-bind, Keeps-pure, Keeps-fail, Keeps-lift, Keeps-if, Keeps-exists_or_throw,
  Keeps-read_file, Keeps-last_write_time,
}
use ai_editor.Patch.Encoding.{
  read_text_file, read_existing, opened, FileState, decode, missing_state,
}

module _ (host : Host) (q : Bytes) where
  opened-files : (r : Option Bytes × World) → (opened r).1.files ≡ r.1.files
  opened-files (none, w) = refl
  opened-files (some raw, w) = refl

  Keeps-opened : (path : Bytes) → Keeps q (λ w. opened (read_file host path w))
  Keeps-opened path = record {
    at = λ w.
        ap (λ files. find_file q files) (opened-files (read_file host path w))
        ∙ Keeps-read_file host q path w;
  }

  Keeps-read_existing : (path : Bytes) → Keeps q (read_existing host path)
  unfolding read_existing
  Keeps-read_existing path = Keeps-bind (Keeps-opened path) (λ raw.
      Keeps-bind (Keeps-lift {r = decode raw}) (λ (state : FileState).
        Keeps-bind (Keeps-last_write_time host q path) (λ time. Keeps-pure)))

  pub Keeps-read_text_file :
      (path : Bytes) (allow_missing : Bool) → Keeps q (read_text_file host path allow_missing)
  unfolding read_text_file
  Keeps-read_text_file path allow_missing = Keeps-bind (Keeps-exists_or_throw host q path) (λ there.
      Keeps-if there (Keeps-read_existing path)
        (Keeps-if allow_missing (Keeps-pure {a = missing_state}) Keeps-fail))
