-- ===== src/Patch/Store.antt =====
-- patch_service.cpp: where backups and previews are kept, and how their records are written and read.
pub mod Keeps
pub mod Sure
pub mod Previews
use ai_editor.Prelude.{
  ℕ, zero, suc, Bool, true, false, not, ◌&&◌, ◌||◌, List, [], ◌∷◌, ◌++◌, Option, none, some, length,
  ◌==◌, if◌then◌else◌,
}
use ai_editor.Text.{Bytes, codes, str_eq, is_empty, is_alnum}
use ai_editor.Text.Decimal.{to_decimal, stoull_text}
use ai_editor.Hash.{fnv1a64, hex64}
use ai_editor.Outcome.{Outcome, ok, err}
use ai_editor.Path.{join_path}
use ai_editor.Disk.Action.{Exec, World, pure, fail, attempt, continue, ◌>>=◌, ◌>>◌}
use ai_editor.Disk.{
  Host, read_file, write_unchecked, remove_path, create_directories, current_timestamp_ms,
  bridge_dir,
}

pub record PreviewRecord : Type 0 where
  pub preview_id : Bytes
  pub path : Bytes
  pub current_mtime : Bytes
  pub current_hash : Bytes
  pub new_content_hash : Bytes
  pub encoding : Bytes
  pub bom : Bool
  pub eol : Bytes
  pub created_at_ms : ℕ

pub record PreviewStatusRecord : Type 0 where
  pub state : Bytes
  pub recorded_at_ms : ℕ

pub record BackupRecord : Type 0 where
  pub existed : Bool

-- The numbers that the program takes from its environment: `history_rotate_bytes()` and the others.
pub record Settings : Type 0 where
  pub history_rotate_bytes : ℕ
  pub history_rotate_keep : ℕ
  pub backup_keep_count : ℕ
  pub preview_keep_count : ℕ
  pub preview_status_keep_count : ℕ
  pub preview_ttl_ms : ℕ

-- A line and its end.
abbrev line : Bytes → Bytes → Bytes
line text rest = text ++ (10 ∷ rest)

-- `std::getline` until the end, with the line that is open.
unfoldable pub getlines : Bytes → Bytes → List Bytes
getlines open_line [] = if is_empty open_line then [] else open_line ∷ []
getlines open_line (c ∷ text) =
    let rest = getlines (if c == 10 then [] else open_line ++ (c ∷ [])) text in
    if c == 10 then open_line ∷ rest else rest

-- The first line and what is behind it: `std::getline` once.
unfoldable pub first_line : List Bytes → Bytes
first_line [] = []
first_line (l ∷ lines) = l

unfoldable pub second_line : List Bytes → Bytes
unfolding first_line
second_line [] = []
second_line (l ∷ lines) = first_line lines

safe_char : ℕ → ℕ
safe_char c = if is_alnum c || c == b'.' || c == b'-' || c == b'_' then c else b'_'

safe_chars : Bytes → Bytes
unfolding safe_char
safe_chars [] = []
safe_chars (c ∷ rel) = safe_char c ∷ safe_chars rel

unfoldable pub sanitize_rel_path : Bytes → Bytes
unfolding safe_chars
sanitize_rel_path rel = if is_empty (safe_chars rel) then codes "root" else safe_chars rel

abbrev or_zero : Option ℕ → ℕ
or_zero none = 0
or_zero (some n) = n

-- The number of a text, or 0 where `std::stoull` throws.
number_or_zero : Bytes → ℕ
unfolding stoull_text
number_or_zero text = or_zero (stoull_text text)

-- The text of a preview's metadata.
unfoldable pub preview_text : PreviewRecord → Bytes
unfolding to_decimal
preview_text rec = line rec.preview_id (
    line rec.path (
      line rec.current_mtime (
        line rec.current_hash (
          line rec.new_content_hash (
            line rec.encoding (
              line (if rec.bom then codes "1" else codes "0")
                (line rec.eol (line (to_decimal rec.created_at_ms) []))))))))

-- `std::stoull(lines[8])` if there are nine lines
created_of : List Bytes → ℕ
unfolding number_or_zero
created_of [] = 0
created_of (l ∷ lines) = number_or_zero l

-- The record that the lines hold; none if there are fewer than eight.
unfoldable pub preview_of : List Bytes → Option PreviewRecord
unfolding created_of
preview_of (a ∷ b ∷ c ∷ d ∷ e ∷ f ∷ g ∷ h ∷ more) = some (record {
  preview_id = a;
  path = b;
  current_mtime = c;
  current_hash = d;
  new_content_hash = e;
  encoding = f;
  bom = str_eq g (codes "1");
  eol = h;
  created_at_ms = created_of more;
})
preview_of lines = none

-- What `load_preview_status` reads: none if the state is empty.
unfoldable pub status_of : Bytes → Option PreviewStatusRecord
unfolding getlines first_line second_line number_or_zero
status_of text =
    let lines = getlines [] text in
    if is_empty (first_line lines)
    then none
    else some
        (record { state = first_line lines; recorded_at_ms = number_or_zero (second_line lines) })

module _ (host : Host) where
  unfoldable pub backups_dir : Bytes
  unfolding join_path bridge_dir
  backups_dir = join_path (bridge_dir host) (codes "backups")

  unfoldable pub previews_dir : Bytes
  unfolding join_path bridge_dir
  previews_dir = join_path (bridge_dir host) (codes "previews")

  unfoldable pub history_file : Bytes
  unfolding join_path bridge_dir
  history_file = join_path (bridge_dir host) (codes "history.log")

  unfoldable pub ensure_bridge_dirs : Exec (Unit {0})
  unfolding create_directories backups_dir previews_dir
  ensure_bridge_dirs = do create_directories host backups_dir; create_directories host previews_dir

  now_us : Exec ℕ
  now_us w = (ok (host.now_us w.step), record w { step = suc w.step })

  unfoldable pub make_backup_id : Bytes → Exec Bytes
  unfolding now_us to_decimal hex64 fnv1a64
  make_backup_id rel_path = do
    micros ← now_us
    pure (to_decimal micros ++ (codes "-" ++ hex64 (fnv1a64 rel_path)))

  unfoldable pub make_preview_id : Bytes → Bytes → Bytes → Exec Bytes
  unfolding now_us to_decimal hex64 fnv1a64
  make_preview_id rel_path current_hash new_hash = do
    micros ← now_us
    pure (
        to_decimal micros
        ++ (codes "-"
            ++ hex64
                (fnv1a64 (rel_path ++ (codes "|" ++ (current_hash ++ (codes "|" ++ new_hash)))))))

  unfoldable pub backup_file_path : Bytes → Bytes → Bytes
  unfolding join_path backups_dir sanitize_rel_path
  backup_file_path backup_id rel_path =
      join_path backups_dir
        (backup_id ++ (codes "-" ++ (sanitize_rel_path rel_path ++ codes ".bak")))

  unfoldable pub backup_meta_path : Bytes → Bytes → Bytes
  unfolding join_path backups_dir sanitize_rel_path
  backup_meta_path backup_id rel_path =
      join_path backups_dir
        (backup_id ++ (codes "-" ++ (sanitize_rel_path rel_path ++ codes ".meta")))

  unfoldable pub preview_meta_path : Bytes → Bytes
  unfolding join_path previews_dir
  preview_meta_path preview_id = join_path previews_dir (preview_id ++ codes ".meta")

  unfoldable pub preview_content_path : Bytes → Bytes
  unfolding join_path previews_dir
  preview_content_path preview_id = join_path previews_dir (preview_id ++ codes ".content")

  unfoldable pub preview_status_path : Bytes → Bytes
  unfolding join_path previews_dir
  preview_status_path preview_id = join_path previews_dir (preview_id ++ codes ".status")

  unfoldable pub remove_preview_content_and_meta : Bytes → Exec (Unit {0})
  unfolding remove_path preview_meta_path preview_content_path
  remove_preview_content_and_meta preview_id = do
    attempt (remove_path host (preview_meta_path preview_id))
    attempt (remove_path host (preview_content_path preview_id))

  -- `save_preview_status`; its callers do not look at the result.
  unfoldable pub save_preview_status : Bytes → Bytes → Exec (Unit {0})
  unfolding current_timestamp_ms write_unchecked preview_status_path to_decimal
  save_preview_status preview_id state = do
    now ← current_timestamp_ms host
    attempt (
        write_unchecked host (preview_status_path preview_id)
          (line state (line (to_decimal now) [])) (codes "failed to write preview status"))

  unfoldable pub load_preview_status : Bytes → World → Option PreviewStatusRecord × World
  unfolding read_file preview_status_path status_of
  load_preview_status preview_id w =
      let (text, w') = read_file host (preview_status_path preview_id) w in
      (elim text [ none ↦ none | some t ↦ status_of t ], w')

  -- The two files are opened one after the other, so the metadata is removed if the content's
  -- file is not opened.
  save_preview_content : Bytes → Bytes → Exec (Unit {0})
  unfolding write_unchecked preview_content_path remove_preview_content_and_meta
  save_preview_content preview_id new_content w =
      let (r, w') =
        write_unchecked host (preview_content_path preview_id) new_content
          (codes "failed to write preview content") w in
      elim r [
        | ok u ↦ (ok u, w')
        | err e ↦ (err e, (remove_preview_content_and_meta preview_id w').1)
      ]

  unfoldable pub save_preview_record : PreviewRecord → Bytes → Exec (Unit {0})
  unfolding remove_path preview_status_path write_unchecked preview_meta_path preview_text
      save_preview_content
  save_preview_record rec new_content = do
    attempt (remove_path host (preview_status_path rec.preview_id))
    write_unchecked host (preview_meta_path rec.preview_id) (preview_text rec)
        (codes "failed to write preview metadata")
    save_preview_content rec.preview_id new_content

  unfoldable pub save_backup_record : Bytes → Bytes → BackupRecord → Exec (Unit {0})
  unfolding write_unchecked backup_meta_path
  save_backup_record backup_id rel_path rec =
      write_unchecked host (backup_meta_path backup_id rel_path)
        (line (if rec.existed then codes "1" else codes "0") [])
        (codes "failed to write backup metadata")

  -- The record of a backup, as `patch_rollback` takes it: `existed` is true where none is read.
  unfoldable pub load_backup_record : Bytes → Bytes → World → BackupRecord × World
  unfolding read_file backup_meta_path getlines first_line
  load_backup_record backup_id rel_path w =
      let (text, w') = read_file host (backup_meta_path backup_id rel_path) w in
      (
        record {
          existed = elim text [
            | none ↦ true
            | some t ↦ not (str_eq (first_line (getlines [] t)) (codes "0"))
          ];
        },
        w',
      )
