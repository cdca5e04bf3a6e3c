-- ===== src/Session/Store.antt =====
-- session_service.cpp: where a session's state and its staged changes are kept, and how they are
-- read and written.
pub mod Keeps
use ai_editor.Prelude.{
  ℕ, zero, suc, ◌+◌, ◌-◌, Bool, true, false, ◌||◌, List, [], ◌∷◌, ◌++◌, length, map, if◌then◌else◌,
}
use ai_editor.Text.{Bytes, codes, str_eq, is_empty}
use ai_editor.Text.Decimal.{to_decimal, integral_to_string}
use ai_editor.Hash.{fnv1a64, hex64, content_hash}
use ai_editor.Outcome.{Outcome, ok, err}
use ai_editor.Path.{join_path}
use ai_editor.Document.{TextDocument, make_document_from_content}
use ai_editor.Disk.Action.{Exec, World, pure, fail, lift, ◌>>=◌}
use ai_editor.Disk.{
  bridge_dir, Host, slurp_text, write_text, create_directories, current_timestamp_ms,
  last_write_time, resolve, file_exists, files_in,
}
use ai_editor.Session.Types.{StagedChange}
use ai_editor.Session.Codec.{
  SessionMeta, serialize_meta, deserialize_meta, serialize_change, deserialize_change,
}

pub record ChangeEntry : Type 0 where
  pub meta_path : Bytes
  pub change : StagedChange

pub record FileFingerprint : Type 0 where
  pub exists : Bool
  pub mtime : Bytes
  pub hash : Bytes
  pub content : Bytes

zeros : ℕ → Bytes
zeros zero = []
zeros (suc n) = b'0' ∷ zeros n

-- `std::setw(4) << std::setfill('0') << n`
unfoldable pub zero_padded : ℕ → Bytes
unfolding zeros to_decimal
zero_padded n = zeros (4 - length (to_decimal n)) ++ to_decimal n

-- `session_id.empty() ? fallback : session_id`, as `load_meta` does it
abbrev pub named : Bytes → SessionMeta → SessionMeta
named session_id meta =
    if is_empty meta.session_id then record meta { session_id = session_id } else meta

-- The document of a file that is there, from what reading it gave.
abbrev open_document : Outcome Bytes × World → Outcome TextDocument × World
open_document (ok content, w) = (ok (make_document_from_content content true), w)
open_document (err e, w) = (err (codes "failed to open file"), w)

module _ (host : Host) where
  unfoldable pub sessions_dir : Bytes
  unfolding join_path bridge_dir
  sessions_dir = join_path (bridge_dir host) (codes "sessions")

  -- The id is put in the path as it is, as in the source; what ".." in it then means is the disk's.
  unfoldable pub session_dir : Bytes → Bytes
  unfolding join_path sessions_dir
  session_dir session_id = join_path sessions_dir session_id

  unfoldable pub session_meta_path : Bytes → Bytes
  unfolding join_path session_dir
  session_meta_path session_id = join_path (session_dir session_id) (codes "session.json")

  unfoldable pub session_changes_dir : Bytes → Bytes
  unfolding join_path session_dir
  session_changes_dir session_id = join_path (session_dir session_id) (codes "changes")

  unfoldable pub session_snapshot_path : Bytes → Bytes
  unfolding join_path session_dir
  session_snapshot_path session_id = join_path (session_dir session_id) (codes "snapshot.json")

  unfoldable pub make_change_id : Bytes → Bytes → Bytes → Exec Bytes
  unfolding current_timestamp_ms to_decimal hex64 fnv1a64
  make_change_id session_id operation path = do
    now ← current_timestamp_ms host
    pure (
        to_decimal now
        ++ (codes "-"
            ++ hex64 (fnv1a64 (session_id ++ (codes "|" ++ (operation ++ (codes "|" ++ path)))))))

  unfoldable pub ensure_session_dirs : Bytes → Exec (Unit {0})
  unfolding create_directories session_changes_dir
  ensure_session_dirs session_id = create_directories host (session_changes_dir session_id)

  unfoldable pub load_meta : Bytes → Exec SessionMeta
  unfolding slurp_text deserialize_meta
  load_meta session_id = do
    raw ← slurp_text host (session_meta_path session_id)
    pure (named session_id (deserialize_meta raw))

  unfoldable pub save_meta : SessionMeta → Exec (Unit {0})
  unfolding write_text serialize_meta
  save_meta meta = write_text host (session_meta_path meta.session_id) (serialize_meta meta)

  unfoldable pub change_files : Bytes → World → List Bytes
  unfolding files_in session_changes_dir
  change_files session_id w = files_in host (session_changes_dir session_id) (codes ".json") w

  -- The loop of `load_change_entries` over the paths.
  read_entries : List Bytes → Exec (List ChangeEntry)
  unfolding slurp_text deserialize_change
  read_entries [] = pure []
  read_entries (path ∷ paths) = do
    raw ← slurp_text host path
    entries ← read_entries paths
    pure (record { meta_path = path; change = deserialize_change raw } ∷ entries)

  unfoldable pub load_change_entries : Bytes → Exec (List ChangeEntry)
  unfolding change_files read_entries
  load_change_entries session_id w = read_entries (change_files session_id w) w

  -- The same loop, which keeps the changes alone.
  unfoldable pub load_changes : Bytes → Exec (List StagedChange)
  unfolding load_change_entries
  load_changes session_id = do
    entries ← load_change_entries session_id
    pure (map (λ entry. entry.change) entries)

  unfoldable pub load_document : Bytes → Exec TextDocument
  unfolding resolve file_exists slurp_text
  load_document path w = elim (resolve host path) [
    | err e ↦ (err e, w)
    | ok resolved ↦
        if file_exists host resolved.absolute_path w
        then open_document (slurp_text host resolved.absolute_path w)
        else (ok (make_document_from_content [] false), w)
  ]

  -- The time of a file as a text, or "missing".
  mtime_text : Bytes → Bool → Exec Bytes
  unfolding last_write_time integral_to_string
  mtime_text path true = do time ← last_write_time host path; pure (integral_to_string time)
  mtime_text path false = pure (codes "missing")

  unfoldable pub fingerprint_file : Bytes → Exec FileFingerprint
  unfolding load_document resolve file_exists mtime_text content_hash
  fingerprint_file path = do
    doc ← load_document path
    resolved ← lift (resolve host path)
    found ← λ w. (ok (file_exists host resolved.absolute_path w), w)
    mtime ← mtime_text resolved.absolute_path found
    pure (record {
      exists = doc.exists;
      mtime = mtime;
      hash = content_hash doc.content;
      content = doc.content;
    })

  unfoldable pub save_change : Bytes → StagedChange → Exec (Unit {0})
  unfolding change_files write_text join_path session_changes_dir serialize_change zero_padded
  save_change session_id change w =
      let ordinal = length (change_files session_id w) + 1 in
      write_text host
        (join_path (session_changes_dir session_id)
          (zero_padded ordinal ++ (codes "-" ++ (change.change_id ++ codes ".json"))))
        (serialize_change change) w

  unfoldable pub session_exists : Bytes → World → Bool
  unfolding file_exists session_meta_path
  session_exists session_id w = file_exists host (session_meta_path session_id) w

  unfoldable pub ensure_active_session : Bytes → Exec SessionMeta
  unfolding load_meta
  ensure_active_session session_id = do
    meta ← load_meta session_id
    if str_eq meta.state (codes "committed") || str_eq meta.state (codes "aborted")
        then fail (codes "session is not active")
        else pure meta
