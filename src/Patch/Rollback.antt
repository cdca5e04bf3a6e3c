-- ===== src/Patch/Rollback.antt =====
-- patch_service.cpp: `patch_rollback` and `history_list`.
use ai_editor.Prelude.{
  ℕ, true, not, ◌&&◌, List, [], ◌∷◌, ◌++◌, Option, none, some, take, if◌then◌else◌,
}
use ai_editor.Text.{Bytes, codes, str_eq, str_lt, is_empty}
use ai_editor.Outcome.{Outcome, ok, err}
use ai_editor.Path.{ResolveResult}
use ai_editor.Disk.Action.{Exec, World, pure, lift, require, ◌>>=◌, ◌>>◌}
use ai_editor.Disk.{
  Host, read_file, write_unchecked, remove_path, create_directories, file_exists, exists_or_throw,
  resolve,
}
use ai_editor.Patch.Encoding.{read_text_file}
use ai_editor.Patch.History.{HistoryItem, parse_history_line}
use ai_editor.Patch.Store.{Settings, BackupRecord, getlines, backup_file_path, load_backup_record}
use ai_editor.Patch.Cleanup.{append_history, cleanup_old_backups, history_files}
use ai_editor.Patch.Preview.{resolve_allowed}
use ai_editor.Patch.Apply.{Caller, replace_file}

pub record PatchRollbackResult : Type 0 where
  pub path : Bytes
  pub backup_id : Bytes
  pub current_mtime : Bytes
  pub current_hash : Bytes

abbrev rollback_suffix : Bytes
rollback_suffix = codes ".bridge.rollback.tmp"

-- `std::ifstream` on the backup
abbrev opened_backup : Option Bytes × World → Outcome Bytes × World
opened_backup (none, w) = (err (codes "failed to open backup"), w)
opened_backup (some bytes, w) = (ok bytes, w)

-- The newest first. `std::sort` leaves open how items of the same time are ordered.
insert_item : HistoryItem → List HistoryItem → List HistoryItem
insert_item item [] = item ∷ []
insert_item item (i ∷ items) =
    let later = insert_item item items in
    if str_lt item.timestamp i.timestamp then i ∷ later else item ∷ i ∷ items

unfoldable pub sort_items : List HistoryItem → List HistoryItem
unfolding insert_item
sort_items [] = []
sort_items (item ∷ items) = insert_item item (sort_items items)

-- The items of the lines, for a path or for all.
unfoldable pub items_of : Bytes → List Bytes → List HistoryItem
unfolding parse_history_line
items_of normalized [] = []
items_of normalized (l ∷ lines) =
    let rest = items_of normalized lines in
    let item = parse_history_line l in
    if is_empty item.timestamp
    then rest
    else if not (is_empty normalized) && not (str_eq item.path normalized)
    then rest
    else item ∷ rest

module _ (host : Host) (settings : Settings) where
  -- The bytes of the backup take the place of the target.
  unfoldable pub restore_bytes : Bytes → Bytes → Exec (Unit {0})
  unfolding create_directories write_unchecked file_exists replace_file
  restore_bytes target bytes = do
    create_directories host target
    write_unchecked host (target ++ rollback_suffix) bytes (codes "failed to open temp file")
    λ w. replace_file host settings (target ++ rollback_suffix) target (file_exists host target w) w

  unfoldable pub restore : Bytes → BackupRecord → Bytes → Exec (Unit {0})
  unfolding remove_path restore_bytes
  restore target rec bytes =
      if rec.existed then restore_bytes target bytes else remove_path host target

  -- The part behind the checks.
  unfoldable pub roll_back : ResolveResult → Bytes → Caller → Exec PatchRollbackResult
  unfolding load_backup_record read_file backup_file_path restore append_history cleanup_old_backups
      read_text_file
  roll_back resolved backup_id caller = do
    let path = resolved.normalized_relative_path
    rec ← λ w. let (rec, w') = load_backup_record host backup_id path w in (ok rec, w')
    bytes ← λ w. opened_backup (read_file host (backup_file_path host backup_id path) w)
    restore resolved.absolute_path rec bytes
    append_history host settings (codes "patch.rollback") path backup_id caller.client_id
        caller.session_id caller.request_id
    cleanup_old_backups host settings.backup_keep_count
    state ← read_text_file host resolved.absolute_path true
    pure (record {
      path = path;
      backup_id = backup_id;
      current_mtime = state.mtime;
      current_hash = state.hash;
    })

  unfoldable pub patch_rollback : Bytes → Bytes → Caller → Exec PatchRollbackResult
  unfolding resolve_allowed exists_or_throw backup_file_path roll_back
  patch_rollback requested_path backup_id caller = do
    resolved ← lift (resolve_allowed host requested_path)
    there ← exists_or_throw host (backup_file_path host backup_id resolved.normalized_relative_path)
    require there (codes "backup not found")
    roll_back resolved backup_id caller

  -- The items of the files, one file after the other; a file that is not opened has none.
  read_items : Bytes → List Bytes → World → List HistoryItem × World
  unfolding read_file items_of getlines
  read_items normalized [] w = ([], w)
  read_items normalized (file ∷ files) w =
      let (text, w1) = read_file host file w in
      let (rest, w2) = read_items normalized files w1 in
      (elim text [ none ↦ rest | some t ↦ items_of normalized (getlines [] t) ++ rest ], w2)

  unfoldable pub requested : Bytes → Outcome Bytes
  unfolding resolve
  requested requested_path =
      if is_empty requested_path then ok [] else elim (resolve host requested_path) [
        | err e ↦ err e
        | ok resolved ↦ ok resolved.normalized_relative_path
      ]

  unfoldable pub history_list : Bytes → ℕ → Exec (List HistoryItem)
  unfolding requested history_files read_items sort_items
  history_list requested_path limit = do
    normalized ← lift (requested requested_path)
    λ w.
        let (items, w') = read_items normalized (history_files host settings w) w in
        (ok (take limit (sort_items items)), w')
