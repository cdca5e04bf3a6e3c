-- ===== src/Patch/Cleanup.antt =====
-- patch_service.cpp: the history file and its rotation, and what is kept of backups and previews.
pub mod Keeps
use ai_editor.Prelude.{
  ℕ, zero, suc, ◌+◌, ◌-◌, Bool, true, false, not, ◌&&◌, ◌||◌, List, [], ◌∷◌, ◌++◌, Option, none,
  some, length, take, drop, ltb, leb, ◌==◌, if◌then◌else◌,
}
use ai_editor.Text.{Bytes, codes, str_eq, is_empty}
use ai_editor.Text.Find.{rfind}
use ai_editor.Text.Decimal.{to_decimal}
use ai_editor.Disk.Action.{Exec, World, pure, attempt, continue, ◌>>=◌, ◌>>◌}
use ai_editor.Disk.{
  Host, append_text, remove_path, rename_path, create_directories, current_timestamp, bridge_dir,
  content_of, file_exists, newest_first,
}
use ai_editor.Outcome.{Outcome, ok, err}
use ai_editor.Patch.History.{HistoryItem, history_line}
use ai_editor.Patch.Store.{
  Settings, backups_dir, previews_dir, history_file, save_preview_status,
  remove_preview_content_and_meta,
}

-- A path with its last extension replaced; it has one here.
unfoldable pub stem_path : Bytes → Bytes
unfolding rfind
stem_path path = elim (rfind path (codes ".") (length path)) [ none ↦ path | some k ↦ take k path ]

-- `stem()` of a path: its last name without the extension.
unfoldable pub stem : Bytes → Bytes
unfolding rfind stem_path
stem path = elim (rfind path (codes "/") (length path)) [
  | none ↦ stem_path path
  | some k ↦ stem_path (drop (suc k) path)
]

-- `path.string() + "." + std::to_string(i)`
abbrev numbered : Bytes → ℕ → Bytes
numbered path i = path ++ (codes "." ++ to_decimal i)

module _ (host : Host) where
  -- The loop of the rotation, from `i` down to 1.
  rotate_loop : Bytes → ℕ → ℕ → Exec (Unit {0})
  unfolding remove_path rename_path file_exists
  rotate_loop path keep zero w = (ok tt, w)
  rotate_loop path keep (suc j) w =
      let i = suc j in
      let (u, w') =
        if i == keep
        then attempt (remove_path host (numbered path i)) w
        else if file_exists host (numbered path i) w
        then attempt (rename_path host (numbered path i) (numbered path (i + 1))) w
        else (ok tt, w) in
      rotate_loop path keep j w'

  unfoldable pub rotate_file_if_needed : Bytes → ℕ → ℕ → Exec (Unit {0})
  unfolding file_exists content_of rotate_loop rename_path
  rotate_file_if_needed path max_bytes keep w =
      if max_bytes == 0 || keep == 0
      then (ok tt, w)
      else if not (file_exists host path w)
      then (ok tt, w)
      else if ltb (length (content_of path w)) max_bytes
      then (ok tt, w)
      else attempt (rename_path host path (numbered path 1)) (rotate_loop path keep keep w).1

  unfoldable pub append_history :
      Settings → Bytes → Bytes → Bytes → Bytes → Bytes → Bytes → Exec (Unit {0})
  unfolding create_directories bridge_dir rotate_file_if_needed history_file current_timestamp
      append_text history_line
  append_history settings method rel_path backup_id client_id session_id request_id = do
    attempt (create_directories host (bridge_dir host))
    rotate_file_if_needed (history_file host) settings.history_rotate_bytes
        settings.history_rotate_keep
    now ← current_timestamp host
    append_text host (history_file host) (
        history_line (record {
          timestamp = now;
          method = method;
          path = rel_path;
          backup_id = backup_id;
          client_id = client_id;
          session_id = session_id;
          request_id = request_id;
        })
        ++ codes "\n")

  -- The rotated files that are there, from `.i` on, `n` of them.
  rotated_files : ℕ → ℕ → World → List Bytes
  unfolding history_file file_exists
  rotated_files zero i w = []
  rotated_files (suc n) i w =
      let rest = rotated_files n (suc i) w in
      if file_exists host (numbered (history_file host) i) w
      then numbered (history_file host) i ∷ rest
      else rest

  unfoldable pub history_files : Settings → World → List Bytes
  unfolding history_file file_exists rotated_files
  history_files settings w =
      let rotated = rotated_files settings.history_rotate_keep 1 w in
      if file_exists host (history_file host) w then history_file host ∷ rotated else rotated

  -- The loop that removes files, with what it does for each.
  unfoldable pub each : (Bytes → Exec (Unit {0})) → List Bytes → Exec (Unit {0})
  each action [] = pure tt
  each action (path ∷ paths) = attempt (action path) >> each action paths

  remove_backup : Bytes → Exec (Unit {0})
  unfolding remove_path stem_path
  remove_backup path = do
    attempt (remove_path host path)
    attempt (remove_path host (stem_path path ++ codes ".meta"))

  unfoldable pub cleanup_old_backups : ℕ → Exec (Unit {0})
  unfolding backups_dir each remove_backup newest_first
  cleanup_old_backups keep w =
      if keep == 0
      then (ok tt, w)
      else each remove_backup (drop keep (newest_first host (backups_dir host) (codes ".bak") w)) w

  unfoldable pub cleanup_old_preview_statuses : ℕ → Exec (Unit {0})
  unfolding previews_dir each remove_path newest_first
  cleanup_old_preview_statuses keep w =
      if keep == 0
      then (ok tt, w)
      else each (remove_path host)
          (drop keep (newest_first host (previews_dir host) (codes ".status") w)) w

  evict_preview : Bytes → Exec (Unit {0})
  unfolding save_preview_status remove_preview_content_and_meta stem
  evict_preview path = do
    save_preview_status host (stem path) (codes "evicted")
    remove_preview_content_and_meta host (stem path)

  -- With nothing to evict the statuses are left alone too.
  unfoldable pub cleanup_old_previews : Settings → Exec (Unit {0})
  unfolding previews_dir each evict_preview cleanup_old_preview_statuses newest_first
  cleanup_old_previews settings w =
      let keep = settings.preview_keep_count in
      let metas = newest_first host (previews_dir host) (codes ".meta") w in
      if keep == 0
      then (ok tt, w)
      else if leb (length metas) keep
      then (ok tt, w)
      else (each evict_preview (drop keep metas)
            >> cleanup_old_preview_statuses settings.preview_status_keep_count)
          w
