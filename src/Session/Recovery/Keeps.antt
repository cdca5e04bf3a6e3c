-- ===== src/Session/Recovery/Keeps.antt =====
-- Checking, recovering and rebasing a session leave the workspace's own files alone.
use ai_editor.Prelude.{if◌then◌else◌, List, [], ◌∷◌, map}
use ai_editor.Text.{Bytes, codes, is_empty}
use ai_editor.Disk.{Host, bridge_dir}
use ai_editor.Disk.Action.{World}
use ai_editor.Disk.Keeps.{
  Keeps, FileKept, FileKept-bind, Keeps-bind, Keeps-bind_with, Keeps-pure, Keeps-fail, Keeps-if,
  Keeps-write_text,
}
use ai_editor.Disk.Under.{Under, AllUnder, Under-apart}
use ai_editor.Session.Lifecycle.Keeps.{Keeps-enter_state}
use ai_editor.Session.Store.Keeps.{
  Apart, Relative, StoredRelative, Keeps-load_meta, Keeps-fingerprint_file, Keeps-load_changes,
  Keeps-ensure_active_session, ensure_active_session-loaded, Keeps-load_change_entries,
  load_change_entries-AllUnder,
}
use ai_editor.Session.Recovery.{
  check_files, FileChanges, recovery_check, session_recover, RecoveryCheckFile, rebase_entry,
  rebase_entries, recovery_rebase, group_changes, ChangeEntry, needs_rebase, serialize_change,
  insert_new,
}

module _ (host : Host) (q : Bytes) where
  Keeps-check_files : (files : List FileChanges) → Keeps q (check_files host files)
  unfolding check_files
  Keeps-check_files [] = Keeps-pure
  Keeps-check_files (file ∷ files) =
      Keeps-bind (Keeps-fingerprint_file host q file.path)
        (λ fp. Keeps-bind (Keeps-check_files files) (λ rest. Keeps-pure))

  pub Keeps-recovery_check : (session_id : Bytes) → Keeps q (recovery_check host session_id)
  unfolding recovery_check
  Keeps-recovery_check session_id = Keeps-bind (Keeps-load_meta host q session_id) (λ meta.
      Keeps-bind (Keeps-load_changes host q session_id) (λ changes.
        Keeps-bind (Keeps-check_files (group_changes changes [])) (λ files. Keeps-pure)))

  pub Keeps-session_recover : (session_id : Bytes) → Keeps q (session_recover host session_id)
  unfolding session_recover
  Keeps-session_recover session_id =
      Keeps-bind (Keeps-load_meta host q session_id)
        (λ meta. Keeps-bind (Keeps-recovery_check session_id) (λ check. Keeps-pure))

  module _ (apart : Apart host q) where
    Keeps-rebase_entry :
        (entry : ChangeEntry)
        → Under (bridge_dir host) entry.meta_path
        → Keeps q (rebase_entry host entry)
    unfolding rebase_entry
    Keeps-rebase_entry entry u = Keeps-bind (Keeps-fingerprint_file host q entry.change.path) (λ fp.
        Keeps-write_text host q entry.meta_path
          (serialize_change (record entry.change { base_hash = fp.hash; base_mtime = fp.mtime }))
          (Under-apart (bridge_dir host) entry.meta_path q u apart))

    Keeps-rebase_entries :
        (files : List RecoveryCheckFile) (entries : List ChangeEntry) (rebased : List Bytes)
        → AllUnder (bridge_dir host) (map (λ entry. entry.meta_path) entries)
        → Keeps q (rebase_entries host files entries rebased)
    unfolding rebase_entries
    Keeps-rebase_entries files [] rebased all = Keeps-pure
    Keeps-rebase_entries files (entry ∷ entries) rebased (u, all) =
        Keeps-if (needs_rebase files entry.change.path)
          (Keeps-bind (Keeps-rebase_entry entry u)
            (λ u. Keeps-rebase_entries files entries (insert_new rebased entry.change.path) all))
          (Keeps-rebase_entries files entries rebased all)

    pub kept-rebase :
        (session_id : Bytes) (w : World)
        → Relative session_id
        → StoredRelative host session_id w
        → FileKept q w (recovery_rebase host session_id w).1
    unfolding recovery_rebase
    kept-rebase session_id w rel stored =
        FileKept-bind w (Keeps-ensure_active_session host q session_id) (λ meta loaded.
          let own = stored meta (ensure_active_session-loaded host session_id w meta loaded) in
          Keeps-bind (Keeps-recovery_check session_id) (λ check.
            Keeps-bind (Keeps-if check.recoverable Keeps-pure Keeps-fail) (λ u.
              Keeps-bind_with (Keeps-load_change_entries host q session_id) (λ v entries found.
                Keeps-bind
                  (Keeps-rebase_entries check.files entries []
                    (load_change_entries-AllUnder host session_id v entries rel found))
                  (λ rebased.
                    Keeps-bind
                      (Keeps-enter_state host q apart meta
                        (if is_empty rebased then meta.state else codes "staged") own)
                      (λ next. Keeps-pure))))))
