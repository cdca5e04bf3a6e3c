-- ===== src/Session/Preview/Keeps.antt =====
-- Previewing a session leaves the workspace's own files alone.
use ai_editor.Prelude.{List, [], ◌∷◌, if◌then◌else◌}
use ai_editor.Text.{Bytes, codes, is_empty}
use ai_editor.Disk.{Host}
use ai_editor.Disk.Action.{World}
use ai_editor.Disk.Keeps.{Keeps, FileKept, FileKept-bind, Keeps-bind, Keeps-pure, Keeps-lift}
use ai_editor.Session.Store.Keeps.{
  Apart, StoredRelative, Keeps-ensure_active_session, ensure_active_session-loaded,
}
use ai_editor.Session.Lifecycle.Keeps.{Keeps-enter_state}
use ai_editor.Session.Recovery.Keeps.{Keeps-recovery_check}
use ai_editor.Session.Recovery.{RecoveryCheckResult}
use ai_editor.Session.Commit.{check_ready}
use ai_editor.Session.Plan.{PlannedFile}
use ai_editor.Session.Plan.Keeps.{Keeps-build_planned_files}
use ai_editor.Patch.Store.{Settings}
use ai_editor.Patch.Preview.Keeps.{Keeps-patch_preview}
use ai_editor.Session.Preview.{preview_files, session_preview}

module _ (host : Host) (settings : Settings) (q : Bytes) (apart : Apart host q) where
  Keeps-preview_files : (files : List PlannedFile) → Keeps q (preview_files host settings files)
  unfolding preview_files
  Keeps-preview_files [] = Keeps-pure
  Keeps-preview_files (file ∷ files) =
      Keeps-bind
        (Keeps-patch_preview host settings q apart file.path file.final_content
          (record { mtime = []; hash = [] }))
        (λ preview. Keeps-bind (Keeps-preview_files files) (λ rest. Keeps-pure))

  pub kept-preview :
      (session_id : Bytes) (w : World)
      → StoredRelative host session_id w
      → FileKept q w (session_preview host settings session_id w).1
  unfolding session_preview
  kept-preview session_id w stored =
      FileKept-bind w (Keeps-ensure_active_session host q session_id) (λ meta loaded.
        let own = stored meta (ensure_active_session-loaded host session_id w meta loaded) in
        Keeps-bind (Keeps-recovery_check host q session_id) (λ (check : RecoveryCheckResult).
          Keeps-bind (Keeps-lift {r = check_ready check}) (λ u.
            Keeps-bind (Keeps-build_planned_files host q session_id)
              (λ (planned : List PlannedFile). Keeps-bind (Keeps-preview_files planned) (λ files.
                Keeps-bind
                  (Keeps-enter_state host q apart meta
                    (if is_empty planned then meta.state else codes "previewed") own)
                  (λ next. Keeps-pure))))))
