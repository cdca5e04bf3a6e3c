-- ===== src/Session/Commit.antt =====
-- session_service.cpp: `session_commit`, which writes the plan of a session file by file.
pub mod Committed
use ai_editor.Prelude.{
  ℕ, suc, ◌+◌, Bool, true, false, not, ◌&&◌, ◌||◌, List, [], ◌∷◌, ◌++◌, length, ltb, ◌==◌,
  if◌then◌else◌,
}
use ai_editor.Text.{Bytes, codes, str_eq, is_empty}
use ai_editor.Text.Decimal.{to_decimal}
use ai_editor.Hash.{fnv1a64, hex64}
use ai_editor.Json.{json_escape}
use ai_editor.Outcome.{Outcome, ok, err}
use ai_editor.Path.{join_path}
use ai_editor.Disk.Action.{Exec, World, pure, fail, require, continue, ◌>>=◌, ◌>>◌}
use ai_editor.Disk.{Host, write_text, current_timestamp, current_timestamp_ms}
use ai_editor.Session.Codec.{SessionMeta}
use ai_editor.Session.Store.{ensure_active_session, session_dir}
use ai_editor.Session.Lifecycle.{enter_state}
use ai_editor.Session.Recovery.{
  RecoveryCheckFile, RecoveryCheckResult, recovery_check, conflict_texts,
  summarize_recovery_conflict,
}
use ai_editor.Session.Plan.{PlannedFile, build_planned_files}
use ai_editor.Patch.Base.{PatchBase}
use ai_editor.Patch.Store.{Settings}
use ai_editor.Patch.Preview.{PatchPreviewResult, patch_preview}
use ai_editor.Patch.Apply.{Caller, PatchApplyResult, patch_apply}

pub record CommitFileRecord : Type 0 where
  pub path : Bytes
  pub preview_id : Bytes
  pub backup_id : Bytes
  pub current_hash : Bytes

pub record CommitRecord : Type 0 where
  pub commit_id : Bytes
  pub session_id : Bytes
  pub state : Bytes
  pub files : List CommitFileRecord
  pub created_at : Bytes

pub record SessionCommitResult : Type 0 where
  pub session_id : Bytes
  pub state : Bytes
  pub commit_id : Bytes
  pub committed_file_count : ℕ
  pub files : List CommitFileRecord

pending_paths : List RecoveryCheckFile → List Bytes
pending_paths [] = []
pending_paths (file ∷ files) =
    let rest = pending_paths files in
    if str_eq file.status (codes "rebase_required") then file.path ∷ rest else rest

-- The refusals of a preview and of a commit after the recovery check.
unfoldable pub check_ready : RecoveryCheckResult → Outcome (Unit {0})
unfolding pending_paths conflict_texts summarize_recovery_conflict
check_ready check =
    if ltb 0 check.conflict_file_count
    then err (summarize_recovery_conflict (conflict_texts check.files) (codes "session conflict: "))
    else if ltb 0 check.rebase_file_count
    then err (
        summarize_recovery_conflict (pending_paths check.files) (codes "session rebase required: "))
    else ok tt

field : Bytes → Bytes → Bytes
field key value = codes "\"" ++ (key ++ (codes "\":\"" ++ (json_escape value ++ codes "\"")))

file_json : CommitFileRecord → Bytes
unfolding field
file_json file =
    codes "{"
    ++ (field (codes "path") file.path
        ++ (codes ","
            ++ (field (codes "preview_id") file.preview_id
                ++ (codes ","
                    ++ (field (codes "backup_id") file.backup_id
                        ++ (codes ","
                            ++ (field (codes "current_hash") file.current_hash ++ codes "}")))))))

files_json : List CommitFileRecord → Bytes
unfolding file_json
files_json [] = []
files_json (file ∷ files) =
    let rest = files_json files in
    if is_empty files then file_json file else file_json file ++ (codes "," ++ rest)

unfoldable pub commit_json : CommitRecord → Bytes
unfolding field files_json
commit_json rec =
    codes "{"
    ++ (field (codes "commit_id") rec.commit_id
        ++ (codes ","
            ++ (field (codes "session_id") rec.session_id
                ++ (codes ","
                    ++ (field (codes "state") rec.state
                        ++ (codes ","
                            ++ (field (codes "created_at") rec.created_at
                                ++ (codes ",\"files\":["
                                    ++ (files_json rec.files ++ codes "]}")))))))))

module _ (host : Host) (settings : Settings) where
  unfoldable pub session_commit_path : Bytes → Bytes
  unfolding join_path session_dir
  session_commit_path session_id = join_path (session_dir host session_id) (codes "commit.json")

  unfoldable pub make_commit_id : Bytes → Exec Bytes
  unfolding current_timestamp_ms to_decimal hex64 fnv1a64
  make_commit_id session_id = do
    now ← current_timestamp_ms host
    pure (to_decimal now ++ (codes "-" ++ hex64 (fnv1a64 (session_id ++ codes "|commit"))))

  -- One file: a preview of the planned content, and the patch of that preview.
  unfoldable pub commit_file : Bytes → Caller → PlannedFile → Exec CommitFileRecord
  unfolding patch_preview patch_apply
  commit_file session_id caller file = do
    preview ←
        patch_preview host settings file.path file.final_content (record { mtime = []; hash = [] })
    applied ←
        patch_apply host settings file.path file.final_content
          (record { mtime = preview.current_mtime; hash = preview.current_hash })
          (record caller { session_id = session_id }) preview.preview_id
    pure (record {
      path = file.path;
      preview_id = preview.preview_id;
      backup_id = applied.backup_id;
      current_hash = applied.current_hash;
    })

  unfoldable pub commit_files :
      Bytes → Caller → SessionMeta → List PlannedFile → Exec (SessionMeta × List CommitFileRecord)
  unfolding enter_state commit_file
  commit_files session_id caller meta [] = pure (meta, [])
  commit_files session_id caller meta (file ∷ files) = do
    writing ← enter_state host meta (codes "writing")
    done ← commit_file session_id caller file
    verifying ← enter_state host writing (codes "verifying")
    rest ← commit_files session_id caller verifying files
    pure (rest.0, done ∷ rest.1)

  -- The part behind the plan.
  unfoldable pub commit_plan :
      Bytes → Caller → SessionMeta → List PlannedFile → Exec SessionCommitResult
  unfolding make_commit_id current_timestamp enter_state commit_files write_text session_commit_path
      commit_json
  commit_plan session_id caller meta planned = do
    commit_id ← make_commit_id session_id
    created_at ← current_timestamp host
    validating ← enter_state host meta (codes "validating")
    written ← commit_files session_id caller validating planned
    write_text host (session_commit_path session_id) (
        commit_json (record {
          commit_id = commit_id;
          session_id = session_id;
          state = codes "recorded";
          files = written.1;
          created_at = created_at;
        }))
    committed ← enter_state host written.0 (codes "committed")
    pure (record {
      session_id = session_id;
      state = committed.state;
      commit_id = commit_id;
      committed_file_count = length written.1;
      files = written.1;
    })

  unfoldable pub session_commit : Bytes → Caller → Exec SessionCommitResult
  unfolding ensure_active_session recovery_check check_ready build_planned_files commit_plan
  session_commit session_id caller = do
    meta ← ensure_active_session host session_id
    check ← recovery_check host session_id
    λ w. (check_ready check, w)
    planned ← build_planned_files host session_id
    commit_plan session_id caller meta planned
