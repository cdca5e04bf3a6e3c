-- ===== src/Patch/Apply.antt =====
-- patch_service.cpp: `patch_apply`.
pub mod Keeps
pub mod Writes
pub mod Once
pub mod Refuses
use ai_editor.Prelude.{
  ℕ, suc, Bool, true, false, not, ◌&&◌, ◌||◌, List, [], ◌∷◌, ◌++◌, Option, none, some,
  if◌then◌else◌,
}
use ai_editor.Text.{Bytes, codes, str_eq, is_empty}
use ai_editor.Hash.{content_hash}
use ai_editor.Outcome.{Outcome, ok, err}
use ai_editor.Path.{ResolveResult}
use ai_editor.Disk.Action.{Exec, World, pure, fail, lift, attempt, require, continue, ◌>>=◌, ◌>>◌}
use ai_editor.Disk.{Host, write_unchecked, remove_path, rename_path, create_directories}
use ai_editor.Patch.Encoding.{FileState, read_text_file, encode_text}
use ai_editor.Patch.Base.{PatchBase, base_matches, patch_conflict_message}
use ai_editor.Patch.Store.{
  Settings, PreviewRecord, BackupRecord, ensure_bridge_dirs, make_backup_id, backup_file_path,
  save_backup_record, save_preview_status, remove_preview_content_and_meta,
}
use ai_editor.Patch.Cleanup.{append_history, cleanup_old_backups, cleanup_old_preview_statuses}
use ai_editor.Patch.Preview.{LoadedPreview, load_preview_record, resolve_allowed}

pub record PatchApplyResult : Type 0 where
  pub path : Bytes
  pub preview_id : Bytes
  pub backup_id : Bytes
  pub current_mtime : Bytes
  pub current_hash : Bytes
  pub preview_status : Bytes

-- What is to be written where: `effective_path`, `effective_new_content`, `effective_base`, and the
-- preview that it comes from.
pub record PatchPlan : Type 0 where
  pub path : Bytes
  pub new_content : Bytes
  pub base : PatchBase
  pub preview : Option PreviewRecord

-- Who asks: the ids that go into the history.
pub record Caller : Type 0 where
  pub client_id : Bytes
  pub session_id : Bytes
  pub request_id : Bytes

abbrev differs : Bytes → Bytes → Bool
differs given expected = not (is_empty given) && not (str_eq given expected)

abbrev or_value : Bytes → Bytes → Bytes
or_value given expected = if is_empty given then expected else given

-- The checks of a request against the preview that it names.
unfoldable pub plan_of_preview : Bytes → Bytes → PatchBase → LoadedPreview → Outcome PatchPlan
unfolding content_hash
plan_of_preview requested_path new_content base preview =
    if differs requested_path preview.rec.path
    then err (codes "preview path mismatch")
    else if not (is_empty new_content)
        && not (str_eq (content_hash new_content) preview.rec.new_content_hash)
    then err (codes "preview content mismatch")
    else if differs base.mtime preview.rec.current_mtime
    then err (codes "preview base mismatch")
    else if differs base.hash preview.rec.current_hash
    then err (codes "preview base mismatch")
    else ok (record {
      path = preview.rec.path;
      new_content = preview.content;
      base = record {
        mtime = or_value base.mtime preview.rec.current_mtime;
        hash = or_value base.hash preview.rec.current_hash;
      };
      preview = some preview.rec;
    })

-- The base that a preview was made on.
abbrev preview_base : PreviewRecord → PatchBase
preview_base rec = record { mtime = rec.current_mtime; hash = rec.current_hash }

abbrev changed_since : PreviewRecord → FileState → Bool
changed_since rec state =
    not (str_eq state.mtime rec.current_mtime) || not (str_eq state.hash rec.current_hash)

-- The two conflict tests: the request's base, and the preview's.
unfoldable pub check_base : PatchPlan → FileState → Outcome (Unit {0})
unfolding base_matches patch_conflict_message
check_base plan state =
    if not (base_matches plan.base state)
    then err (patch_conflict_message plan.base state)
    else elim plan.preview [
      | none ↦ ok tt
      | some rec ↦
          if changed_since rec state
          then err (patch_conflict_message (preview_base rec) state)
          else ok tt
    ]

abbrev temp_suffix : Bytes
temp_suffix = codes ".bridge.tmp"

module _ (host : Host) (settings : Settings) where
  unfoldable pub plan_request : Bytes → Bytes → PatchBase → Bytes → Exec PatchPlan
  unfolding load_preview_record plan_of_preview
  plan_request requested_path new_content base preview_id =
      if is_empty preview_id
      then pure
          (record { path = requested_path; new_content = new_content; base = base; preview = none })
      else (load_preview_record host settings preview_id >>= λ preview.
          lift (plan_of_preview requested_path new_content base preview))

  -- The backup of the file as it was read, with its record: its id.
  unfoldable pub make_backup : Bytes → FileState → Exec Bytes
  unfolding make_backup_id write_unchecked backup_file_path encode_text save_backup_record
  make_backup rel_path state = do
    backup_id ← make_backup_id host rel_path
    write_unchecked host (backup_file_path host backup_id rel_path)
        (if state.exists then encode_text state.text state.eol state.bom state.encoding else [])
        (codes "failed to create backup")
    save_backup_record host backup_id rel_path (record { existed = state.exists })
    pure backup_id

  -- A call with an error that is passed on after `cleanup`.
  or_cleanup : Exec (Unit {0}) → Exec (Unit {0}) → Exec (Unit {0})
  or_cleanup action cleanup w =
      let (r, w') = action w in elim r [ ok u ↦ (ok u, w') | err e ↦ (err e, (cleanup w').1) ]

  -- The temporary file takes the place of the target.
  unfoldable pub replace_file : Bytes → Bytes → Bool → Exec (Unit {0})
  unfolding or_cleanup remove_path rename_path
  replace_file temp target exists = do
    (if exists then or_cleanup (remove_path host target) (remove_path host temp) else pure tt)
    or_cleanup (rename_path host temp target) (remove_path host temp)

  unfoldable pub write_target : Bytes → Bytes → Bool → Exec (Unit {0})
  unfolding create_directories write_unchecked replace_file
  write_target target bytes exists = do
    create_directories host target
    write_unchecked host (target ++ temp_suffix) bytes (codes "failed to open temp file")
    replace_file (target ++ temp_suffix) target exists

  -- The preview is marked as applied, and removed.
  unfoldable pub consume_preview : Bytes → Exec (Unit {0})
  unfolding save_preview_status remove_preview_content_and_meta cleanup_old_preview_statuses
  consume_preview preview_id = do
    save_preview_status host preview_id (codes "applied")
    remove_preview_content_and_meta host preview_id
    cleanup_old_preview_statuses host settings.preview_status_keep_count

  -- What follows the writing of the target.
  unfoldable pub record_apply : Bytes → Bytes → Caller → Bytes → Exec (Unit {0})
  unfolding append_history cleanup_old_backups consume_preview
  record_apply rel_path backup_id caller preview_id = do
    append_history host settings
        (if is_empty preview_id then codes "patch.apply" else codes "patch.apply.preview") rel_path
        backup_id caller.client_id caller.session_id caller.request_id
    cleanup_old_backups host settings.backup_keep_count
    if is_empty preview_id then pure tt else consume_preview preview_id

  -- The part behind the checks.
  unfoldable pub apply_plan :
      PatchPlan → ResolveResult → FileState → Caller → Bytes → Exec PatchApplyResult
  unfolding ensure_bridge_dirs make_backup write_target record_apply read_text_file encode_text
  apply_plan plan resolved state caller preview_id = do
    ensure_bridge_dirs host
    backup_id ← make_backup resolved.normalized_relative_path state
    write_target resolved.absolute_path
        (encode_text plan.new_content state.eol state.bom state.encoding) state.exists
    record_apply resolved.normalized_relative_path backup_id caller preview_id
    new_state ← read_text_file host resolved.absolute_path false
    pure (record {
      path = resolved.normalized_relative_path;
      preview_id = preview_id;
      backup_id = backup_id;
      current_mtime = new_state.mtime;
      current_hash = new_state.hash;
      preview_status = if is_empty preview_id then [] else codes "applied";
    })

  unfoldable pub patch_apply : Bytes → Bytes → PatchBase → Caller → Bytes → Exec PatchApplyResult
  unfolding plan_request resolve_allowed read_text_file check_base apply_plan
  patch_apply requested_path new_content base caller preview_id = do
    plan ← plan_request requested_path new_content base preview_id
    resolved ← lift (resolve_allowed host plan.path)
    state ← read_text_file host resolved.absolute_path true
    lift (check_base plan state)
    apply_plan plan resolved state caller preview_id
