-- ===== src/Patch/Apply/Keeps.antt =====
-- What `patch_apply` leaves alone: every file that is not the program's own, its target or the
-- temporary file beside it.
use ai_editor.Prelude.{◌≡◌, refl, Bool, true, false, [], ◌++◌, none, if◌then◌else◌, arith}
use ai_editor.Text.{Bytes, codes, str_eq, is_empty}
use ai_editor.Outcome.{ok}
use ai_editor.Path.{ResolveResult}
use ai_editor.Disk.{Host, bridge_dir, remove_path, rename_path}
use ai_editor.Disk.Action.{Exec, World, lift}
use ai_editor.Disk.Keeps.{
  Keeps, FileKept, Keeps-bind, Keeps-bind_with, Keeps-pure, Keeps-lift, Keeps-if, Keeps-remove_path,
  Keeps-create_directories, Keeps-write_unchecked, Keeps-rename_path, FileKept-bind,
}
use ai_editor.Disk.Under.{Under-apart}
use ai_editor.Session.Store.Keeps.{Apart, Relative}
use ai_editor.Patch.Store.{Settings, backup_file_path}
use ai_editor.Patch.Store.Keeps.{
  Under-backup_file_path, Keeps-save_backup_record, Keeps-make_backup_id, make_backup_id-Relative,
  Keeps-ensure_bridge_dirs, Keeps-save_preview_status, Keeps-remove_preview_content_and_meta,
}
use ai_editor.Patch.Cleanup.Keeps.{
  Keeps-append_history, Keeps-cleanup_old_backups, Keeps-cleanup_old_preview_statuses,
}
use ai_editor.Patch.Encoding.Keeps.{Keeps-read_text_file}
use ai_editor.Patch.Encoding.{FileState, encode_text}
use ai_editor.Patch.Base.{PatchBase}
use ai_editor.Patch.Apply.{
  PatchPlan, Caller, temp_suffix, patch_apply, apply_plan, make_backup, write_target, record_apply,
  replace_file, or_cleanup, consume_preview, plan_request, resolve_allowed, check_base,
}

module _ (host : Host) (settings : Settings) (q : Bytes) where
  Keeps-or_cleanup :
      (action cleanup : Exec (Unit {0}))
      → Keeps q action
      → Keeps q cleanup
      → Keeps q (or_cleanup host settings action cleanup)
  unfolding or_cleanup
  Keeps-or_cleanup action cleanup ka kc = record { at = λ w. grind (arith, ka.at, kc.at) }

  -- The target and the temporary file are other files than `q`.
  module _ (target : Bytes) (other : str_eq target q ≡ false)
      (other_temp : str_eq (target ++ temp_suffix) q ≡ false) where
    Keeps-replace_file :
        (exists : Bool) → Keeps q (replace_file host settings (target ++ temp_suffix) target exists)
    unfolding replace_file
    Keeps-replace_file exists =
        let temp = target ++ temp_suffix in
        let tidy = Keeps-remove_path host q temp other_temp in
        Keeps-bind
          (Keeps-if exists
            (Keeps-or_cleanup (remove_path host target) (remove_path host temp)
              (Keeps-remove_path host q target other) tidy)
            Keeps-pure)
          (λ u.
            Keeps-or_cleanup (rename_path host temp target) (remove_path host temp)
              (Keeps-rename_path host q temp target other_temp other) tidy)

    Keeps-write_target :
        (bytes : Bytes) (exists : Bool) → Keeps q (write_target host settings target bytes exists)
    unfolding write_target
    Keeps-write_target bytes exists = Keeps-bind (Keeps-create_directories host q target) (λ u.
        Keeps-bind
          (Keeps-write_unchecked host q (target ++ temp_suffix) bytes
            (codes "failed to open temp file") other_temp)
          (λ u. Keeps-replace_file exists))

  module _ (apart : Apart host q) where
    Keeps-make_backup :
        (rel_path : Bytes) (state : FileState) → Keeps q (make_backup host settings rel_path state)
    unfolding make_backup
    Keeps-make_backup rel_path state =
        Keeps-bind_with (Keeps-make_backup_id host q rel_path) (λ v id made.
          let rel = make_backup_id-Relative host rel_path v id made in
          let p = backup_file_path host id rel_path in
          Keeps-bind
            (Keeps-write_unchecked host q p
              (if state.exists
                then encode_text state.text state.eol state.bom state.encoding
                else [])
              (codes "failed to create backup")
              (Under-apart (bridge_dir host) p q (Under-backup_file_path host id rel rel_path)
                apart))
            (λ u.
              Keeps-bind
                (Keeps-save_backup_record host q apart id rel rel_path
                  (record { existed = state.exists }))
                (λ u. Keeps-pure {a = id})))

    Keeps-consume_preview : (id : Bytes) → Relative id → Keeps q (consume_preview host settings id)
    unfolding consume_preview
    Keeps-consume_preview id rel =
        Keeps-bind (Keeps-save_preview_status host q apart id rel (codes "applied")) (λ u.
          Keeps-bind (Keeps-remove_preview_content_and_meta host q apart id rel) (λ u.
            Keeps-cleanup_old_preview_statuses host q apart settings.preview_status_keep_count))

    module _ (preview_id : Bytes) (rel : Relative preview_id) where
      pub Keeps-record_apply :
          (rel_path backup_id : Bytes) (caller : Caller)
          → Keeps q (record_apply host settings rel_path backup_id caller preview_id)
      unfolding record_apply
      Keeps-record_apply rel_path backup_id caller =
          Keeps-bind
            (Keeps-append_history host q apart settings
              (if is_empty preview_id then codes "patch.apply" else codes "patch.apply.preview")
              rel_path backup_id caller.client_id caller.session_id caller.request_id)
            (λ u.
              Keeps-bind (Keeps-cleanup_old_backups host q apart settings.backup_keep_count) (λ u.
                Keeps-if (is_empty preview_id) Keeps-pure (Keeps-consume_preview preview_id rel)))

      Keeps-apply_plan :
          (plan : PatchPlan) (resolved : ResolveResult) (state : FileState) (caller : Caller)
          → str_eq resolved.absolute_path q ≡ false
          → str_eq (resolved.absolute_path ++ temp_suffix) q ≡ false
          → Keeps q (apply_plan host settings plan resolved state caller preview_id)
      unfolding apply_plan
      Keeps-apply_plan plan resolved state caller other other_temp =
          let rel_path = resolved.normalized_relative_path in
          Keeps-bind (Keeps-ensure_bridge_dirs host q) (λ u.
            Keeps-bind (Keeps-make_backup rel_path state) (λ (backup_id : Bytes).
              Keeps-bind
                (Keeps-write_target resolved.absolute_path other other_temp
                  (encode_text plan.new_content state.eol state.bom state.encoding) state.exists)
                (λ u. Keeps-bind (Keeps-record_apply rel_path backup_id caller) (λ u.
                  Keeps-bind (Keeps-read_text_file host q resolved.absolute_path false)
                    (λ (new_state : FileState). Keeps-pure)))))

-- A patch that names no preview leaves every file alone whose path does not begin with the program's
-- own directory, and which is neither the file that is patched nor the temporary file beside it,
-- whether it succeeds or fails.
pub patch_apply-kept :
    (host : Host) (settings : Settings) (path new_content : Bytes) (base : PatchBase)
    (caller : Caller) (q : Bytes) (w : World)
    → Apart host q
    → ((resolved : ResolveResult)
        → resolve_allowed host path ≡ ok resolved
        → (str_eq resolved.absolute_path q ≡ false)
          × (str_eq (resolved.absolute_path ++ temp_suffix) q ≡ false))
    → FileKept q w (patch_apply host settings path new_content base caller [] w).1
unfolding patch_apply plan_request
patch_apply-kept host settings path new_content base caller q w apart other =
    let plan : PatchPlan = record {
      path = path;
      new_content = new_content;
      base = base;
      preview = none;
    } in
    FileKept-bind {m = lift (resolve_allowed host path)} w
      (Keeps-lift {r = resolve_allowed host path})
      (λ (resolved : ResolveResult) found.
        let (o, t) = other resolved found in
        Keeps-bind (Keeps-read_text_file host q resolved.absolute_path true) (λ (state : FileState).
          Keeps-bind (Keeps-lift {r = check_base plan state})
            (λ u. Keeps-apply_plan host settings q apart [] refl plan resolved state caller o t)))
