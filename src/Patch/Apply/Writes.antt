-- ===== src/Patch/Apply/Writes.antt =====
-- What `patch_apply` writes.
use ai_editor.Hash.{content_hash}
use ai_editor.Patch.Preview.{LoadedPreview, load_preview_record}
use ai_editor.Prelude.{
  sym, ◌⊎◌, ◌∷◌, not, ◌&&◌, arith, ◌≡◌, refl, ap, ◌∙◌, Bool, true, false, List, [], ◌++◌, none,
  some, if◌then◌else◌, length, length-append, Bool-cases, inl, inr,
}
use ai_editor.Text.{Bytes, codes, str_eq, str_eq_iff, str_eq_refl, is_empty}
use ai_editor.Outcome.{ok, err, ok≢err, ok-injective}
use ai_editor.Path.{ResolveResult}
use ai_editor.Path.Segment.{PlainName, PlainName-char_is}
use ai_editor.Disk.{Host, content_of, create_directories, write_unchecked, remove_path, rename_path}
use ai_editor.Disk.Action.{World, File, continue-ok}
use ai_editor.Disk.Files.{
  find_file, put_file, remove_file, find_file-put_file, find_file-remove_file,
}
use ai_editor.Disk.Keeps.{Keeps-bind, Keeps-pure}
use ai_editor.Disk.Sure.{
  Succeeds-pure, NoFaults, Succeeds, Succeeds-bind, Leaves, Leaves-later, Leaves-then,
  Succeeds-write_unchecked,
}
use ai_editor.Session.Store.Keeps.{Apart, Relative}
use ai_editor.Patch.Store.{Settings}
use ai_editor.Patch.Store.Sure.{
  Succeeds-ensure_bridge_dirs, Succeeds-make_backup_id, Succeeds-save_backup_record,
}
use ai_editor.Patch.Base.{PatchBase}
use ai_editor.Patch.Encoding.{FileState, encode_text}
use ai_editor.Patch.Encoding.Keeps.{Keeps-read_text_file}
use ai_editor.Patch.Apply.{
  PatchPlan, plan_of_preview, differs, or_value, Caller, temp_suffix, patch_apply, apply_plan,
  make_backup, write_target, replace_file, or_cleanup, plan_request, check_base, PatchBase,
  resolve_allowed, read_text_file, backup_file_path,
}
use ai_editor.Patch.Apply.Keeps.{Keeps-record_apply}

-- A path is not the path of its temporary file.
temp-differs : (target : Bytes) → str_eq target (target ++ temp_suffix) ≡ false
temp-differs target = elim (Bool-cases (str_eq target (target ++ temp_suffix))) [
  | inl e ↦
      let same = ap length ((str_eq_iff target (target ++ temp_suffix)).0 e) in
      absurd (omega (arith, same, length-append target temp_suffix))
  | inr e ↦ e
]

module _ (host : Host) (settings : Settings) (sure : NoFaults host) where
  module _ (target bytes : Bytes) where
    abbrev temp : Bytes
    temp = target ++ temp_suffix

    -- The temporary file is found after the old target was removed, or was not there.
    temp-found :
        (f : File) (files : List (Bytes × File))
        → (find_file temp (put_file temp f files) ≡ some f)
          × (find_file temp (remove_file target (put_file temp f files)) ≡ some f)
    temp-found f files =
        let found =
          find_file-put_file temp temp f files
          ∙ ap (λ b. if b then some f else find_file temp files) (str_eq_refl temp) in
        (
          found,
          find_file-remove_file target temp (put_file temp f files)
              ∙ ap (λ b. if b then none else find_file temp (put_file temp f files))
                  (temp-differs target)
              ∙ found,
        )

    target-found :
        (f : File) (files : List (Bytes × File))
        → find_file target (put_file target f files) ≡ some f
    target-found f files =
        find_file-put_file target target f files
        ∙ ap (λ b. if b then some f else find_file target files) (str_eq_refl target)

    Leaves-write_target :
        (exists : Bool) → Leaves target bytes (write_target host settings target bytes exists)
    unfolding write_target replace_file or_cleanup create_directories write_unchecked remove_path
        rename_path content_of
    Leaves-write_target exists = record { at = λ w. grind (arith, sure, temp-found, target-found) }

  Succeeds-make_backup :
      (rel_path : Bytes) (state : FileState) → Succeeds (make_backup host settings rel_path state)
  unfolding make_backup
  Succeeds-make_backup rel_path state = Succeeds-bind (Succeeds-make_backup_id host rel_path) (λ id.
      Succeeds-bind
        (Succeeds-write_unchecked host sure (backup_file_path host id rel_path)
          (if state.exists then encode_text state.text state.eol state.bom state.encoding else [])
          (codes "failed to create backup"))
        (λ u.
          Succeeds-bind
            (Succeeds-save_backup_record host sure id rel_path (record { existed = state.exists }))
            (λ u. Succeeds-pure {a = id})))

  Leaves-apply_plan :
      (plan : PatchPlan) (resolved : ResolveResult) (state : FileState) (caller : Caller)
      (preview_id : Bytes)
      → Relative preview_id
      → Apart host resolved.absolute_path
      → Leaves resolved.absolute_path
          (encode_text plan.new_content state.eol state.bom state.encoding)
          (apply_plan host settings plan resolved state caller preview_id)
  unfolding apply_plan
  Leaves-apply_plan plan resolved state caller preview_id rel apart =
      let target = resolved.absolute_path in
      let rel_path = resolved.normalized_relative_path in
      Leaves-later (Succeeds-ensure_bridge_dirs host sure) (λ u.
        Leaves-later (Succeeds-make_backup rel_path state) (λ (backup_id : Bytes).
          Leaves-then
            (Leaves-write_target target
              (encode_text plan.new_content state.eol state.bom state.encoding) state.exists)
            (λ u.
              Keeps-bind
                (Keeps-record_apply host settings target apart preview_id rel rel_path backup_id
                  caller)
                (λ u.
                  Keeps-bind (Keeps-read_text_file host target target false)
                    (λ (new_state : FileState). Keeps-pure)))))

-- What a plan writes comes from the request itself, or from the preview that the request names, as it
-- is loaded from the disk.
abbrev pub Source : Host → Settings → Bytes → Bytes → Bytes → World → PatchPlan → Type 0
Source host settings path new_content preview_id w plan =
    ((preview_id ≡ []) × (plan.path ≡ path) × (plan.new_content ≡ new_content))
    ⊎ ((preview : LoadedPreview) × ((load_preview_record host settings preview_id w).0 ≡ ok preview)
        × (plan.path ≡ preview.rec.path)
        × (plan.new_content ≡ preview.content))

-- A plan that passes four checks is the one that was made.
checked :
    (a b c d : Bool) (e f g : Bytes) (made plan : PatchPlan)
    → (if a then err e else if b then err f else if c then err g else if d then err g else ok made)
      ≡ ok plan
    → made ≡ plan
checked true b c d e f g made plan h = absurd (ok≢err (sym h))
checked false true c d e f g made plan h = absurd (ok≢err (sym h))
checked false false true d e f g made plan h = absurd (ok≢err (sym h))
checked false false false true e f g made plan h = absurd (ok≢err (sym h))
checked false false false false e f g made plan h = ok-injective h

plan_of_preview-content :
    (path new_content : Bytes) (base : PatchBase) (preview : LoadedPreview) (plan : PatchPlan)
    → plan_of_preview path new_content base preview ≡ ok plan
    → (plan.path ≡ preview.rec.path) × (plan.new_content ≡ preview.content)
unfolding plan_of_preview
plan_of_preview-content path new_content base preview plan h =
    let made : PatchPlan = record {
      path = preview.rec.path;
      new_content = preview.content;
      base = record {
        mtime = or_value base.mtime preview.rec.current_mtime;
        hash = or_value base.hash preview.rec.current_hash;
      };
      preview = some preview.rec;
    } in
    let same =
      checked (differs path preview.rec.path)
        (not (is_empty new_content)
          && not (str_eq (content_hash new_content) preview.rec.new_content_hash))
        (differs base.mtime preview.rec.current_mtime) (differs base.hash preview.rec.current_hash)
        (codes "preview path mismatch") (codes "preview content mismatch")
        (codes "preview base mismatch") made plan h in
    (ap (λ (p : PatchPlan). p.path) (sym same), ap (λ (p : PatchPlan). p.new_content) (sym same))

plan_request-Source :
    (host : Host) (settings : Settings) (path new_content : Bytes) (base : PatchBase)
    (preview_id : Bytes) (w w1 : World) (plan : PatchPlan)
    → plan_request host settings path new_content base preview_id w ≡ (ok plan, w1)
    → Source host settings path new_content preview_id w plan
unfolding plan_request
plan_request-Source host settings path new_content base [] w w1 plan h =
    let same = ok-injective (ap (λ p. p.0) h) in
    inl (
      refl,
      ap (λ (p : PatchPlan). p.path) (sym same),
      ap (λ (p : PatchPlan). p.new_content) (sym same),
    )
plan_request-Source host settings path new_content base (c ∷ id) w w1 plan h =
    let loading = load_preview_record host settings (c ∷ id) w in
    let (preview, loaded, rest) =
      continue-ok loading.0 (λ preview v. (plan_of_preview path new_content base preview, v))
        loading.1 w1 plan h in
    let (at_path, content) =
      plan_of_preview-content path new_content base preview plan (ap (λ p. p.0) rest) in
    inr (preview, loaded, at_path, content)

-- A patch, with or without a preview, whose plan is made (from the request, or from the request and
-- the preview it names), whose path the policy allows, and whose file is as the plan and the preview
-- expect it, leaves the file with the plan's content in the file's own encoding, whether or not it
-- reports success, if no call of the system fails, the file is not one of the program's own, and the
-- preview's id is a plain name (or empty). The plan's path and content are the request's where it names
-- no preview, and else those of the preview as it is loaded from the disk.
pub patch_apply-writes :
    (host : Host) (settings : Settings) (path new_content : Bytes) (base : PatchBase)
    (caller : Caller) (preview_id : Bytes) (w w1 w2 : World) (plan : PatchPlan)
    (resolved : ResolveResult) (state : FileState)
    → NoFaults host
    → PlainName preview_id
    → plan_request host settings path new_content base preview_id w ≡ (ok plan, w1)
    → resolve_allowed host plan.path ≡ ok resolved
    → Apart host resolved.absolute_path
    → read_text_file host resolved.absolute_path true w1 ≡ (ok state, w2)
    → check_base plan state ≡ ok tt
    → (content_of resolved.absolute_path
          (patch_apply host settings path new_content base caller preview_id w).1
        ≡ encode_text plan.new_content state.eol state.bom state.encoding)
      × Source host settings path new_content preview_id w plan
unfolding patch_apply
patch_apply-writes host settings path new_content base caller preview_id w w1 w2 plan resolved state
      sure plain planned allowed apart read matches =
    (
      rw (planned, allowed, read, matches)
          ((Leaves-apply_plan host settings sure plan resolved state caller preview_id
              (PlainName-char_is preview_id plain) apart).at
            w2),
      plan_request-Source host settings path new_content base preview_id w w1 plan planned,
    )
