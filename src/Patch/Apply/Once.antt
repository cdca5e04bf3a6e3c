-- ===== src/Patch/Apply/Once.antt =====
-- A preview that was applied is not applied again.
use ai_editor.Prelude.{
  ◌≡◌, refl, sym, ap, ◌∙◌, arith, Bool, true, false, List, [], ◌∷◌, Option, none, if◌then◌else◌,
  ◌==◌, drop,
}
use ai_editor.Text.{Bytes, codes, str_eq_refl, is_empty}
use ai_editor.Outcome.{Outcome, ok, err}
use ai_editor.Disk.{Host, remove_path, read_file, newest_first}
use ai_editor.Disk.Action.{Exec, World, ◌>>=◌, continue-ok, lift, pure}
use ai_editor.Disk.Keeps.{FileKept, Keeps, Keeps-bind, Keeps-pure}
use ai_editor.Disk.Ensures.{Ensures, Ensures-after}
use ai_editor.Patch.Encoding.Keeps.{Keeps-read_text_file}
use ai_editor.Disk.Files.{find_file, find_file-remove_file}
use ai_editor.Disk.Sure.{NoFaults}
use ai_editor.Patch.Store.{Settings, preview_meta_path, previews_dir, preview_content_path}
use ai_editor.Patch.Cleanup.{each, cleanup_old_preview_statuses}
use ai_editor.Patch.Preview.{load_preview_record, missing_preview, load_text}
use ai_editor.Patch.Base.{PatchBase}
use ai_editor.Patch.Apply.{
  Caller, consume_preview, patch_apply, ℕ, suc, record_apply, apply_plan, plan_request,
  PatchApplyResult, PatchPlan, ResolveResult, FileState, append_history, ensure_bridge_dirs,
  cleanup_old_backups, make_backup, resolve_allowed, write_target, read_text_file, encode_text,
  check_base,
}

abbrev Absent : Bytes → World → Type 0
Absent q w = find_file q w.files ≡ none

-- Whatever it finds, the call leaves no file there.
record Removes {A : Type 0} (q : Bytes) (m : Exec A) : Type 0 where
  at : (w : World) → Absent q (m w).1

-- The call brings no file there.
record Spares {A : Type 0} (q : Bytes) (m : Exec A) : Type 0 where
  at : (w : World) → Absent q w → Absent q (m w).1

read_file-Absent :
    (host : Host) (q : Bytes) (w : World)
    → Absent q w
    → read_file host q w ≡ (none, record w { step = suc w.step })
unfolding read_file
read_file-Absent host q w absent = rw (absent, read_file) refl

module _ (host : Host) (settings : Settings) (q : Bytes) where
  Spares-remove_path : (p : Bytes) → Spares q (remove_path host p)
  unfolding remove_path
  Spares-remove_path p = record { at = λ w e. grind (arith, find_file-remove_file p q w.files) }

  Spares-each : (paths : List Bytes) → Spares q (each host (remove_path host) paths)
  unfolding each
  Spares-each [] = record { at = λ w e. e }
  Spares-each (p ∷ paths) = record {
    at = λ w e. (Spares-each paths).at (remove_path host p w).1 ((Spares-remove_path p).at w e);
  }

  Spares-cleanup_old_preview_statuses :
      (keep : ℕ) → Spares q (cleanup_old_preview_statuses host keep)
  unfolding cleanup_old_preview_statuses
  Spares-cleanup_old_preview_statuses keep = record { at = λ w e. spared (keep == 0) w e }
    where
      spared :
          (b : Bool) (w : World)
          → Absent q w
          → Absent q
              (if b
                then (ok tt, w)
                else each host
                    (remove_path host)
                    (drop keep (newest_first host (previews_dir host) (codes ".status") w))
                    w).1
      spared true w e = e
      spared false w e =
          (Spares-each (drop keep (newest_first host (previews_dir host) (codes ".status") w))).at w
            e

  Removes-remove_path : NoFaults host → Removes q (remove_path host q)
  unfolding remove_path
  Removes-remove_path sure = record {
    at = λ w. ground (arith, sure w.step, find_file-remove_file q q w.files, str_eq_refl q);
  }

module _ (host : Host) (settings : Settings) (id : Bytes) where
  abbrev meta_path : Bytes
  meta_path = preview_meta_path host id

  Removes-consume_preview : NoFaults host → Removes meta_path (consume_preview host settings id)
  unfolding consume_preview
  Removes-consume_preview sure = record {
    at = λ w.
        (Spares-cleanup_old_preview_statuses host settings meta_path
            settings.preview_status_keep_count).at
          _
          ((Spares-remove_path host settings meta_path (preview_content_path host id)).at _
            ((Removes-remove_path host settings meta_path sure).at _));
  }

  load_preview_record-Absent :
      (w : World)
      → Absent meta_path w
      → (e : Bytes) × ((load_preview_record host settings id w).0 ≡ err e)
  unfolding load_preview_record load_text missing_preview
  load_preview_record-Absent w absent =
      let read = read_file-Absent host meta_path w absent in
      (_, ap (λ (r : Option Bytes × World). (load_text host settings id r.0 r.1).0) read)

  Absent-kept : (w w' : World) → FileKept meta_path w w' → Absent meta_path w → Absent meta_path w'
  Absent-kept w w' kept e = kept ∙ e

  abbrev Gone : {A : Type 0} → A → World → Type 0
  Gone a w = Absent meta_path w

  Ensures-then :
      {A B : Type 0} {m : Exec A} {f : A → Exec B}
      → Ensures Gone m
      → ((a : A) → Keeps meta_path (f a))
      → Ensures Gone (m >>= f)
  Ensures-then {A} {B} {m} {f} em kf = record {
    at = λ w w' b h.
        let (a, e, rest) = continue-ok (m w).0 f (m w).1 w' b h in
        let before = em.at w (m w).1 a (λ i. (e i, (m w).1)) in
        Absent-kept (m w).1 w'
          (ap (λ (p : Outcome B × World). find_file meta_path p.1.files) (sym rest)
            ∙ (kf a).at (m w).1)
          before;
  }

  Ensures-record_apply :
      NoFaults host
      → is_empty id ≡ false
      → (rel_path backup_id : Bytes) (caller : Caller)
      → Ensures Gone (record_apply host settings rel_path backup_id caller id)
  unfolding record_apply
  Ensures-record_apply sure named rel_path backup_id caller =
      Ensures-after
        (append_history host settings
          (if is_empty id then codes "patch.apply" else codes "patch.apply.preview") rel_path
          backup_id caller.client_id caller.session_id caller.request_id)
        (λ u. Ensures-after (cleanup_old_backups host settings.backup_keep_count) (λ u. record {
          at = λ w w' a h.
              ap (λ v. find_file meta_path v.files)
                (sym (ap (λ (p : Outcome (Unit {0}) × World). p.1) h)
                  ∙ ap (λ b. ((if b then pure tt else consume_preview host settings id) w).1) named)
              ∙ (Removes-consume_preview sure).at w;
        }))

  Ensures-apply_plan :
      NoFaults host
      → is_empty id ≡ false
      → (plan : PatchPlan) (resolved : ResolveResult) (state : FileState) (caller : Caller)
      → Ensures Gone (apply_plan host settings plan resolved state caller id)
  unfolding apply_plan
  Ensures-apply_plan sure named plan resolved state caller =
      let rel_path = resolved.normalized_relative_path in
      Ensures-after (ensure_bridge_dirs host) (λ u.
        Ensures-after (make_backup host settings rel_path state) (λ backup_id.
          Ensures-after
            (write_target host settings resolved.absolute_path
              (encode_text plan.new_content state.eol state.bom state.encoding) state.exists)
            (λ u. Ensures-then (Ensures-record_apply sure named rel_path backup_id caller) (λ u.
              Keeps-bind (Keeps-read_text_file host meta_path resolved.absolute_path false)
                (λ (new_state : FileState). Keeps-pure)))))

  Ensures-patch_apply :
      NoFaults host
      → is_empty id ≡ false
      → (path new_content : Bytes) (base : PatchBase) (caller : Caller)
      → Ensures Gone (patch_apply host settings path new_content base caller id)
  unfolding patch_apply
  Ensures-patch_apply sure named path new_content base caller =
      Ensures-after (plan_request host settings path new_content base id) (λ plan.
        Ensures-after (lift (resolve_allowed host plan.path)) (λ resolved.
          Ensures-after (read_text_file host resolved.absolute_path true) (λ state.
            Ensures-after (lift (check_base plan state))
              (λ u. Ensures-apply_plan sure named plan resolved state caller))))

  refused-Absent :
      (path new_content : Bytes) (base : PatchBase) (caller : Caller) (w : World)
      → is_empty id ≡ false
      → Absent meta_path w
      → (e : Bytes) × ((patch_apply host settings path new_content base caller id w).0 ≡ err e)
  unfolding patch_apply plan_request
  refused-Absent path new_content base caller w named absent =
      let (e, failed) = load_preview_record-Absent w absent in (e, rw (named, failed) refl)

-- Where no call of the system fails, a preview is applied at most once: after a patch that names it
-- has succeeded, every patch that names it, from the disk that the first one left, is refused.
pub patch_apply-once :
    (host : Host) (settings : Settings) (id : Bytes) (path new_content : Bytes) (base : PatchBase)
    (caller : Caller) (w w' : World) (r : PatchApplyResult)
    → NoFaults host
    → is_empty id ≡ false
    → patch_apply host settings path new_content base caller id w ≡ (ok r, w')
    → (path' new_content' : Bytes) (base' : PatchBase) (caller' : Caller)
    → (e : Bytes) × ((patch_apply host settings path' new_content' base' caller' id w').0 ≡ err e)
patch_apply-once host settings id path new_content base caller w w' r sure named done path'
      new_content' base' caller' =
    refused-Absent host settings id path' new_content' base' caller' w' named (
      (Ensures-patch_apply host settings id sure named path new_content base caller).at w w' r done)
