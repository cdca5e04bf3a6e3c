-- ===== src/Patch/Preview.antt =====
-- patch_service.cpp: `load_preview_record` and `patch_preview`.
pub mod Keeps
use ai_editor.Prelude.{
  ◌%◌, ◌^◌, ℕ, suc, ◌+◌, Bool, true, false, not, ◌&&◌, ◌||◌, List, [], ◌∷◌, ◌++◌, Option, none,
  some, length, ltb, ◌==◌, if◌then◌else◌,
}
use ai_editor.Text.{Bytes, codes, str_eq, is_empty}
use ai_editor.Hash.{content_hash}
use ai_editor.Outcome.{Outcome, ok, err}
use ai_editor.Path.{PathPolicyKind, deny, skip_by_default, normal, ResolveResult}
use ai_editor.Disk.Action.{Exec, World, pure, fail, lift, attempt, require, continue, ◌>>=◌, ◌>>◌}
use ai_editor.Disk.{Host, read_file, current_timestamp_ms, resolve}
use ai_editor.Patch.Encoding.{FileState, read_text_file}
use ai_editor.Patch.Base.{PatchBase, base_matches, preview_status_error_message}
use ai_editor.Patch.Diff.{make_context_diff}
use ai_editor.Patch.Store.{
  Settings, PreviewRecord, PreviewStatusRecord, getlines, preview_of, preview_meta_path,
  preview_content_path, save_preview_status, load_preview_status, save_preview_record,
  remove_preview_content_and_meta, ensure_bridge_dirs, make_preview_id,
}
use ai_editor.Patch.Cleanup.{cleanup_old_previews, cleanup_old_preview_statuses}

pub record PatchPreviewResult : Type 0 where
  pub path : Bytes
  pub preview_id : Bytes
  pub applicable : Bool
  pub encoding : Bytes
  pub bom : Bool
  pub eol : Bytes
  pub current_mtime : Bytes
  pub current_hash : Bytes
  pub new_content_hash : Bytes
  pub preview_created_at : Bytes
  pub preview_expires_at : Bytes
  pub diff : Bytes

-- A preview that was loaded: its record and its content.
pub record LoadedPreview : Type 0 where
  pub rec : PreviewRecord
  pub content : Bytes

abbrev pub is_deny : PathPolicyKind → Bool
is_deny deny = true
is_deny _ = false

abbrev pub allowed : Outcome ResolveResult → Outcome ResolveResult
allowed (err e) = err e
allowed (ok resolved) =
    if is_deny resolved.policy then err (codes "path denied by policy") else ok resolved

-- The paths that a patch may touch.
unfoldable pub resolve_allowed : Host → Bytes → Outcome ResolveResult
unfolding resolve
resolve_allowed host path = allowed (resolve host path)

module _ (host : Host) (settings : Settings) where
  -- The error for a preview without metadata.
  unfoldable pub missing_preview : Bytes → Exec LoadedPreview
  unfolding load_preview_status preview_status_error_message
  missing_preview preview_id w =
      let (status, w') = load_preview_status host preview_id w in
      (
        err (elim status [
          | none ↦ codes "preview not found"
          | some status ↦ preview_status_error_message status.state
        ]),
        w',
      )

  -- The preview is marked as invalid, and removed.
  invalidate : Bytes → Bytes → Exec LoadedPreview
  unfolding save_preview_status remove_preview_content_and_meta
  invalidate preview_id message = do
    save_preview_status host preview_id (codes "invalid")
    remove_preview_content_and_meta host preview_id
    fail message

  expire : Bytes → Exec LoadedPreview
  unfolding save_preview_status remove_preview_content_and_meta cleanup_old_preview_statuses
  expire preview_id = do
    save_preview_status host preview_id (codes "expired")
    remove_preview_content_and_meta host preview_id
    cleanup_old_preview_statuses host settings.preview_status_keep_count
    fail (codes "preview expired")

  -- Whether the preview is too old; the clock is read only if there is a limit.
  is_expired : PreviewRecord → Exec Bool
  unfolding current_timestamp_ms
  is_expired rec =
      if ltb 0 settings.preview_ttl_ms && ltb 0 rec.created_at_ms
      then (current_timestamp_ms host >>= λ now.
          pure (ltb ((rec.created_at_ms + settings.preview_ttl_ms) % 2 ^ 64) now))
      else pure false

  load_content : Bytes → PreviewRecord → Exec LoadedPreview
  unfolding read_file preview_content_path invalidate content_hash
  load_content preview_id rec w =
      let (text, w') = read_file host (preview_content_path host preview_id) w in
      elim text [
        | none ↦ invalidate preview_id (codes "preview content missing") w'
        | some t ↦
            if str_eq (content_hash t) rec.new_content_hash
            then (ok (record { rec = rec; content = t }), w')
            else invalidate preview_id (codes "preview content hash mismatch") w'
      ]

  load_unexpired : Bytes → PreviewRecord → Exec LoadedPreview
  unfolding is_expired expire load_content
  load_unexpired preview_id rec = do
    expired ← is_expired rec
    if expired then expire preview_id else load_content preview_id rec

  unfoldable pub load_parsed : Bytes → Option PreviewRecord → Exec LoadedPreview
  unfolding invalidate load_unexpired
  load_parsed preview_id none = invalidate preview_id (codes "preview metadata corrupted")
  load_parsed preview_id (some rec) = load_unexpired preview_id rec

  -- The part behind the reading of the metadata.
  unfoldable pub load_text : Bytes → Option Bytes → Exec LoadedPreview
  unfolding missing_preview load_parsed preview_of getlines
  load_text preview_id none = missing_preview preview_id
  load_text preview_id (some t) = load_parsed preview_id (preview_of (getlines [] t))

  unfoldable pub load_preview_record : Bytes → Exec LoadedPreview
  unfolding read_file preview_meta_path load_text
  load_preview_record preview_id w =
      let (text, w') = read_file host (preview_meta_path host preview_id) w in
      load_text preview_id text w'

  unfoldable pub format_timestamp_ms : ℕ → Bytes
  format_timestamp_ms value = if value == 0 then [] else host.iso_time value

  unfoldable pub preview_expires_at : PreviewRecord → Bytes
  unfolding format_timestamp_ms
  preview_expires_at rec =
      if settings.preview_ttl_ms == 0 || rec.created_at_ms == 0
      then []
      else format_timestamp_ms ((rec.created_at_ms + settings.preview_ttl_ms) % 2 ^ 64)

  -- The record of a preview of new content for a file, saved: from `make_preview_id` to the clean-up.
  unfoldable pub store_preview : Bytes → FileState → Bytes → Exec PreviewRecord
  unfolding ensure_bridge_dirs content_hash make_preview_id current_timestamp_ms save_preview_record
      cleanup_old_previews
  store_preview path state new_content = do
    ensure_bridge_dirs host
    preview_id ← make_preview_id host path state.hash (content_hash new_content)
    now ← current_timestamp_ms host
    let rec : PreviewRecord = record {
      preview_id = preview_id;
      path = path;
      current_mtime = state.mtime;
      current_hash = state.hash;
      new_content_hash = content_hash new_content;
      encoding = state.encoding;
      bom = state.bom;
      eol = state.eol;
      created_at_ms = now;
    }
    save_preview_record host rec new_content
    cleanup_old_previews host settings
    pure rec

  unfoldable pub patch_preview : Bytes → Bytes → PatchBase → Exec PatchPreviewResult
  unfolding resolve_allowed read_text_file store_preview base_matches make_context_diff
      format_timestamp_ms preview_expires_at
  patch_preview requested_path new_content base = do
    resolved ← lift (resolve_allowed host requested_path)
    state ← read_text_file host resolved.absolute_path true
    rec ← store_preview resolved.normalized_relative_path state new_content
    pure (record {
      path = rec.path;
      preview_id = rec.preview_id;
      applicable = base_matches base state;
      encoding = state.encoding;
      bom = state.bom;
      eol = state.eol;
      current_mtime = state.mtime;
      current_hash = state.hash;
      new_content_hash = rec.new_content_hash;
      preview_created_at = format_timestamp_ms rec.created_at_ms;
      preview_expires_at = preview_expires_at rec;
      diff = make_context_diff rec.path state.text new_content;
    })
