-- ===== src/Patch/Preview/Keeps.antt =====
-- Making and loading a preview leaves the workspace's own files alone.
use ai_editor.Prelude.{◌%◌, ◌^◌, ◌+◌, ◌&&◌, ◌∙◌, true, Option, none, some, if◌then◌else◌}
use ai_editor.Text.{Bytes, codes}
use ai_editor.Outcome.{ok}
use ai_editor.Path.{ResolveResult}
use ai_editor.Disk.{Host, read_file, current_timestamp_ms}
use ai_editor.Disk.Action.{◌>>◌, pure, ◌>>=◌}
use ai_editor.Disk.Keeps.{
  Keeps, Keeps-bind, Keeps-pure, Keeps-fail, Keeps-lift, Keeps-choose, Keeps-if, Keeps-read_file,
  Keeps-bind_with, Keeps-current_timestamp_ms,
}
use ai_editor.Session.Store.Keeps.{Apart, Relative}
use ai_editor.Patch.Store.Keeps.{
  Keeps-load_preview_status, Keeps-save_preview_status, Keeps-remove_preview_content_and_meta,
  Keeps-save_preview_record, Keeps-ensure_bridge_dirs, Keeps-make_preview_id,
  make_preview_id-Relative,
}
use ai_editor.Patch.Cleanup.Keeps.{Keeps-cleanup_old_previews, Keeps-cleanup_old_preview_statuses}
use ai_editor.Patch.Encoding.Keeps.{Keeps-read_text_file}
use ai_editor.Patch.Store.{Settings, PreviewRecord}
use ai_editor.Patch.Encoding.{FileState}
use ai_editor.Patch.Base.{PatchBase}
use ai_editor.Patch.Preview.{
  patch_preview, load_preview_record, resolve_allowed, missing_preview, invalidate, expire,
  load_content, preview_content_path, str_eq, is_expired, load_parsed, preview_meta_path, ℕ,
  content_hash, ltb, load_unexpired, preview_of, getlines, [], LoadedPreview, store_preview,
  save_preview_record, cleanup_old_previews, load_text,
}

module _ (host : Host) (settings : Settings) (q : Bytes) (apart : Apart host q) where
  module _ (id : Bytes) (rel : Relative id) where
    Keeps-missing_preview : Keeps q (missing_preview host settings id)
    unfolding missing_preview
    Keeps-missing_preview = record { at = λ w. Keeps-load_preview_status host q id w }

    Keeps-invalidate : (message : Bytes) → Keeps q (invalidate host settings id message)
    unfolding invalidate
    Keeps-invalidate message =
        Keeps-bind (Keeps-save_preview_status host q apart id rel (codes "invalid")) (λ u.
          Keeps-bind (Keeps-remove_preview_content_and_meta host q apart id rel)
            (λ u. Keeps-fail {e = message}))

    Keeps-expire : Keeps q (expire host settings id)
    unfolding expire
    Keeps-expire =
        Keeps-bind (Keeps-save_preview_status host q apart id rel (codes "expired")) (λ u.
          Keeps-bind (Keeps-remove_preview_content_and_meta host q apart id rel) (λ u.
            Keeps-bind
              (Keeps-cleanup_old_preview_statuses host q apart settings.preview_status_keep_count)
              (λ u. Keeps-fail {e = codes "preview expired"})))

    Keeps-loaded :
        (rec : PreviewRecord) (o : Option Bytes)
        → Keeps {A = LoadedPreview} q (λ w. elim o [
          | none ↦ invalidate host settings id (codes "preview content missing") w
          | some t ↦
              if str_eq (content_hash t) rec.new_content_hash
              then (ok (record { rec = rec; content = t }), w)
              else invalidate host settings id (codes "preview content hash mismatch") w
        ])
    Keeps-loaded rec none = Keeps-invalidate (codes "preview content missing")
    Keeps-loaded rec (some t) =
        Keeps-choose (λ w. str_eq (content_hash t) rec.new_content_hash)
          (Keeps-pure {a = record { rec = rec; content = t }})
          (Keeps-invalidate (codes "preview content hash mismatch"))

    Keeps-load_content : (rec : PreviewRecord) → Keeps q (load_content host settings id rec)
    unfolding load_content
    Keeps-load_content rec = record {
      at = λ w.
          let (text, w') = read_file host (preview_content_path host id) w in
          (Keeps-loaded rec text).at w' ∙ Keeps-read_file host q (preview_content_path host id) w;
    }

    Keeps-is_expired : (rec : PreviewRecord) → Keeps q (is_expired host settings rec)
    unfolding is_expired
    Keeps-is_expired rec =
        Keeps-if (ltb 0 settings.preview_ttl_ms && ltb 0 rec.created_at_ms)
          (Keeps-bind (Keeps-current_timestamp_ms host q) (λ now.
            Keeps-pure {a = ltb ((rec.created_at_ms + settings.preview_ttl_ms) % 2 ^ 64) now}))
          Keeps-pure

    Keeps-load_parsed : (o : Option PreviewRecord) → Keeps q (load_parsed host settings id o)
    unfolding load_parsed load_unexpired
    Keeps-load_parsed none = Keeps-invalidate (codes "preview metadata corrupted")
    Keeps-load_parsed (some rec) =
        Keeps-bind (Keeps-is_expired rec)
          (λ expired. Keeps-if expired Keeps-expire (Keeps-load_content rec))

    Keeps-load_text : (o : Option Bytes) → Keeps q (load_text host settings id o)
    unfolding load_text
    Keeps-load_text none = Keeps-missing_preview
    Keeps-load_text (some t) = Keeps-load_parsed (preview_of (getlines [] t))

    pub Keeps-load_preview_record : Keeps q (load_preview_record host settings id)
    unfolding load_preview_record
    Keeps-load_preview_record = record {
      at = λ w.
          let (text, w') = read_file host (preview_meta_path host id) w in
          (Keeps-load_text text).at w' ∙ Keeps-read_file host q (preview_meta_path host id) w;
    }

  abbrev preview_record : Bytes → FileState → Bytes → Bytes → ℕ → PreviewRecord
  preview_record path state new_content_hash preview_id now = record {
    preview_id = preview_id;
    path = path;
    current_mtime = state.mtime;
    current_hash = state.hash;
    new_content_hash = new_content_hash;
    encoding = state.encoding;
    bom = state.bom;
    eol = state.eol;
    created_at_ms = now;
  }

  Keeps-store_preview :
      (path : Bytes) (state : FileState) (new_content : Bytes)
      → Keeps q (store_preview host settings path state new_content)
  unfolding store_preview
  Keeps-store_preview path state new_content =
      let hash = content_hash new_content in
      Keeps-bind (Keeps-ensure_bridge_dirs host q) (λ u.
        Keeps-bind_with
          {f = λ id. current_timestamp_ms host >>= λ now.
            save_preview_record host (preview_record path state hash id now) new_content
            >> (cleanup_old_previews host settings >> pure (preview_record path state hash id now))}
          (Keeps-make_preview_id host q path state.hash hash)
          (λ v id made. Keeps-bind (Keeps-current_timestamp_ms host q) (λ now.
            let rec = preview_record path state hash id now in
            Keeps-bind
              (Keeps-save_preview_record host q apart rec new_content
                (make_preview_id-Relative host path state.hash hash v id made))
              (λ u.
                Keeps-bind (Keeps-cleanup_old_previews host q apart settings)
                  (λ u. Keeps-pure {a = rec})))))

  pub Keeps-patch_preview :
      (requested_path new_content : Bytes) (base : PatchBase)
      → Keeps q (patch_preview host settings requested_path new_content base)
  unfolding patch_preview
  Keeps-patch_preview requested_path new_content base =
      Keeps-bind (Keeps-lift {r = resolve_allowed host requested_path})
        (λ (resolved : ResolveResult).
          Keeps-bind (Keeps-read_text_file host q resolved.absolute_path true)
            (λ (state : FileState).
              Keeps-bind (Keeps-store_preview resolved.normalized_relative_path state new_content)
                (λ rec. Keeps-pure)))
