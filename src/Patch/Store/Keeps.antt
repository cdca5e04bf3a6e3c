-- ===== src/Patch/Store/Keeps.antt =====
-- Reading and writing backups, previews and their records leaves the workspace's own files alone.
use ai_editor.Prelude.{ℕ, ◌≡◌, refl, sym, ap, ◌∙◌, false, [], ◌∷◌, ◌++◌, arith, if◌then◌else◌}
use ai_editor.Text.{Bytes, codes, str_eq}
use ai_editor.Outcome.{ok, ok-injective}
use ai_editor.Path.{char_is}
use ai_editor.Disk.{Host, bridge_dir, write_unchecked}
use ai_editor.Disk.Action.{World}
use ai_editor.Disk.Keeps.{
  Keeps, FileKept, Keeps-bind, Keeps-attempt, Keeps-create_directories, Keeps-remove_path,
  Keeps-current_timestamp_ms, Keeps-write_unchecked, Keeps-read_file,
}
use ai_editor.Disk.Under.{Under, Under-apart, Under-join_path, Under-self}
use ai_editor.Session.Store.Keeps.{Apart, Relative, Relative-digits}
use ai_editor.Text.Decimal.Digits.{All-to_decimal}
use ai_editor.Patch.Store.{
  backups_dir, previews_dir, history_file, preview_meta_path, preview_content_path,
  preview_status_path, backup_file_path, backup_meta_path, to_decimal, ensure_bridge_dirs,
  make_backup_id, make_preview_id, remove_preview_content_and_meta, save_preview_status,
  save_preview_content, save_backup_record, save_preview_record, sanitize_rel_path, BackupRecord,
  PreviewRecord, line, preview_text, load_preview_status, hex64, fnv1a64,
}

module _ (host : Host) where
  abbrev top : Bytes
  top = bridge_dir host

  pub Under-backups_dir : Under top (backups_dir host)
  unfolding backups_dir
  Under-backups_dir = Under-join_path top top (codes "backups") refl (Under-self top)

  pub Under-previews_dir : Under top (previews_dir host)
  unfolding previews_dir
  Under-previews_dir = Under-join_path top top (codes "previews") refl (Under-self top)

  pub Under-history_file : Under top (history_file host)
  unfolding history_file
  Under-history_file = Under-join_path top top (codes "history.log") refl (Under-self top)

  Relative-extension : (id ext : Bytes) → Relative id → Relative ext → Relative (id ++ ext)
  Relative-extension [] ext rel relx = relx
  Relative-extension (c ∷ id) ext rel relx = rel

  module _ (id : Bytes) (rel : Relative id) where
    pub Under-preview_meta_path : Under top (preview_meta_path host id)
    unfolding preview_meta_path
    Under-preview_meta_path =
        Under-join_path top (previews_dir host) (id ++ codes ".meta")
          (Relative-extension id (codes ".meta") rel refl) Under-previews_dir

    pub Under-preview_content_path : Under top (preview_content_path host id)
    unfolding preview_content_path
    Under-preview_content_path =
        Under-join_path top (previews_dir host) (id ++ codes ".content")
          (Relative-extension id (codes ".content") rel refl) Under-previews_dir

    pub Under-preview_status_path : Under top (preview_status_path host id)
    unfolding preview_status_path
    Under-preview_status_path =
        Under-join_path top (previews_dir host) (id ++ codes ".status")
          (Relative-extension id (codes ".status") rel refl) Under-previews_dir

    module _ (rel_path : Bytes) where
      pub Under-backup_file_path : Under top (backup_file_path host id rel_path)
      unfolding backup_file_path
      Under-backup_file_path =
          let rest = codes "-" ++ (sanitize_rel_path rel_path ++ codes ".bak") in
          Under-join_path top (backups_dir host) (id ++ rest) (Relative-extension id rest rel refl)
            Under-backups_dir

      pub Under-backup_meta_path : Under top (backup_meta_path host id rel_path)
      unfolding backup_meta_path
      Under-backup_meta_path =
          let rest = codes "-" ++ (sanitize_rel_path rel_path ++ codes ".meta") in
          Under-join_path top (backups_dir host) (id ++ rest) (Relative-extension id rest rel refl)
            Under-backups_dir

  -- An id that begins with a number.
  pub Relative-made : (n : ℕ) (rest : Bytes) → Relative rest → Relative (to_decimal n ++ rest)
  Relative-made n rest rel = Relative-digits (to_decimal n) rest (All-to_decimal n) rel

  module _ (q : Bytes) where
    pub Keeps-ensure_bridge_dirs : Keeps q (ensure_bridge_dirs host)
    unfolding ensure_bridge_dirs
    Keeps-ensure_bridge_dirs =
        Keeps-bind (Keeps-create_directories host q (backups_dir host))
          (λ u. Keeps-create_directories host q (previews_dir host))

    pub Keeps-make_backup_id : (rel_path : Bytes) → Keeps q (make_backup_id host rel_path)
    unfolding make_backup_id
    Keeps-make_backup_id rel_path = record { at = λ w. refl }

    pub Keeps-make_preview_id : (a b c : Bytes) → Keeps q (make_preview_id host a b c)
    unfolding make_preview_id
    Keeps-make_preview_id a b c = record { at = λ w. refl }

    pub Keeps-load_preview_status :
        (id : Bytes) (w : World) → FileKept q w (load_preview_status host id w).1
    unfolding load_preview_status
    Keeps-load_preview_status id w = Keeps-read_file host q (preview_status_path host id) w

    module _ (apart : Apart host q) where
      elsewhere : (p : Bytes) → Under top p → str_eq p q ≡ false
      elsewhere p u = Under-apart top p q u apart

      module _ (id : Bytes) (rel : Relative id) where
        pub Keeps-remove_preview_content_and_meta :
            Keeps q (remove_preview_content_and_meta host id)
        unfolding remove_preview_content_and_meta
        Keeps-remove_preview_content_and_meta =
            Keeps-bind
              (Keeps-attempt (
                Keeps-remove_path host q (preview_meta_path host id)
                  (elsewhere (preview_meta_path host id) (Under-preview_meta_path id rel))))
              (λ u. Keeps-attempt (
                Keeps-remove_path host q (preview_content_path host id)
                  (elsewhere (preview_content_path host id) (Under-preview_content_path id rel))))

        pub Keeps-save_preview_status :
            (state : Bytes) → Keeps q (save_preview_status host id state)
        unfolding save_preview_status
        Keeps-save_preview_status state = Keeps-bind (Keeps-current_timestamp_ms host q) (λ now.
            Keeps-attempt (
              Keeps-write_unchecked host q (preview_status_path host id)
                (line state (line (to_decimal now) [])) (codes "failed to write preview status")
                (elsewhere (preview_status_path host id) (Under-preview_status_path id rel))))

        Keeps-save_preview_content : (text : Bytes) → Keeps q (save_preview_content host id text)
        unfolding save_preview_content
        Keeps-save_preview_content text = record {
          at = λ w. grind (arith, written, Keeps-remove_preview_content_and_meta.at);
        }
          where
            written :
                (w : World)
                → FileKept q w
                    (write_unchecked host
                      (preview_content_path host id)
                      text
                      (codes "failed to write preview content")
                      w).1
            written w =
                (Keeps-write_unchecked host q (preview_content_path host id) text
                    (codes "failed to write preview content")
                    (elsewhere (preview_content_path host id)
                      (Under-preview_content_path id rel))).at
                  w

        pub Keeps-save_backup_record :
            (rel_path : Bytes) (rec : BackupRecord)
            → Keeps q (save_backup_record host id rel_path rec)
        unfolding save_backup_record
        Keeps-save_backup_record rel_path rec =
            Keeps-write_unchecked host q (backup_meta_path host id rel_path)
              (line (if rec.existed then codes "1" else codes "0") [])
              (codes "failed to write backup metadata")
              (elsewhere (backup_meta_path host id rel_path)
                (Under-backup_meta_path id rel rel_path))

      pub Keeps-save_preview_record :
          (rec : PreviewRecord) (text : Bytes)
          → Relative rec.preview_id
          → Keeps q (save_preview_record host rec text)
      unfolding save_preview_record
      Keeps-save_preview_record rec text rel =
          let id = rec.preview_id in
          Keeps-bind
            (Keeps-attempt (
              Keeps-remove_path host q (preview_status_path host id)
                (elsewhere (preview_status_path host id) (Under-preview_status_path id rel))))
            (λ u.
              Keeps-bind
                (Keeps-write_unchecked host q (preview_meta_path host id) (preview_text rec)
                  (codes "failed to write preview metadata")
                  (elsewhere (preview_meta_path host id) (Under-preview_meta_path id rel)))
                (λ u. Keeps-save_preview_content id rel text))

  -- A made id begins with the time.
  pub make_preview_id-Relative :
      (a b c : Bytes) (w : World) (id : Bytes)
      → (make_preview_id host a b c w).0 ≡ ok id
      → Relative id
  unfolding make_preview_id
  make_preview_id-Relative a b c w id h =
      let rest = codes "-" ++ hex64 (fnv1a64 (a ++ (codes "|" ++ (b ++ (codes "|" ++ c))))) in
      ap (λ t. char_is t 0 b'/') (sym (ok-injective h))
      ∙ Relative-made (host.now_us w.step) rest refl

  pub make_backup_id-Relative :
      (rel_path : Bytes) (w : World) (id : Bytes)
      → (make_backup_id host rel_path w).0 ≡ ok id
      → Relative id
  unfolding make_backup_id
  make_backup_id-Relative rel_path w id h =
      let rest = codes "-" ++ hex64 (fnv1a64 rel_path) in
      ap (λ t. char_is t 0 b'/') (sym (ok-injective h))
      ∙ Relative-made (host.now_us w.step) rest refl
