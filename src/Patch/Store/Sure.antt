-- ===== src/Patch/Store/Sure.antt =====
-- Where no call of the system fails, making the directories and the records of a backup succeeds.
use ai_editor.Prelude.{refl, [], if◌then◌else◌}
use ai_editor.Text.{Bytes, codes}
use ai_editor.Disk.{Host}
use ai_editor.Disk.Sure.{
  NoFaults, Succeeds, Succeeds-bind, Succeeds-create_directories, Succeeds-write_unchecked,
}
use ai_editor.Patch.Store.{
  BackupRecord, ensure_bridge_dirs, make_backup_id, save_backup_record, backup_meta_path,
  backups_dir, previews_dir, line,
}

module _ (host : Host) where
  pub Succeeds-make_backup_id : (rel_path : Bytes) → Succeeds (make_backup_id host rel_path)
  unfolding make_backup_id
  Succeeds-make_backup_id rel_path = record { at = λ w. (_, refl) }

  module _ (sure : NoFaults host) where
    pub Succeeds-ensure_bridge_dirs : Succeeds (ensure_bridge_dirs host)
    unfolding ensure_bridge_dirs
    Succeeds-ensure_bridge_dirs =
        Succeeds-bind (Succeeds-create_directories host sure (backups_dir host))
          (λ u. Succeeds-create_directories host sure (previews_dir host))

    pub Succeeds-save_backup_record :
        (id rel_path : Bytes) (rec : BackupRecord)
        → Succeeds (save_backup_record host id rel_path rec)
    unfolding save_backup_record
    Succeeds-save_backup_record id rel_path rec =
        Succeeds-write_unchecked host sure (backup_meta_path host id rel_path)
          (line (if rec.existed then codes "1" else codes "0") [])
          (codes "failed to write backup metadata")
