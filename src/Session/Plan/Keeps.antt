-- ===== src/Session/Plan/Keeps.antt =====
-- Planning the files of a session leaves the disk's files alone.
use ai_editor.Prelude.{List, [], ◌∷◌, Option, none, some}
use ai_editor.Text.{Bytes}
use ai_editor.Disk.{Host}
use ai_editor.Disk.Action.{pure, ◌>>=◌}
use ai_editor.Disk.Keeps.{Keeps, Keeps-bind, Keeps-pure, Keeps-lift}
use ai_editor.Session.Store.Keeps.{Keeps-load_document, Keeps-load_changes}
use ai_editor.Session.Plan.{
  PlannedFile, planned_file, new_planned, plan_changes, build_planned_files, load_document,
  StagedChange, planned_content, session_materialize_file, find_planned, plan_change, put_planned,
}

module _ (host : Host) (q : Bytes) where
  pub Keeps-planned_file :
      (path : Bytes) (files : List PlannedFile) → Keeps q (planned_file host path files)
  unfolding planned_file
  Keeps-planned_file path files = Keeps-found (find_planned path files)
    where
      Keeps-found :
          (o : Option PlannedFile)
          → Keeps q (elim o [
            | some file ↦ pure file
            | none ↦ load_document host path >>= λ doc. pure (new_planned path doc)
          ])
      Keeps-found none = Keeps-bind (Keeps-load_document host q path) (λ doc. Keeps-pure)
      Keeps-found (some file) = Keeps-pure

  Keeps-plan_changes :
      (changes : List StagedChange) (files : List PlannedFile)
      → Keeps q (plan_changes host changes files)
  unfolding plan_changes
  Keeps-plan_changes [] files = Keeps-pure
  Keeps-plan_changes (change ∷ changes) files =
      Keeps-bind (Keeps-planned_file change.path files) (λ file.
        Keeps-bind (Keeps-lift {r = plan_change change file})
          (λ next. Keeps-plan_changes changes (put_planned next files)))

  pub Keeps-build_planned_files :
      (session_id : Bytes) → Keeps q (build_planned_files host session_id)
  unfolding build_planned_files
  Keeps-build_planned_files session_id =
      Keeps-bind (Keeps-load_changes host q session_id) (λ changes. Keeps-plan_changes changes [])

  Keeps-planned_content :
      (path : Bytes) (files : List PlannedFile) → Keeps q (planned_content host path files)
  unfolding planned_content
  Keeps-planned_content path files = Keeps-found (find_planned path files)
    where
      Keeps-found :
          (o : Option PlannedFile)
          → Keeps q (elim o [
            | some file ↦ pure file.final_content
            | none ↦ load_document host path >>= λ doc. pure doc.content
          ])
      Keeps-found none = Keeps-bind (Keeps-load_document host q path) (λ doc. Keeps-pure)
      Keeps-found (some file) = Keeps-pure

  pub Keeps-session_materialize_file :
      (session_id path : Bytes) → Keeps q (session_materialize_file host session_id path)
  unfolding session_materialize_file
  Keeps-session_materialize_file session_id path =
      Keeps-bind (Keeps-build_planned_files session_id) (λ files. Keeps-planned_content path files)
