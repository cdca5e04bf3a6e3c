-- ===== src/Session/Plan.antt =====
-- session_service.cpp: the plan of a session, what its changes make of each file.
pub mod Content
pub mod Loaded
pub mod Keeps
use ai_editor.Prelude.{
  ℕ, suc, Bool, true, false, not, ◌&&◌, List, [], ◌∷◌, ◌++◌, Option, none, some, if◌then◌else◌,
}
use ai_editor.Text.{Bytes, codes, str_eq, str_lt}
use ai_editor.Outcome.{Outcome, ok, err, map_ok}
use ai_editor.Document.{TextDocument}
use ai_editor.Disk.Action.{Exec, World, pure, fail, lift, continue, ◌>>=◌, ◌>>◌}
use ai_editor.Disk.{Host}
use ai_editor.Session.Types.{RiskHint, StagedChange, SessionInspectItem}
use ai_editor.Session.Edit.{Applied, apply_change_to_content}
use ai_editor.Session.Store.{load_changes, load_document}

pub record PlannedFile : Type 0 where
  pub path : Bytes
  pub current_content : Bytes
  pub final_content : Bytes
  pub items : List SessionInspectItem
  pub risk : RiskHint

-- `by_path.find(path)`
unfoldable pub find_planned : Bytes → List PlannedFile → Option PlannedFile
find_planned path [] = none
find_planned path (file ∷ files) =
    if str_eq file.path path then some file else find_planned path files

-- The file in the map, in the order of the paths.
unfoldable pub put_planned : PlannedFile → List PlannedFile → List PlannedFile
put_planned file [] = file ∷ []
put_planned file (f ∷ files) =
    let later = put_planned file files in
    if str_eq f.path file.path
    then file ∷ files
    else if str_lt file.path f.path
    then file ∷ f ∷ files
    else f ∷ later

-- The level of a planned file after one more change.
raised : Bytes → Bytes → Bytes
raised level change_level =
    if str_eq change_level (codes "high")
    then codes "high"
    else if str_eq change_level (codes "medium") && not (str_eq level (codes "high"))
    then codes "medium"
    else level

-- A planned file after one more change, from what applying the change gave.
unfoldable pub with_change : StagedChange → PlannedFile → Applied → PlannedFile
unfolding raised
with_change change file applied = record file {
  final_content = applied.updated;
  items =
      file.items
      ++ (record {
        change_id = change.change_id;
        operation = change.operation;
        path = change.path;
        line_start = applied.line_start;
        line_end = applied.line_end;
        selector_reason = change.selector_reason;
        anchor = change.anchor;
        risk_level = change.risk.level;
      }
          ∷ []);
  risk = record {
    level = raised file.risk.level change.risk.level;
    reasons = file.risk.reasons ++ change.risk.reasons;
  };
}

-- One change on a planned file.
unfoldable pub plan_change : StagedChange → PlannedFile → Outcome PlannedFile
unfolding with_change apply_change_to_content
plan_change change file =
    map_ok (with_change change file) (apply_change_to_content change file.final_content)

abbrev pub new_planned : Bytes → TextDocument → PlannedFile
new_planned path doc = record {
  path = path;
  current_content = doc.content;
  final_content = doc.content;
  items = [];
  risk = record { level = codes "low"; reasons = [] };
}

module _ (host : Host) where
  -- The planned file of a path, made from the document if it is not planned yet.
  unfoldable pub planned_file : Bytes → List PlannedFile → Exec PlannedFile
  unfolding find_planned load_document
  planned_file path files = elim (find_planned path files) [
    | some file ↦ pure file
    | none ↦ load_document host path >>= λ doc. pure (new_planned path doc)
  ]

  unfoldable pub plan_changes : List StagedChange → List PlannedFile → Exec (List PlannedFile)
  unfolding planned_file plan_change put_planned
  plan_changes [] files = pure files
  plan_changes (change ∷ changes) files = do
    file ← planned_file change.path files
    next ← lift (plan_change change file)
    plan_changes changes (put_planned next files)

  unfoldable pub build_planned_files : Bytes → Exec (List PlannedFile)
  unfolding load_changes plan_changes
  build_planned_files session_id = do
    changes ← load_changes host session_id
    plan_changes changes []

  planned_content : Bytes → List PlannedFile → Exec Bytes
  unfolding find_planned load_document
  planned_content path files = elim (find_planned path files) [
    | some file ↦ pure file.final_content
    | none ↦ load_document host path >>= λ doc. pure doc.content
  ]

  unfoldable pub session_materialize_file : Bytes → Bytes → Exec Bytes
  unfolding build_planned_files planned_content
  session_materialize_file session_id path = do
    files ← build_planned_files session_id
    planned_content path files
