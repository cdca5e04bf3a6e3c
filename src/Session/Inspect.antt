-- ===== src/Session/Inspect.antt =====
-- session_service.cpp: `session_inspect`.
pub mod Keeps
use ai_editor.Prelude.{
  ℕ, suc, ◌+◌, Bool, true, false, not, ◌&&◌, ◌||◌, List, [], ◌∷◌, ◌++◌, length, map, ◌==◌,
  if◌then◌else◌,
}
use ai_editor.Text.{Bytes, codes, str_eq, str_lt, is_empty}
use ai_editor.Outcome.{Outcome, ok, err}
use ai_editor.Disk.Action.{Exec, World, pure, continue, ◌>>=◌, ◌>>◌}
use ai_editor.Disk.{Host}
use ai_editor.Session.Types.{RiskHint, StagedChange, SessionInspectItem}
use ai_editor.Session.Codec.{SessionMeta}
use ai_editor.Session.Risk.{max_risk_level, append_unique, aggregate_session_risk}
use ai_editor.Session.Store.{load_meta, load_changes}
use ai_editor.Session.Plan.{PlannedFile, build_planned_files}
use ai_editor.Session.Summary.{
  SessionInspectFile, summarize_inspect_file, file_risk, summarize_session_overview, highlights_of,
  count_level,
}

pub record SessionInspectResult : Type 0 where
  pub session_id : Bytes
  pub state : Bytes
  pub staged_change_count : ℕ
  pub staged_file_count : ℕ
  pub staged_block_count : ℕ
  pub high_risk_change_count : ℕ
  pub medium_risk_change_count : ℕ
  pub high_risk_file_count : ℕ
  pub medium_risk_file_count : ℕ
  pub risk_level : Bytes
  pub summary : Bytes
  pub items : List SessionInspectItem
  pub files : List SessionInspectFile
  pub highlights : List Bytes
  pub risk_reasons : List Bytes

-- The items and the risk of a path: an entry of `items_by_path` and of `risk_by_path`.
pub record PathItems : Type 0 where
  pub path : Bytes
  pub items : List SessionInspectItem
  pub risk : RiskHint

item_of_change : StagedChange → SessionInspectItem
item_of_change change = record {
  change_id = change.change_id;
  operation = change.operation;
  path = change.path;
  line_start = change.line_start;
  line_end = change.line_end;
  selector_reason = change.selector_reason;
  anchor = change.anchor;
  risk_level = change.risk.level;
}

add_change : StagedChange → PathItems → PathItems
unfolding item_of_change max_risk_level append_unique
add_change change entry = record entry {
  items = entry.items ++ (item_of_change change ∷ []);
  risk = record {
    level = max_risk_level entry.risk.level change.risk.level;
    reasons = append_unique entry.risk.reasons change.risk.reasons;
  };
}

-- The maps in the order of their keys, with the change added.
push_item : StagedChange → List PathItems → List PathItems
unfolding add_change
push_item change [] =
    add_change change (record {
      path = change.path;
      items = [];
      risk = record { level = codes "low"; reasons = [] };
    })
    ∷ []
push_item change (entry ∷ entries) =
    let later = push_item change entries in
    if str_eq entry.path change.path
    then add_change change entry ∷ entries
    else if str_lt change.path entry.path
    then add_change change (record {
      path = change.path;
      items = [];
      risk = record { level = codes "low"; reasons = [] };
    })
      ∷ entry
      ∷ entries
    else entry ∷ later

unfoldable pub items_by_path : List StagedChange → List PathItems → List PathItems
unfolding push_item
items_by_path [] entries = entries
items_by_path (change ∷ changes) entries = items_by_path changes (push_item change entries)

planned_items : List PlannedFile → List SessionInspectItem
planned_items [] = []
planned_items (file ∷ files) = file.items ++ planned_items files

-- The items and the maps, from the plan or, where there is none, from the changes.
unfoldable pub inspected :
    List StagedChange → Outcome (List PlannedFile) → List SessionInspectItem × List PathItems
unfolding planned_items item_of_change items_by_path
inspected changes (ok planned) = (
  planned_items planned,
  map (λ file. record { path = file.path; items = file.items; risk = file.risk }) planned,
)
inspected changes (err e) = (map item_of_change changes, items_by_path changes [])

inspect_result :
    Bytes
    → SessionMeta
    → List StagedChange
    → List SessionInspectItem
    → List SessionInspectFile
    → SessionInspectResult
unfolding aggregate_session_risk summarize_session_overview highlights_of count_level
inspect_result session_id meta changes items files =
    let risk = aggregate_session_risk (map file_risk files) (length changes) in
    let item_levels = map (λ (item : SessionInspectItem). item.risk_level) items in
    let file_levels = map (λ (file : SessionInspectFile). file.risk_level) files in
    record {
      session_id = session_id;
      state = meta.state;
      staged_change_count = length changes;
      staged_file_count = length files;
      staged_block_count = length changes;
      high_risk_change_count = count_level (codes "high") item_levels;
      medium_risk_change_count = count_level (codes "medium") item_levels;
      high_risk_file_count = count_level (codes "high") file_levels;
      medium_risk_file_count = count_level (codes "medium") file_levels;
      risk_level = risk.level;
      summary =
          summarize_session_overview (codes "inspect") (length files) (length changes) risk.level
            risk.reasons;
      items = items;
      files = files;
      highlights =
          highlights_of
            (map (λ (file : SessionInspectFile). (file.risk_level, file.summary)) files);
      risk_reasons = risk.reasons;
    }

module _ (host : Host) where
  unfoldable pub session_inspect : Bytes → Exec SessionInspectResult
  unfolding load_meta load_changes build_planned_files inspected summarize_inspect_file
      inspect_result
  session_inspect session_id = do
    meta ← load_meta host session_id
    changes ← load_changes host session_id
    planned ← λ w. let (planned, w') = build_planned_files host session_id w in (ok planned, w')
    let (items, entries) = inspected changes planned
    pure (
        inspect_result session_id meta changes items (
          map (λ (entry : PathItems). summarize_inspect_file entry.path entry.items entry.risk)
            entries))
