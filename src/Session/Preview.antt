-- ===== src/Session/Preview.antt =====
-- session_service.cpp: `session_preview`.
pub mod Keeps
use ai_editor.Prelude.{
  ℕ, suc, ◌+◌, Bool, true, false, not, ◌&&◌, ◌||◌, List, [], ◌∷◌, ◌++◌, length, map, ltb, leb, ◌==◌,
  if◌then◌else◌,
}
use ai_editor.Text.{Bytes, codes, str_eq, is_empty}
use ai_editor.Outcome.{Outcome, ok, err}
use ai_editor.Disk.Action.{Exec, World, pure, continue, ◌>>=◌, ◌>>◌}
use ai_editor.Disk.{Host}
use ai_editor.Session.Types.{RiskHint, SessionInspectItem}
use ai_editor.Session.Codec.{SessionMeta}
use ai_editor.Session.Risk.{append_one, append_unique, join_csv, aggregate_session_risk}
use ai_editor.Session.Store.{ensure_active_session}
use ai_editor.Session.Lifecycle.{enter_state}
use ai_editor.Session.Recovery.{recovery_check}
use ai_editor.Session.Plan.{PlannedFile, build_planned_files}
use ai_editor.Session.Commit.{check_ready}
use ai_editor.Session.Summary.{
  DiffStats, analyze_lines, SessionInspectFile, summarize_inspect_file, file_risk,
  SessionPreviewFile, summarize_preview_file, summarize_session_overview, highlights_of,
  count_level,
}
use ai_editor.Patch.Store.{Settings, getlines}
use ai_editor.Patch.Preview.{PatchPreviewResult, patch_preview}

pub record SessionPreviewResult : Type 0 where
  pub session_id : Bytes
  pub state : Bytes
  pub staged_change_count : ℕ
  pub previewed_file_count : ℕ
  pub total_hunk_count : ℕ
  pub total_added_line_count : ℕ
  pub total_removed_line_count : ℕ
  pub high_risk_file_count : ℕ
  pub medium_risk_file_count : ℕ
  pub risk_level : Bytes
  pub summary : Bytes
  pub files : List SessionPreviewFile
  pub highlights : List Bytes
  pub risk_reasons : List Bytes

abbrev add_if : Bool → Bytes → List Bytes → List Bytes
unfolding append_one
add_if b reason reasons = if b then append_one reasons reason else reasons

-- The reasons of a file after its preview.
preview_reasons : PlannedFile → PatchPreviewResult → DiffStats → List Bytes
unfolding add_if
preview_reasons file preview stats =
    add_if (leb 20 (stats.added_line_count + stats.removed_line_count)) (codes "large-diff") (
      add_if (leb 3 stats.hunk_count) (codes "multi-hunk-change")
        (add_if (not preview.applicable) (codes "preview-not-applicable") file.risk.reasons))

unfoldable pub preview_entry :
    PlannedFile → SessionInspectFile → PatchPreviewResult → SessionPreviewFile
unfolding analyze_lines getlines preview_reasons join_csv summarize_preview_file
preview_entry file inspect preview =
    let stats = analyze_lines (getlines [] preview.diff) in
    let reasons = preview_reasons file preview stats in
    let entry : SessionPreviewFile = record {
      path = file.path;
      preview_id = preview.preview_id;
      diff = preview.diff;
      selector_summary = if is_empty file.items then [] else join_csv inspect.selector_reasons 2;
      risk_level =
          if ltb (length file.risk.reasons) (length reasons) && str_eq file.risk.level (codes "low")
          then codes "medium"
          else file.risk.level;
      change_count = length file.items;
      hunk_count = stats.hunk_count;
      added_line_count = stats.added_line_count;
      removed_line_count = stats.removed_line_count;
      first_line = if is_empty file.items then 0 else inspect.first_line;
      last_line = if is_empty file.items then 0 else inspect.last_line;
      risk_reasons = reasons;
      summary = [];
      applicable = preview.applicable;
    } in
    record entry { summary = summarize_preview_file entry }

total : (SessionPreviewFile → ℕ) → List SessionPreviewFile → ℕ
total count [] = 0
total count (file ∷ files) = count file + total count files

change_total : List PlannedFile → ℕ
change_total [] = 0
change_total (file ∷ files) = length file.items + change_total files

all_reasons : List Bytes → List SessionPreviewFile → List Bytes
unfolding append_unique
all_reasons reasons [] = reasons
all_reasons reasons (file ∷ files) = all_reasons (append_unique reasons file.risk_reasons) files

-- The risk of the session, from its files and the size of their diffs.
unfoldable pub preview_risk : List SessionInspectFile → List SessionPreviewFile → ℕ → RiskHint
unfolding aggregate_session_risk append_unique append_one all_reasons total
preview_risk inspect_files files staged_change_count =
    let aggregate = aggregate_session_risk (map file_risk inspect_files) staged_change_count in
    let many_hunks = leb 4 (total (λ file. file.hunk_count) files) in
    let large = leb 30 (
      total (λ file. file.added_line_count) files
      + total (λ file. file.removed_line_count) files) in
    let level =
      if many_hunks && str_eq aggregate.level (codes "low")
      then codes "medium"
      else aggregate.level in
    record {
      level = if large && not (str_eq level (codes "high")) then codes "medium" else level;
      reasons = add_if large (codes "large-session-diff") (
          add_if many_hunks (codes "multi-hunk-session")
            (append_unique aggregate.reasons (all_reasons [] files)));
    }

preview_result :
    Bytes
    → Bytes
    → List PlannedFile
    → List SessionInspectFile
    → List SessionPreviewFile
    → SessionPreviewResult
unfolding total change_total preview_risk summarize_session_overview highlights_of count_level
preview_result session_id state planned inspect_files files =
    let changes = change_total planned in
    let risk = preview_risk inspect_files files changes in
    let levels = map (λ (file : SessionPreviewFile). file.risk_level) files in
    record {
      session_id = session_id;
      state = state;
      staged_change_count = changes;
      previewed_file_count = length files;
      total_hunk_count = total (λ file. file.hunk_count) files;
      total_added_line_count = total (λ file. file.added_line_count) files;
      total_removed_line_count = total (λ file. file.removed_line_count) files;
      high_risk_file_count = count_level (codes "high") levels;
      medium_risk_file_count = count_level (codes "medium") levels;
      risk_level = risk.level;
      summary =
          summarize_session_overview (codes "preview") (length files) changes risk.level
            risk.reasons;
      files = files;
      highlights =
          highlights_of
            (map (λ (file : SessionPreviewFile). (file.risk_level, file.summary)) files);
      risk_reasons = risk.reasons;
    }

inspect_planned : PlannedFile → SessionInspectFile
unfolding summarize_inspect_file
inspect_planned file = summarize_inspect_file file.path file.items file.risk

module _ (host : Host) (settings : Settings) where
  preview_files : List PlannedFile → Exec (List SessionPreviewFile)
  unfolding patch_preview preview_entry inspect_planned
  preview_files [] = pure []
  preview_files (file ∷ files) = do
    preview ←
        patch_preview host settings file.path file.final_content (record { mtime = []; hash = [] })
    rest ← preview_files files
    pure (preview_entry file (inspect_planned file) preview ∷ rest)

  unfoldable pub session_preview : Bytes → Exec SessionPreviewResult
  unfolding ensure_active_session recovery_check check_ready build_planned_files preview_files
      inspect_planned preview_result enter_state
  session_preview session_id = do
    meta ← ensure_active_session host session_id
    check ← recovery_check host session_id
    λ w. (check_ready check, w)
    planned ← build_planned_files host session_id
    files ← preview_files planned
    let state = if is_empty planned then meta.state else codes "previewed"
    next ← enter_state host meta state
    pure (preview_result session_id state planned (map inspect_planned planned) files)
