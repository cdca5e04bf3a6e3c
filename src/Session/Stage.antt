-- ===== src/Session/Stage.antt =====
-- session_service.cpp: the `edit_*` operations, which look at a file as it is and stage a change of
-- it. The four on a block differ in the operation and in the content (`edit_delete_block` has none).
pub mod Range
use ai_editor.Prelude.{
  ℕ, ◌+◌, ◌-◌, Bool, true, false, not, ◌&&◌, ◌||◌, List, [], ◌∷◌, ◌++◌, Option, none, some, length,
  take, drop, leb, if◌then◌else◌,
}
use ai_editor.Text.{Bytes, codes, str_eq, is_empty}
use ai_editor.Outcome.{Outcome, ok, err, map_ok}
use ai_editor.Document.{TextDocument, make_document_from_content, slice_range_text, bad_range}
use ai_editor.Disk.Action.{Exec, World, pure, fail, lift, continue, ◌>>=◌, ◌>>◌}
use ai_editor.Disk.{Host}
use ai_editor.Session.Types.{Selector, RiskHint, StagedChange}
use ai_editor.Session.Risk.{evaluate_risk, summarize_selector}
use ai_editor.Session.Edit.{CandidateRange, resolve_candidate, infer_anchor}
use ai_editor.Session.Store.{FileFingerprint, fingerprint_file}
use ai_editor.Session.Lifecycle.{SessionMutationResult, session_add}

-- `Selector selector;`
abbrev pub no_selector : Selector
no_selector = record {
  query = [];
  exact_path = [];
  directory_prefix = [];
  extension = [];
  anchor_before = [];
  anchor_after = [];
  occurrence = 1;
  from_end = false;
}

-- `StagedChange change;`, with the path and the base of a file.
abbrev pub fresh_change : Bytes → FileFingerprint → StagedChange
fresh_change path fp = record {
  change_id = [];
  session_id = [];
  operation = [];
  path = path;
  line_start = 0;
  line_end = 0;
  selector = no_selector;
  expected_content = [];
  base_mtime = fp.mtime;
  base_hash = fp.hash;
  new_content = [];
  selector_reason = [];
  anchor = [];
  risk = record { level = codes "low"; reasons = [] };
  created_at = [];
}

-- `change.selector_reason = summarize_selector(change); change.risk = evaluate_risk(change, count);`
assessed : StagedChange → ℕ → StagedChange
unfolding summarize_selector evaluate_risk
assessed change candidate_count =
    let described = record change { selector_reason = summarize_selector change } in
    record described { risk = evaluate_risk described candidate_count }

-- The change of `edit_replace_range`.
unfoldable pub range_staged : Bytes → FileFingerprint → ℕ → ℕ → Bytes → StagedChange
unfolding assessed
range_staged path fp line_start line_end new_content =
    assessed
      (record (fresh_change path fp) {
        operation = codes "replace_range";
        line_start = line_start;
        line_end = line_end;
        expected_content =
            slice_range_text (make_document_from_content fp.content fp.exists) line_start line_end;
        new_content = new_content;
      })
      1

unfoldable pub range_change : Bytes → FileFingerprint → ℕ → ℕ → Bytes → Outcome StagedChange
unfolding range_staged
range_change path fp line_start line_end new_content =
    if bad_range line_start line_end (make_document_from_content fp.content fp.exists).lines
    then err (codes "invalid line range")
    else ok (range_staged path fp line_start line_end new_content)

-- The change of an operation on a block, where the selector gives `chosen`.
unfoldable pub selected_change :
    Bytes → Bytes → FileFingerprint → Selector → Bytes → ℕ → CandidateRange → StagedChange
unfolding assessed infer_anchor
selected_change operation path fp selector new_content candidate_count chosen =
    assessed
      (record (fresh_change path fp) {
        operation = operation;
        selector = selector;
        expected_content = take (chosen.end - chosen.start) (drop chosen.start fp.content);
        new_content = new_content;
        anchor = infer_anchor selector;
      })
      candidate_count

unfoldable pub block_change :
    Bytes → Bytes → FileFingerprint → Selector → Bytes → Outcome StagedChange
unfolding selected_change resolve_candidate
block_change operation path fp selector new_content =
    let (resolved, candidate_count) = resolve_candidate fp.content selector in
    map_ok (selected_change operation path fp selector new_content candidate_count) resolved

-- The last lines of `edit_replace_content`.
whole_file_risk : StagedChange → RiskHint
whole_file_risk change =
    if leb 512 (length change.expected_content)
    then record {
      level = if str_eq change.risk.level (codes "low") then codes "medium" else change.risk.level;
      reasons = change.risk.reasons ++ (codes "whole-file-rewrite" ∷ []);
    }
    else change.risk

-- The change of `edit_replace_content`.
unfoldable pub content_change :
    Bytes → FileFingerprint → Bytes → Bytes → Bytes → Bytes → Bytes → StagedChange
unfolding evaluate_risk whole_file_risk
content_change path fp expected_content new_content operation selector_reason anchor =
    let change = record (fresh_change path fp) {
      operation = if is_empty operation then codes "replace_content" else operation;
      expected_content = if is_empty expected_content then fp.content else expected_content;
      new_content = new_content;
      anchor = anchor;
      selector_reason =
          if is_empty selector_reason
          then codes "structure-adapter whole-file rewrite"
          else selector_reason;
    } in
    let assessed_change = record change { risk = evaluate_risk change 1 } in
    record assessed_change { risk = whole_file_risk assessed_change }

module _ (host : Host) where
  unfoldable pub edit_replace_range : Bytes → Bytes → ℕ → ℕ → Bytes → Exec SessionMutationResult
  unfolding fingerprint_file range_change session_add
  edit_replace_range session_id path line_start line_end new_content = do
    fp ← fingerprint_file host path
    change ← lift (range_change path fp line_start line_end new_content)
    session_add host session_id change

  unfoldable pub edit_block : Bytes → Bytes → Bytes → Selector → Bytes → Exec SessionMutationResult
  unfolding fingerprint_file block_change session_add
  edit_block operation session_id path selector new_content = do
    fp ← fingerprint_file host path
    change ← lift (block_change operation path fp selector new_content)
    session_add host session_id change

  unfoldable pub edit_replace_block : Bytes → Bytes → Selector → Bytes → Exec SessionMutationResult
  unfolding edit_block
  edit_replace_block = edit_block (codes "replace_block")

  unfoldable pub edit_insert_before : Bytes → Bytes → Selector → Bytes → Exec SessionMutationResult
  unfolding edit_block
  edit_insert_before = edit_block (codes "insert_before")

  unfoldable pub edit_insert_after : Bytes → Bytes → Selector → Bytes → Exec SessionMutationResult
  unfolding edit_block
  edit_insert_after = edit_block (codes "insert_after")

  unfoldable pub edit_delete_block : Bytes → Bytes → Selector → Exec SessionMutationResult
  unfolding edit_block
  edit_delete_block session_id path selector =
      edit_block (codes "delete_block") session_id path selector []

  unfoldable pub edit_replace_content :
      Bytes → Bytes → Bytes → Bytes → Bytes → Bytes → Bytes → Exec SessionMutationResult
  unfolding fingerprint_file content_change session_add
  edit_replace_content session_id path expected_content new_content operation selector_reason
        anchor =
      do
        fp ← fingerprint_file host path
        session_add host session_id
            (content_change path fp expected_content new_content operation selector_reason anchor)
