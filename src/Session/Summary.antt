-- ===== src/Session/Summary.antt =====
-- session_service.cpp: `analyze_diff` and the summaries of files and of a session.
use ai_editor.Prelude.{
  ℕ, suc, Bool, true, false, not, ◌&&◌, ◌||◌, List, [], ◌∷◌, ◌++◌, length, ltb, leb, ◌==◌,
  if◌then◌else◌,
}
use ai_editor.Text.{Bytes, codes, str_eq, is_empty, starts_with}
use ai_editor.Text.Decimal.{to_decimal}
use ai_editor.Session.Types.{RiskHint, SessionInspectItem}
use ai_editor.Session.Risk.{append_one, join_csv, FileRisk}

pub record DiffStats : Type 0 where
  pub hunk_count : ℕ
  pub added_line_count : ℕ
  pub removed_line_count : ℕ

count_line : Bytes → DiffStats → DiffStats
unfolding starts_with
count_line l stats =
    if starts_with l (codes "@@")
    then record stats { hunk_count = suc stats.hunk_count }
    else if starts_with l (codes "+") && not (starts_with l (codes "+++"))
    then record stats { added_line_count = suc stats.added_line_count }
    else if starts_with l (codes "-") && not (starts_with l (codes "---"))
    then record stats { removed_line_count = suc stats.removed_line_count }
    else stats

-- The counts of the lines of a diff; their order plays no part.
unfoldable pub analyze_lines : List Bytes → DiffStats
unfolding count_line
analyze_lines [] = record { hunk_count = 0; added_line_count = 0; removed_line_count = 0 }
analyze_lines (l ∷ lines) = count_line l (analyze_lines lines)

pub record SessionInspectFile : Type 0 where
  pub path : Bytes
  pub change_count : ℕ
  pub first_line : ℕ
  pub last_line : ℕ
  pub risk_level : Bytes
  pub risk_reasons : List Bytes
  pub anchors : List Bytes
  pub selector_reasons : List Bytes
  pub summary : Bytes

-- The lines that the items of a file touch, `have_line` with them, and their texts.
pub record Touched : Type 0 where
  pub have_line : Bool
  pub first_line : ℕ
  pub last_line : ℕ
  pub anchors : List Bytes
  pub selector_reasons : List Bytes

touch_lines : SessionInspectItem → Touched → Touched
touch_lines item file = if item.line_start == 0 then file else record file {
  have_line = true;
  first_line =
      if not file.have_line || ltb item.line_start file.first_line
      then item.line_start
      else file.first_line;
  last_line =
      if not file.have_line || ltb file.last_line item.line_end
      then item.line_end
      else file.last_line;
}

-- The loop over the items.
unfoldable pub touch_items : List SessionInspectItem → Touched → Touched
unfolding touch_lines append_one
touch_items [] file = file
touch_items (item ∷ items) file =
    let next = touch_lines item file in
    touch_items items (record next {
      anchors = append_one next.anchors item.anchor;
      selector_reasons = append_one next.selector_reasons item.selector_reason;
    })

abbrev plural : ℕ → Bytes
plural n = if n == 1 then [] else codes "s"

risk_part : Bytes → RiskHint → Bytes
unfolding join_csv
risk_part before risk =
    if is_empty risk.reasons
    then []
    else before
      ++ (codes "risk " ++ (risk.level ++ (codes " (" ++ (join_csv risk.reasons 3 ++ codes ")"))))

inspect_summary : Bytes → ℕ → Touched → RiskHint → Bytes
unfolding to_decimal join_csv risk_part
inspect_summary path change_count file risk =
    path
    ++ (codes ": "
        ++ (to_decimal change_count
            ++ (codes " staged change"
                ++ (plural change_count
                    ++ ((if file.have_line
                          then codes " touching lines "
                            ++ (to_decimal file.first_line
                                ++ (codes "-" ++ to_decimal file.last_line))
                          else [])
                        ++ ((if is_empty file.selector_reasons
                              then []
                              else codes "; selector " ++ join_csv file.selector_reasons 2)
                            ++ risk_part (codes "; ") risk))))))

unfoldable pub summarize_inspect_file :
    Bytes → List SessionInspectItem → RiskHint → SessionInspectFile
unfolding touch_items inspect_summary
summarize_inspect_file path items risk =
    let file = touch_items items (record {
      have_line = false;
      first_line = 0;
      last_line = 0;
      anchors = [];
      selector_reasons = [];
    }) in
    record {
      path = path;
      change_count = length items;
      first_line = file.first_line;
      last_line = file.last_line;
      risk_level = risk.level;
      risk_reasons = risk.reasons;
      anchors = file.anchors;
      selector_reasons = file.selector_reasons;
      summary = inspect_summary path (length items) file risk;
    }

abbrev pub file_risk : SessionInspectFile → FileRisk
file_risk file = record { risk_level = file.risk_level; risk_reasons = file.risk_reasons }

pub record SessionPreviewFile : Type 0 where
  pub path : Bytes
  pub preview_id : Bytes
  pub diff : Bytes
  pub selector_summary : Bytes
  pub risk_level : Bytes
  pub change_count : ℕ
  pub hunk_count : ℕ
  pub added_line_count : ℕ
  pub removed_line_count : ℕ
  pub first_line : ℕ
  pub last_line : ℕ
  pub risk_reasons : List Bytes
  pub summary : Bytes
  pub applicable : Bool

unfoldable pub summarize_preview_file : SessionPreviewFile → Bytes
unfolding to_decimal risk_part
summarize_preview_file file =
    file.path
    ++ (codes ": "
        ++ (to_decimal file.change_count
            ++ (codes " change"
                ++ (plural file.change_count
                    ++ (codes ", "
                        ++ (to_decimal file.hunk_count
                            ++ (codes " hunk"
                                ++ (plural file.hunk_count
                                    ++ (codes ", +"
                                        ++ (to_decimal file.added_line_count
                                            ++ (codes "/-"
                                                ++ (to_decimal file.removed_line_count
                                                    ++ ((if file.first_line == 0
                                                          then []
                                                          else codes ", lines "
                                                            ++ (to_decimal file.first_line
                                                            ++ (codes "-"
                                                            ++ to_decimal file.last_line)))
                                                        ++ risk_part (codes ", ") (record {
                                                          level = file.risk_level;
                                                          reasons = file.risk_reasons;
                                                        }))))))))))))))

unfoldable pub summarize_session_overview : Bytes → ℕ → ℕ → Bytes → List Bytes → Bytes
unfolding to_decimal join_csv
summarize_session_overview noun file_count change_count risk_level reasons =
    noun
    ++ (codes ": "
        ++ (to_decimal change_count
            ++ (codes " staged change"
                ++ (plural change_count
                    ++ (codes " across "
                        ++ (to_decimal file_count
                            ++ (codes " file"
                                ++ (plural file_count
                                    ++ (codes "; overall risk "
                                        ++ (risk_level
                                            ++ (if is_empty reasons
                                                then []
                                                else codes " ("
                                                  ++ (join_csv reasons 4 ++ codes ")"))))))))))))

-- What the highlights read of a file: its level and its summary.
abbrev Highlight : Type 0
Highlight = Bytes × Bytes

high_summaries : List Bytes → List Highlight → List Bytes
unfolding append_one
high_summaries highlights [] = highlights
high_summaries highlights ((level, summary) ∷ files) =
    high_summaries
      (if str_eq level (codes "high") then append_one highlights summary else highlights) files

-- The loop that stops at three.
first_summaries : List Bytes → List Highlight → List Bytes
unfolding append_one
first_summaries highlights [] = highlights
first_summaries highlights ((level, summary) ∷ files) =
    let next = append_one highlights summary in
    let rest = first_summaries next files in if leb 3 (length next) then next else rest

unfoldable pub highlights_of : List Highlight → List Bytes
unfolding high_summaries first_summaries
highlights_of files =
    if is_empty (high_summaries [] files) then first_summaries [] files else high_summaries [] files

unfoldable pub count_level : Bytes → List Bytes → ℕ
count_level level [] = 0
count_level level (l ∷ levels) =
    let rest = count_level level levels in if str_eq l level then suc rest else rest
