-- ===== src/Session/Risk.antt =====
-- session_service.cpp: how risky a staged change, a file and a session are, and the short texts
-- that say so.
pub mod Levels
use ai_editor.Prelude.{
  ℕ, suc, ◌+◌, ◌-◌, Bool, false, not, ◌&&◌, ◌||◌, List, [], ◌∷◌, ◌++◌, length, take, ltb, leb, ◌==◌,
  if◌then◌else◌,
}
use ai_editor.Text.{Bytes, codes, str_eq, is_empty}
use ai_editor.Text.Decimal.{to_decimal}
use ai_editor.Session.Types.{RiskHint, StagedChange}

-- `std::find(values.begin(), values.end(), value) != values.end()`
unfoldable pub has : List Bytes → Bytes → Bool
has [] value = false
has (v ∷ values) value = str_eq v value || has values value

unfoldable pub count_newlines : Bytes → ℕ
count_newlines [] = 0
count_newlines (c ∷ text) = let rest = count_newlines text in if c == 10 then suc rest else rest

abbrev is_block : Bytes → Bool
is_block operation =
    str_eq operation (codes "replace_block")
    || str_eq operation (codes "insert_before")
    || str_eq operation (codes "insert_after")
    || str_eq operation (codes "delete_block")

replaced_line_count : StagedChange → ℕ
replaced_line_count change =
    if leb change.line_start change.line_end && not (change.line_start == 0)
    then change.line_end - change.line_start + 1
    else 0

unfoldable pub new_line_count : StagedChange → ℕ
unfolding count_newlines
new_line_count change =
    count_newlines change.new_content + (if is_empty change.new_content then 0 else 1)

-- The conditions with their reasons, in the order in which the reasons are pushed.
unfoldable pub risk_checks : StagedChange → ℕ → List (Bool × Bytes)
unfolding replaced_line_count new_line_count
risk_checks change candidate_count =
    (ltb 1 candidate_count, codes "multiple-candidates")
    ∷ (str_eq change.operation (codes "delete_block"), codes "destructive-delete")
    ∷ (
      str_eq change.operation (codes "replace_range") && leb 8 (replaced_line_count change),
      codes "large-range-replace",
    )
    ∷ (
      not (is_empty change.expected_content) && leb 160 (length change.expected_content),
      codes "large-target-block",
    )
    ∷ (leb 10 (new_line_count change), codes "large-insert")
    ∷ (leb 20 (new_line_count change), codes "very-large-insert")
    ∷ (
      is_block change.operation
          && is_empty change.selector.anchor_before
          && is_empty change.selector.anchor_after,
      codes "no-anchor",
    )
    ∷ (
      not (is_empty change.selector.query) && leb (length change.selector.query) 4,
      codes "short-selector-query",
    )
    ∷ (ltb 3 candidate_count, codes "low-selector-specificity")
    ∷ []

unfoldable pub reasons_of : List (Bool × Bytes) → List Bytes
reasons_of [] = []
reasons_of ((holds, reason) ∷ checks) =
    let rest = reasons_of checks in if holds then reason ∷ rest else rest

unfoldable pub risk_reasons : StagedChange → ℕ → List Bytes
unfolding risk_checks reasons_of
risk_reasons change candidate_count = reasons_of (risk_checks change candidate_count)

-- `high`, in the order of its tests
unfoldable pub is_high : ℕ → List Bytes → Bool
unfolding has
is_high candidate_count reasons =
    ltb 1 candidate_count
    || has reasons (codes "destructive-delete")
    || has reasons (codes "very-large-insert")
    || has reasons (codes "low-selector-specificity")

unfoldable pub level_of : Bool → List Bytes → Bytes
level_of high reasons =
    if high then codes "high" else if is_empty reasons then codes "low" else codes "medium"

unfoldable pub evaluate_risk : StagedChange → ℕ → RiskHint
unfolding risk_reasons is_high level_of
evaluate_risk change candidate_count =
    let reasons = risk_reasons change candidate_count in
    record { level = level_of (is_high candidate_count reasons) reasons; reasons = reasons }

unfoldable pub risk_rank : Bytes → ℕ
risk_rank level =
    if str_eq level (codes "high") then 3 else if str_eq level (codes "medium") then 2 else 1

unfoldable pub max_risk_level : Bytes → Bytes → Bytes
unfolding risk_rank
max_risk_level lhs rhs = if leb (risk_rank rhs) (risk_rank lhs) then lhs else rhs

-- `append_unique` of one value
unfoldable pub append_one : List Bytes → Bytes → List Bytes
unfolding has
append_one dest value =
    if is_empty value then dest else if has dest value then dest else dest ++ (value ∷ [])

-- `append_unique` of a list
unfoldable pub append_unique : List Bytes → List Bytes → List Bytes
unfolding append_one
append_unique dest [] = dest
append_unique dest (value ∷ src) = append_unique (append_one dest value) src

comma_separated : List Bytes → Bytes
comma_separated [] = []
comma_separated (v ∷ values) =
    let rest = comma_separated values in if is_empty values then v else v ++ (codes ", " ++ rest)

unfoldable pub join_csv : List Bytes → ℕ → Bytes
unfolding comma_separated
join_csv values limit =
    comma_separated (take limit values) ++ (if ltb limit (length values) then codes " ..." else [])

unfoldable pub summarize_selector : StagedChange → Bytes
unfolding to_decimal
summarize_selector change =
    if str_eq change.operation (codes "replace_range")
    then codes "line-range "
      ++ (to_decimal change.line_start ++ (codes "-" ++ to_decimal change.line_end))
    else change.operation
      ++ (codes " occurrence="
          ++ (to_decimal change.selector.occurrence
              ++ ((if change.selector.from_end then codes " from_end=true" else [])
                  ++ (if is_empty change.selector.query
                      then []
                      else codes " query=" ++ change.selector.query))))

-- What `aggregate_session_risk` reads of a file.
pub record FileRisk : Type 0 where
  pub risk_level : Bytes
  pub risk_reasons : List Bytes

-- The loop over the files.
files_risk : RiskHint → List FileRisk → RiskHint
unfolding max_risk_level append_unique
files_risk out [] = out
files_risk out (file ∷ files) =
    files_risk
      (record {
        level =
            max_risk_level out.level
              (if is_empty file.risk_level then codes "low" else file.risk_level);
        reasons = append_unique out.reasons file.risk_reasons;
      })
      files

unfoldable pub aggregate_session_risk : List FileRisk → ℕ → RiskHint
unfolding files_risk append_one
aggregate_session_risk files staged_change_count =
    let out = files_risk (record { level = codes "low"; reasons = [] }) files in
    let cross = leb 2 (length files) in
    let many = leb 4 staged_change_count in
    let reasons =
      if cross then append_one out.reasons (codes "cross-file-change") else out.reasons in
    let level = if cross && str_eq out.level (codes "low") then codes "medium" else out.level in
    record {
      level = if many && not (str_eq level (codes "high")) then codes "medium" else level;
      reasons = if many then append_one reasons (codes "many-staged-changes") else reasons;
    }
