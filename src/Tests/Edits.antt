-- ===== src/Tests/Edits.antt =====
-- The laws of edits at concrete inputs.
use ai_editor.Prelude.{
  ℕ, ◌+◌, ◌-◌, ◌≤◌, ◌<◌, ◌≡◌, ◌↔◌, refl, ◌⊎◌, inr, some, true, [], ◌++◌, take, drop, length, arith,
  if◌then◌else◌,
}
use ai_editor.Text.{Bytes, codes, str_eq}
use ai_editor.Text.Find.{find, OccursAt}
use ai_editor.Outcome.{is_ok}
use ai_editor.Document.{ends_with_newline, make_document_from_content, slice_range_text, strip_cr}
use ai_editor.Document.Laws.{All}
use ai_editor.Session.Types.{Selector, StagedChange}
use ai_editor.Session.Edit.{
  CandidateRange, Applied, locate_loop, locate_candidates, resolve_candidate,
  apply_change_to_content, change_can_rebase_on_content,
}
use ai_editor.Session.Edit.Candidates.{
  IsCandidate, InOrder, locate_candidates_sound, resolve_candidate_ok_iff, resolve_candidate_sound,
}
use ai_editor.Session.Edit.Search.{locate_loop_terminates, locate_candidates-empty_iff}
use ai_editor.Session.Edit.Apply.{replace_block, edited, apply_block_local, rebase_then_apply}
use ai_editor.Session.Edit.Range.{
  lines_of, apply_range_ok_iff, apply_range_lines, replace_range_self,
}
use ai_editor.Session.Stage.{no_selector, fresh_change}

abbrev text : Bytes
text = codes "a b a\n"

abbrev last_a : Selector
last_a = record no_selector { query = codes "a"; from_end = true }

abbrev base : StagedChange
base =
    fresh_change (codes "x.txt") (record { exists = true; mtime = []; hash = []; content = text })

abbrev block : StagedChange
block = record base {
  operation = codes "replace_block";
  selector = last_a;
  new_content = codes "c";
}

abbrev block_result : Applied
block_result = record { updated = codes "a b c\n"; line_start = 1; line_end = 1 }

abbrev lines_text : Bytes
lines_text = codes "1\n2\n3\n"

abbrev range : StagedChange
range = record base {
  operation = codes "replace_range";
  line_start = 2;
  line_end = 2;
  new_content = codes "2";
}

abbrev range_result : Applied
range_result = record { updated = lines_text; line_start = 2; line_end = 2 }

apply_block_local_example :
    (before : Bytes) × (after : Bytes) × (text ≡ before ++ (block.selector.query ++ after))
    × (block_result.updated
        ≡ before ++ (edited replace_block block.selector.query block.new_content ++ after))
unfolding apply_change_to_content str_eq find resolve_candidate locate_candidates locate_loop
    ai_editor.Text.starts_with ai_editor.Session.Edit.count_line_of_offset
apply_block_local_example = apply_block_local block replace_block text block_result refl refl

rebase_then_apply_example : is_ok (apply_change_to_content block text) ≡ true
unfolding change_can_rebase_on_content str_eq find resolve_candidate locate_candidates locate_loop
    ai_editor.Text.starts_with
rebase_then_apply_example = rebase_then_apply block text (inr (inr (replace_block, refl))) refl

locate_candidates_sound_example :
    All (IsCandidate text last_a) (locate_candidates text last_a)
    × InOrder 0 0 (locate_candidates text last_a)
locate_candidates_sound_example = locate_candidates_sound text last_a

locate_loop_terminates_example :
    locate_loop 100 text last_a 0 0 ≡ some (locate_candidates text last_a)
locate_loop_terminates_example = locate_loop_terminates text last_a 100 refl (omega arith)

locate_candidates-empty_iff_example :
    (locate_candidates text last_a ≡ [])
    ↔ ((last_a.query ≡ []) ⊎ ((k : ℕ) → k ≤ length text → ¬ (OccursAt text last_a.query k)))
locate_candidates-empty_iff_example = locate_candidates-empty_iff text last_a refl refl

resolve_candidate_ok_iff_example :
    (is_ok (resolve_candidate text last_a).0 ≡ true)
    ↔ ((0 < last_a.occurrence) × (last_a.occurrence ≤ length (locate_candidates text last_a)))
resolve_candidate_ok_iff_example = resolve_candidate_ok_iff text last_a

abbrev second : CandidateRange
second = record { start = 4; end = 5; ordinal = 2 }

resolve_candidate_sound_example :
    IsCandidate text last_a second
    × (second.ordinal ≡ (
        if last_a.from_end
        then length (locate_candidates text last_a) + 1 - last_a.occurrence
        else last_a.occurrence))
unfolding resolve_candidate find locate_candidates locate_loop ai_editor.Text.starts_with
resolve_candidate_sound_example = resolve_candidate_sound text last_a second refl

apply_range_ok_iff_example : (is_ok (apply_change_to_content range lines_text) ≡ true) ↔ (
    (0 < range.line_start)
    × (range.line_start ≤ range.line_end)
    × (range.line_end ≤ length (lines_of lines_text)))
apply_range_ok_iff_example = apply_range_ok_iff range lines_text refl

apply_range_lines_example :
    lines_of range_result.updated
    ≡ take (range.line_start - 1) (lines_of lines_text)
      ++ (lines_of range.new_content ++ drop range.line_end (lines_of lines_text))
unfolding apply_change_to_content str_eq make_document_from_content ai_editor.Document.join_lines
apply_range_lines_example = apply_range_lines range lines_text range_result refl refl refl

replace_range_self_example : range_result.updated ≡ strip_cr lines_text
unfolding apply_change_to_content str_eq slice_range_text make_document_from_content
    ai_editor.Document.join_lines
replace_range_self_example =
    replace_range_self range lines_text range_result (codes "2") refl refl refl refl (λ e. cc)
