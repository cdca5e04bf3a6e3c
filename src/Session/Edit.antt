-- ===== src/Session/Edit.antt =====
-- How a staged change finds its target in a text and rewrites it (session_service.cpp, from
-- `infer_anchor` to `change_can_rebase_on_content`). The laws are in the modules below.
pub mod Candidates
pub mod Search
pub mod Apply
pub mod Range
use ai_editor.Prelude.{
  ℕ, zero, suc, ◌+◌, ◌-◌, Bool, true, false, not, ◌&&◌, ◌||◌, List, [], ◌∷◌, ◌++◌, Option, none,
  some, arith, length, take, drop, get_elem?, ltb, ◌==◌, if◌then◌else◌,
}
use ai_editor.Text.{Bytes, codes, str_eq, is_empty}
use mathlib.Core.Option
use ai_editor.Text.Find.{find, rfind}
use ai_editor.Outcome.{Outcome, ok, err, ◌>>=◌}
use ai_editor.Document.{
  TextDocument, make_document_from_content, join_lines, slice_range_text, bad_range,
  ends_with_newline,
}
use ai_editor.Session.Types.{Selector, StagedChange}

pub record CandidateRange : Type 0 where
  pub start : ℕ
  pub end : ℕ
  pub ordinal : ℕ

-- The anchors that a selector names: one somewhere before the hit, one somewhere after it.
abbrev is_found : Option ℕ → Bool
is_found none = false
is_found (some k) = true

abbrev allowed : Bytes → Selector → ℕ → ℕ → Bool
allowed content selector pos end =
    (is_empty selector.anchor_before || is_found (rfind content selector.anchor_before pos))
    && (is_empty selector.anchor_after || is_found (find content selector.anchor_after end))

-- The loop of `locate_candidates`, from `pos` on, after `ordinal` candidates. Each round goes on
-- behind the hit, so one round for each byte and one more suffice; none if the rounds run out.
unfoldable pub locate_loop : ℕ → Bytes → Selector → ℕ → ℕ → Option (List CandidateRange)
locate_loop zero content selector pos ordinal = none
locate_loop (suc fuel) content selector pos ordinal = elim (find content selector.query pos) [
  | none ↦ some []
  | some p ↦
      let end = p + length selector.query in
      if allowed content selector p end
      then Option.map (λ cs. record { start = p; end = end; ordinal = ordinal + 1 } ∷ cs)
          (locate_loop fuel content selector end (ordinal + 1))
      else locate_loop fuel content selector end ordinal
]

unfoldable pub locate_candidates : Bytes → Selector → List CandidateRange
locate_candidates content selector =
    if is_empty selector.query
    then []
    else elim (locate_loop (length content + 1) content selector 0 0) [ none ↦ [] | some cs ↦ cs ]

abbrev not_found : Bytes
not_found = codes "selector target not found"

-- `candidates[i]`
abbrev pick : List CandidateRange → ℕ → Outcome CandidateRange
pick candidates i = elim (get_elem? candidates i) [ none ↦ err not_found | some c ↦ ok c ]

-- The chosen range and the number of candidates.
unfoldable pub resolve_candidate : Bytes → Selector → Outcome CandidateRange × ℕ
resolve_candidate content selector =
    let candidates = locate_candidates content selector in
    let occurrence = selector.occurrence in
    (
      if is_empty candidates
          then err not_found
          else if occurrence == 0
          then err (codes "invalid selector occurrence")
          else if ltb (length candidates) occurrence
          then err not_found
          else if selector.from_end
          then pick candidates (length candidates - occurrence)
          else pick candidates (occurrence - 1),
      length candidates,
    )

unfoldable pub count_line_of_offset : Bytes → ℕ → ℕ
count_line_of_offset content zero = 1
count_line_of_offset [] (suc offset) = 1
count_line_of_offset (c ∷ content) (suc offset) =
    let rest = count_line_of_offset content offset in if c == 10 then suc rest else rest

-- What `apply_change_to_content` writes to `updated` and to the item's lines.
pub record Applied : Type 0 where
  pub updated : Bytes
  pub line_start : ℕ
  pub line_end : ℕ

-- The branch of `replace_range`.
apply_range : StagedChange → Bytes → Outcome Applied
apply_range change original =
    let doc = make_document_from_content original true in
    if bad_range change.line_start change.line_end doc.lines
    then err (codes "invalid line range")
    else ok (record {
      updated =
          join_lines
            (take (change.line_start - 1) doc.lines
              ++ ((make_document_from_content change.new_content true).lines
                  ++ drop change.line_end doc.lines))
            (doc.trailing_newline || ends_with_newline change.new_content);
      line_start = change.line_start;
      line_end = change.line_end;
    })

-- The four operations on a selected block: `replace`, `insert` and `erase` of `std::string`.
splice : Bytes → Bytes → Bytes → CandidateRange → Outcome Bytes
splice operation original new_content chosen =
    if str_eq operation (codes "replace_block")
    then ok (take chosen.start original ++ (new_content ++ drop chosen.end original))
    else if str_eq operation (codes "insert_before")
    then ok (take chosen.start original ++ (new_content ++ drop chosen.start original))
    else if str_eq operation (codes "insert_after")
    then ok (take chosen.end original ++ (new_content ++ drop chosen.end original))
    else if str_eq operation (codes "delete_block")
    then ok (take chosen.start original ++ drop chosen.end original)
    else err (codes "unsupported operation")

-- The branch of the block operations.
apply_block : StagedChange → Bytes → Outcome Applied
unfolding splice
apply_block change original = do
  chosen ← (resolve_candidate original change.selector).0
  next ← splice change.operation original change.new_content chosen
  ok (record {
    updated = next;
    line_start = count_line_of_offset original chosen.start;
    line_end = count_line_of_offset original chosen.end;
  })

unfoldable pub apply_change_to_content : StagedChange → Bytes → Outcome Applied
unfolding apply_range apply_block
apply_change_to_content change original =
    if str_eq change.operation (codes "replace_content")
    then ok (record {
      updated = change.new_content;
      line_start = 1;
      line_end = count_line_of_offset original (length original);
    })
    else if str_eq change.operation (codes "replace_range")
    then apply_range change original
    else apply_block change original

-- The part of `change_can_rebase_on_content` for `replace_range`.
unfoldable pub range_unchanged : StagedChange → Bytes → Outcome (Unit {0})
range_unchanged change content =
    let doc = make_document_from_content content true in
    if bad_range change.line_start change.line_end doc.lines
    then err (codes "range drifted")
    else if str_eq (slice_range_text doc change.line_start change.line_end) change.expected_content
    then ok tt
    else err (codes "range content changed")

-- The last part of `change_can_rebase_on_content`, for the block operations.
unfoldable pub target_unchanged : StagedChange → Bytes → Outcome (Unit {0})
target_unchanged change content = do
  chosen ← (resolve_candidate content change.selector).0
  let target = take (chosen.end - chosen.start) (drop chosen.start content)
  if not (is_empty change.expected_content) && not (str_eq target change.expected_content)
      then err (codes "selector target changed")
      else ok tt

-- Whether the target of a change is still what was there when it was staged; if not, the reason.
unfoldable pub change_can_rebase_on_content : StagedChange → Bytes → Outcome (Unit {0})
unfolding range_unchanged target_unchanged
change_can_rebase_on_content change content =
    if str_eq change.operation (codes "replace_content")
    then if not (is_empty change.expected_content) && not (str_eq content change.expected_content)
      then err (codes "file content changed")
      else ok tt
    else if str_eq change.operation (codes "replace_range")
    then range_unchanged change content
    else target_unchanged change content

abbrev join_non_empty : Bytes → Bytes → Bytes
join_non_empty a b = if is_empty a then b else if is_empty b then a else a ++ (codes " | " ++ b)

unfoldable pub infer_anchor : Selector → Bytes
infer_anchor selector = join_non_empty selector.anchor_before selector.anchor_after
