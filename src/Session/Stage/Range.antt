-- ===== src/Session/Stage/Range.antt =====
-- A change that is staged, and the file that it was staged on.
use ai_editor.Prelude.{
  ◌≡◌, refl, sym, ap, ◌∙◌, true, false, not, take, drop, ℕ, ◌-◌, ◌&&◌, arith, inl, inr, Bool-cases,
}
use mathlib.Core.Path.{subst}
use ai_editor.Text.{Bytes, codes, str_eq, str_eq_refl, is_empty}
use ai_editor.Outcome.{ok, is_ok, ok-injective, ok≢err, map_ok-ok}
use ai_editor.Document.{make_document_from_content, slice_range_text, bad_range}
use ai_editor.Session.Types.{StagedChange, Selector}
use ai_editor.Session.Edit.{
  change_can_rebase_on_content, apply_change_to_content, resolve_candidate, range_unchanged,
  target_unchanged, CandidateRange,
}
use ai_editor.Session.Edit.Apply.{BlockOperation, name_of, rebase_then_apply, rebase_as_block}
use ai_editor.Session.Store.{FileFingerprint}
use ai_editor.Session.Recovery.{is_clean}
use ai_editor.Session.Stage.{range_staged, range_change, block_change, selected_change}

-- What holds of a change that was staged on a file: it is clean, it passes the rebase check on the
-- file's content, and it can be applied to it.
pub Fits : StagedChange → FileFingerprint → Type 0
Fits change fp =
    (is_clean change fp ≡ true)
    × (is_ok (change_can_rebase_on_content change fp.content) ≡ true)
    × (is_ok (apply_change_to_content change fp.content) ≡ true)

clean_lem :
    (h m : Bytes)
    → (not (not (is_empty h) && not (str_eq h h)) && not (not (is_empty m) && not (str_eq m m)))
      ≡ true
clean_lem h m = ground (arith, str_eq_refl h, str_eq_refl m)

module _ (path : Bytes) (fp : FileFingerprint) (line_start line_end : ℕ) (new_content : Bytes)
    (there : fp.exists ≡ true)
    (good : bad_range line_start line_end (make_document_from_content fp.content fp.exists).lines
      ≡ false) where
  abbrev staged : StagedChange
  staged = range_staged path fp line_start line_end new_content

  range_unchanged-staged : range_unchanged staged fp.content ≡ ok tt
  unfolding range_unchanged range_staged
  range_unchanged-staged =
      let good' = rw there at good in
      rw
        (
          there,
          good',
          str_eq_refl
              (slice_range_text (make_document_from_content fp.content true) line_start line_end),
        )
        refl

  range_rebases : is_ok (change_can_rebase_on_content staged fp.content) ≡ true
  unfolding change_can_rebase_on_content str_eq range_staged
  range_rebases = rw (range_unchanged-staged) refl

  range_staged-Fits : Fits staged fp
  unfolding Fits
  range_staged-Fits = (
    (unfold is_clean range_staged in clean_lem fp.hash fp.mtime),
    range_rebases,
    rebase_then_apply staged fp.content (inr (inl (unfold range_staged in refl))) range_rebases,
  )

-- The change that `edit_replace_range` stages on a file that exists fits that file.
pub range_change-Fits :
    (path : Bytes) (fp : FileFingerprint) (line_start line_end : ℕ) (new_content : Bytes)
    (change : StagedChange)
    → fp.exists ≡ true
    → range_change path fp line_start line_end new_content ≡ ok change
    → Fits change fp
range_change-Fits path fp line_start line_end new_content change e h =
    elim (Bool-cases
      (bad_range line_start line_end (make_document_from_content fp.content fp.exists).lines)) [
        | inl bad ↦
            absurd
              (ok≢err {e = codes "invalid line range"} (sym h ∙ (unfold range_change in rw bad)))
        | inr good ↦
            let same =
              ok-injective {b = range_staged path fp line_start line_end new_content}
                (sym h ∙ (unfold range_change in rw good)) in
            subst (λ c. Fits c fp) (sym same)
              (range_staged-Fits path fp line_start line_end new_content e good)
      ]

module _ (op : BlockOperation) (path : Bytes) (fp : FileFingerprint) (selector : Selector)
    (new_content : Bytes) (n : ℕ) (chosen : CandidateRange)
    (e : (resolve_candidate fp.content selector).0 ≡ ok chosen) where
  abbrev selected : StagedChange
  selected = selected_change (name_of op) path fp selector new_content n chosen

  target_unchanged-selected : target_unchanged selected fp.content ≡ ok tt
  unfolding target_unchanged selected_change
  target_unchanged-selected =
      let target = take (chosen.end - chosen.start) (drop chosen.start fp.content) in
      rw e (ground (arith, str_eq_refl target))

  block_rebases : is_ok (change_can_rebase_on_content selected fp.content) ≡ true
  block_rebases = ap is_ok (
      rebase_as_block selected op fp.content (unfold selected_change in refl)
      ∙ target_unchanged-selected)

  selected-Fits : Fits selected fp
  unfolding Fits
  selected-Fits = (
    (unfold is_clean selected_change in clean_lem fp.hash fp.mtime),
    block_rebases,
    rebase_then_apply selected fp.content (inr (inr (op, (unfold selected_change in refl))))
        block_rebases,
  )

-- The change that an edit of a block stages on a file fits that file.
pub block_change-Fits :
    (op : BlockOperation) (path : Bytes) (fp : FileFingerprint) (selector : Selector)
    (new_content : Bytes) (change : StagedChange)
    → block_change (name_of op) path fp selector new_content ≡ ok change
    → Fits change fp
unfolding block_change
block_change-Fits op path fp selector new_content change h =
    let (resolved, n) = resolve_candidate fp.content selector in
    let (chosen, e, same) =
      map_ok-ok (selected_change (name_of op) path fp selector new_content n) resolved change h in
    subst (λ c. Fits c fp) (sym same) (selected-Fits op path fp selector new_content n chosen e)
