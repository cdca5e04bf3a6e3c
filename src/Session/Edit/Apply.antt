-- ===== src/Session/Edit/Apply.antt =====
-- `apply_change_to_content` on a block of a text, and the rebase check.
use ai_editor.Prelude.{
  ◌≡◌, refl, sym, ap, ◌∙◌, true, [], ◌++◌, arith, length, take, drop, inl, inr, take-append-drop,
  drop-drop, take-add, append_assoc, ◌⊎◌,
}
use ai_editor.Text.{Bytes, codes, str_eq}
use ai_editor.Text.Find.{starts_with-take}
use ai_editor.Outcome.{ok, err, is_ok, Outcome-cases}
use ai_editor.Session.Types.{Selector, StagedChange}
use ai_editor.Session.Edit.{
  count_line_of_offset, CandidateRange, Applied, resolve_candidate, apply_range, apply_block,
  splice, apply_change_to_content, change_can_rebase_on_content, range_unchanged, target_unchanged,
}
use ai_editor.Session.Edit.Candidates.{IsCandidate, resolve_candidate_sound}

-- The operations on a block.
pub data BlockOperation : Type 0 where
  replace_block insert_before insert_after delete_block : BlockOperation

abbrev pub name_of : BlockOperation → Bytes
name_of replace_block = codes "replace_block"
name_of insert_before = codes "insert_before"
name_of insert_after = codes "insert_after"
name_of delete_block = codes "delete_block"

-- What stands in place of the target afterwards.
abbrev pub edited : BlockOperation → Bytes → Bytes → Bytes
edited replace_block target new_content = new_content
edited insert_before target new_content = new_content ++ target
edited insert_after target new_content = target ++ new_content
edited delete_block target new_content = []

-- A text cut at a candidate.
candidate_cut :
    (content : Bytes) (selector : Selector) (c : CandidateRange)
    → IsCandidate content selector c
    → drop c.start content ≡ selector.query ++ drop c.end content
candidate_cut content selector c h =
    sym (take-append-drop (length selector.query) (drop c.start content))
    ∙ ap (λ t. t ++ drop (length selector.query) (drop c.start content))
        (starts_with-take (drop c.start content) selector.query h.occurs)
    ∙ ap (λ t. selector.query ++ t)
        (drop-drop c.start (length selector.query) content ∙ ap (λ n. drop n content) (sym h.ends))

candidate_prefix :
    (content : Bytes) (selector : Selector) (c : CandidateRange)
    → IsCandidate content selector c
    → take c.end content ≡ take c.start content ++ selector.query
candidate_prefix content selector c h =
    ap (λ n. take n content) h.ends
    ∙ take-add c.start (length selector.query) content
    ∙ ap (λ t. take c.start content ++ t)
        (starts_with-take (drop c.start content) selector.query h.occurs)

splice_lem :
    (op : BlockOperation) (content new_content : Bytes) (selector : Selector) (c : CandidateRange)
    → IsCandidate content selector c
    → splice (name_of op) content new_content c
      ≡ ok (take c.start content ++ (edited op selector.query new_content ++ drop c.end content))
unfolding splice str_eq
splice_lem replace_block content new_content selector c h = refl
splice_lem insert_before content new_content selector c h =
    ap (λ t. ok (take c.start content ++ t))
      (ap (λ t. new_content ++ t) (candidate_cut content selector c h)
        ∙ sym (append_assoc new_content selector.query (drop c.end content)))
splice_lem insert_after content new_content selector c h =
    ap (λ t. ok (t ++ (new_content ++ drop c.end content))) (candidate_prefix content selector c h)
    ∙ ap ok (
        append_assoc (take c.start content) selector.query (new_content ++ drop c.end content)
        ∙ ap (λ t. take c.start content ++ t)
            (sym (append_assoc selector.query new_content (drop c.end content))))
splice_lem delete_block content new_content selector c h = refl

ok-injective : {a b : Applied} → ok a ≡ ok b → a ≡ b
ok-injective e = cc

apply_block-missed :
    (change : StagedChange) (original m : Bytes)
    → (resolve_candidate original change.selector).0 ≡ err m
    → apply_block change original ≡ err m
unfolding apply_block
apply_block-missed change original m missed = rw missed

apply_as_block :
    (change : StagedChange) (op : BlockOperation) (original : Bytes)
    → change.operation ≡ name_of op
    → apply_change_to_content change original ≡ apply_block change original
unfolding apply_change_to_content str_eq
apply_as_block change replace_block original e = rw e
apply_as_block change insert_before original e = rw e
apply_as_block change insert_after original e = rw e
apply_as_block change delete_block original e = rw e

-- The text that a block edit gives at the candidate that the selector chooses.
apply_block-chosen :
    (change : StagedChange) (op : BlockOperation) (original : Bytes) (c : CandidateRange)
    → change.operation ≡ name_of op
    → (resolve_candidate original change.selector).0 ≡ ok c
    → (r : Applied) × (apply_change_to_content change original ≡ ok r)
      × (r.updated
          ≡ take c.start original
            ++ (edited op change.selector.query change.new_content ++ drop c.end original))
apply_block-chosen change op original c e chosen =
    let h = (resolve_candidate_sound original change.selector c chosen).0 in
    let t = splice_lem op original change.new_content change.selector c h in
    (
      record {
        updated =
            take c.start original
            ++ (edited op change.selector.query change.new_content ++ drop c.end original);
        line_start = count_line_of_offset original c.start;
        line_end = count_line_of_offset original c.end;
      },
      apply_as_block change op original e ∙ (unfold apply_block in rw (chosen, e, t)),
      refl,
    )

-- A block edit that succeeds replaces one occurrence of the selector's query, and leaves every
-- byte before it and after it as it was.
pub apply_block_local :
    (change : StagedChange) (op : BlockOperation) (original : Bytes) (r : Applied)
    → change.operation ≡ name_of op
    → apply_change_to_content change original ≡ ok r
    → (before : Bytes) × (after : Bytes) × (original ≡ before ++ (change.selector.query ++ after))
      × (r.updated ≡ before ++ (edited op change.selector.query change.new_content ++ after))
apply_block_local change op original r e h =
    elim (Outcome-cases (resolve_candidate original change.selector).0) [
      | inl (c, chosen) ↦
          let k = (resolve_candidate_sound original change.selector c chosen).0 in
          let (s, a, u) = apply_block-chosen change op original c e chosen in
          (
            take c.start original,
            drop c.end original,
            sym (take-append-drop c.start original)
                ∙ ap (λ t. take c.start original ++ t) (candidate_cut original change.selector c k),
            ap (λ (x : Applied). x.updated) (ok-injective (sym h ∙ a)) ∙ u,
          )
      | inr (m, missed) ↦ absurd (failed m missed)
    ]
  where
    failed : (m : Bytes) → (resolve_candidate original change.selector).0 ≡ err m → ⊥
    failed m missed =
        cc (h, apply_as_block change op original e, apply_block-missed change original m missed)

-- The operations that the edits stage.
abbrev pub IsOperation : Bytes → Type 0
IsOperation operation =
    (operation ≡ codes "replace_content")
    ⊎ ((operation ≡ codes "replace_range") ⊎ ((op : BlockOperation) × (operation ≡ name_of op)))

pub rebase_as_block :
    (change : StagedChange) (op : BlockOperation) (content : Bytes)
    → change.operation ≡ name_of op
    → change_can_rebase_on_content change content ≡ target_unchanged change content
unfolding change_can_rebase_on_content str_eq
rebase_as_block change replace_block content e = rw e
rebase_as_block change insert_before content e = rw e
rebase_as_block change insert_after content e = rw e
rebase_as_block change delete_block content e = rw e

rebase_then_apply_range :
    (change : StagedChange) (content : Bytes)
    → is_ok (range_unchanged change content) ≡ true
    → is_ok (apply_range change content) ≡ true
unfolding range_unchanged apply_range
rebase_then_apply_range change content h = ground arith

target_unchanged-resolves :
    (change : StagedChange) (content : Bytes)
    → is_ok (target_unchanged change content) ≡ true
    → (c : CandidateRange) × ((resolve_candidate content change.selector).0 ≡ ok c)
unfolding target_unchanged
target_unchanged-resolves change content h = ground arith

-- A change of one of the six operations that passes the rebase check can be applied to the text.
pub rebase_then_apply :
    (change : StagedChange) (content : Bytes)
    → IsOperation change.operation
    → is_ok (change_can_rebase_on_content change content) ≡ true
    → is_ok (apply_change_to_content change content) ≡ true
rebase_then_apply change content (inl e) h = unfold apply_change_to_content str_eq in rw e
rebase_then_apply change content (inr (inl e)) h =
    unfold apply_change_to_content change_can_rebase_on_content str_eq in
    rw e (rebase_then_apply_range change content (rw e at h))
rebase_then_apply change content (inr (inr (op, e))) h =
    let (c, chosen) =
      target_unchanged-resolves change content (rw (rebase_as_block change op content e) at h) in
    let (r, a, u) = apply_block-chosen change op content c e chosen in rw a
